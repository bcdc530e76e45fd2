-- ===== src/Cli/Serve.antt =====
-- cmd/weavefs/main.go: the commands that run a node, `serve` and `id`.
pub mod Laws
use weave_fs.Base.{
  Bool, true, false, Option, none, some, List, [], ◌∷◌, ◌++◌, Text, codes, pos, nat_eq, list_eq,
  ◌≡◌, ◌≢◌, refl, ap, ◌∙◌, sym, if◌then◌else◌,
}
use weave_fs.Strings.Laws.{HasNoSpace}
use weave_fs.Exec.{
  Error, not_exist, Result, ok, err, World, Exec, pure, lift, ignore, calm, ◌>>=◌, ◌>>◌,
}
use weave_fs.Exec.Laws.{>>=-eq-ok, >>-pure-eq-ok}
use weave_fs.Api.AddrFile.{read_addr_file}
use weave_fs.Api.Listen
use weave_fs.Api.Listen.{Listen, Api, addr_of, start-read_addr_file, close-read_addr_file}
use weave_fs.Cli.Client.{Outcome, done, failed, not_running, Client, new_client}
use weave_fs.Cli.Main.{WeaveNode, Platform, start_node}

-- What `dialPeer` uses of libp2p: whether a text is a multiaddr, the peer that it names, and
-- whether the peer answers in time.
pub record Dialler : Type 0 where
  pub is_multiaddr : Text → Bool
  pub peer_in : Text → Option Text
  pub connects : Text → Bool

pub data DialError : Type 0 where
  not_multiaddr no_peer_id unreachable : DialError

connected : Dialler → Option Text → Option DialError
connected d none = some no_peer_id
connected d (some id) = if d.connects id then none else some unreachable

unfoldable pub dial_peer : Dialler → Text → Option DialError
unfolding connected
dial_peer d addr = if d.is_multiaddr addr then connected d (d.peer_in addr) else some not_multiaddr

-- The loop over the peers of the command line, whose failures are only logged.
dial_all : Dialler → List Text → List (Text × Option DialError)
unfolding dial_peer
dial_all d [] = []
dial_all d (addr ∷ addrs) = (addr, dial_peer d addr) ∷ dial_all d addrs

-- The flags of `serve`.
pub record ServeFlags : Type 0 where
  pub data_dir : Text
  pub listen : Text
  pub api_addr : Text
  pub no_mdns : Bool
  pub peers : List Text

-- A node that runs, with its API, and how the dials went.
pub record Running : Type 0 where
  pub node : WeaveNode
  pub api : Api
  pub dials : List (Text × Option DialError)

-- How `runID` prints a node: its ID, its directory and its addresses.
pub record Identity : Type 0 where
  pub peer_id : Text
  pub directory : Text
  pub addresses : List Text

module _ {Key : Type 0} (p : Platform Key) (listen : Listen) (d : Dialler) where
  -- `runServe` up to where it waits. What comes after a failure is the closing of the node.
  unfoldable pub serve_up : ServeFlags → Exec Running
  unfolding dial_all
  serve_up flags = do
    n ← start_node p flags.data_dir (flags.listen ∷ []) flags.no_mdns
    a ← lift (
        Listen.new (record {
          file_server = some n.server;
          data_dir = flags.data_dir;
          addr = flags.api_addr;
        }))
    a' ← Listen.start listen a
    pure (record { node = n; api = a'; dials = dial_all d flags.peers })

  -- The whole of `runServe`: `meanwhile` is what happens to the machine until the interrupt.
  unfoldable pub run_serve : ServeFlags → (World → World) → Option Error → Exec (Unit {0})
  unfolding serve_up
  run_serve flags meanwhile shuts_down = do
    r ← serve_up flags
    λ w. (ok tt, meanwhile w)
    ignore (Listen.close shuts_down r.api)

  -- The node is closed before the command ends.
  unfoldable pub run_id : (WeaveNode → List Text) → Text → Exec Identity
  run_id addrs data_dir = do
    n ← start_node p data_dir (codes "/ip4/0.0.0.0/tcp/0" ∷ []) true
    pure (record { peer_id = n.server.node_id; directory = data_dir; addresses = addrs n })
