-- ===== src/Node.antt =====
-- internal/node: a node's configuration, its identity and its end.
pub mod Identity
pub mod Laws
use weave_fs.Base.{
  ℕ, Bool, true, false, not, Option, none, some, List, [], ◌∷◌, Text, codes, ◌==◌, nat_eq, list_eq,
  if◌then◌else◌, ◌≡◌, ◌≢◌, refl, arith, ap,
}
use weave_fs.Exec.{
  Error, no_data_dir, listen_failed, Result, ok, err, World, Exec, raise, guard, ◌>>=◌, ◌>>◌,
}
use weave_fs.Node.Identity.{Keys, load_or_create_identity}

abbrev pub default_listen_addr : Text
default_listen_addr = codes "/ip4/0.0.0.0/tcp/0"

abbrev pub default_service_name : Text
default_service_name = codes "weavefs"

pub record Config : Type 0 where
  pub listen_addrs : List Text
  pub data_dir : Text
  pub service_name : Text
  pub disable_mdns : Bool

addrs_or_default : List Text → List Text
addrs_or_default [] = default_listen_addr ∷ []
addrs_or_default (a ∷ rest) = a ∷ rest

unfoldable pub with_defaults : Config → Config
unfolding addrs_or_default
with_defaults c = record c {
  listen_addrs = addrs_or_default c.listen_addrs;
  service_name = if c.service_name == [] then default_service_name else c.service_name;
}

-- What a node uses of libp2p: a host for a key that listens on addresses, discovery under a name,
-- and the text of the peer ID that belongs to a key.
pub record Libp2p (Key : Type 0) : Type 0 where
  pub keys : Keys Key
  pub new_host : Key → List Text → Bool
  pub discovers : Text → Bool
  pub peer_id : Key → Text

-- A node: its ID, whether discovery runs, and once it is closed, how closing its host ended.
pub record Node : Type 0 where
  pub id : Text
  pub mdns : Bool
  pub closed : Option (Option Error)

-- Discovery that does not start is left out, and is no error.
start_discovery : {Key : Type 0} → Libp2p Key → Text → Bool
start_discovery net name = net.discovers name

hosted : {Key : Type 0} → Libp2p Key → Config → Key → Exec Node
unfolding start_discovery
hosted net cfg priv w = (
  if net.new_host priv cfg.listen_addrs
      then ok (record {
        id = net.peer_id priv;
        mdns = if cfg.disable_mdns then false else start_discovery net cfg.service_name;
        closed = none;
      })
      else err listen_failed,
  w,
)

unfoldable pub new : {Key : Type 0} → Libp2p Key → Config → Exec Node
unfolding with_defaults hosted
new net cfg = do
  let full = with_defaults cfg
  guard (not (full.data_dir == [])) no_data_dir
  priv ← load_or_create_identity net.keys full.data_dir
  hosted net full priv

unfoldable pub discovery_active : Node → Bool
discovery_active n = n.mdns

once : Option (Option Error) → Option Error → Node → Option Error × Node
once none host_closes n = (host_closes, record n { closed = some host_closes })
once (some e) host_closes n = (e, n)

-- The error, and the node behind it; how the host closes is left to `host_closes`.
unfoldable pub close : Option Error → Node → Option Error × Node
unfolding once
close host_closes n = once n.closed host_closes n

-- `HandlePeerFound`: does a peer that was heard of get dialled?
unfoldable pub handle_peer_found : Node → Text → Bool
handle_peer_found n peer = not (peer == n.id)
