-- ===== src/Cli/Main.antt =====
-- cmd/weavefs/main.go: the choice of a command, and how a complete node is put together.
pub mod Restart
use weave_fs.Base.{
  ℕ, ℤ, pos, Bool, true, false, Option, none, some, List, [], ◌∷◌, ◌++◌, Bytes, Text, codes, ◌==◌,
  nat_eq, list_eq, if◌then◌else◌,
}
use weave_fs.Exec.{Error, Result, ok, err, World, Exec, pure, lift, ◌>>=◌, ◌>>◌}
use weave_fs.Store.Cipher.{Cipher}
use weave_fs.Crypto.Aes.{AesCipher, AesLibrary, new_aes_cipher, aes_cipher}
use weave_fs.Crypto.Key.{load_or_create_key}
use weave_fs.Store.Version.{Library}
use weave_fs.Store.Paths.{Store, new_store, cas_path_transform}
use weave_fs.Node
use weave_fs.Server.Types.{FileServer, Codecs, Network}
use weave_fs.Server.Config.{Life, fresh, start, close}
use weave_fs.Server

pub data Command : Type 0 where
  demo serve id put send get ls rm alias aliases disconnect help : Command
  unknown : Text → Command

-- The names of the commands, as the switch lists them.
abbrev command_names : List (Text × Command)
command_names =
    (codes "demo", demo)
    ∷ (codes "serve", serve)
    ∷ (codes "id", id)
    ∷ (codes "put", put)
    ∷ (codes "send", send)
    ∷ (codes "get", get)
    ∷ (codes "ls", ls)
    ∷ (codes "rm", rm)
    ∷ (codes "alias", alias)
    ∷ (codes "aliases", aliases)
    ∷ (codes "disconnect", disconnect)
    ∷ (codes "help", help)
    ∷ (codes "-h", help)
    ∷ (codes "--help", help)
    ∷ []

named : Text → List (Text × Command) → Command
named t [] = unknown t
named t ((name, c) ∷ rest) = let other = named t rest in if t == name then c else other

-- The command of the arguments behind the program's name.
unfoldable pub command_of : List Text → Command
unfolding named
command_of [] = demo
command_of (t ∷ args) = named t command_names

-- `defaultDataDir`, of the environment variable.
unfoldable pub default_data_dir : Text → Text
default_data_dir env = if env == [] then codes "weavefs_data" else env

-- A node with its store and its server.
pub record WeaveNode : Type 0 where
  pub node : Node.Node
  pub store : Store
  pub server : FileServer
  pub life : Life
  pub dir : Text

-- What a node is built on: libp2p, AES, and what the server uses of its connections.
pub record Platform (Key : Type 0) : Type 0 where
  pub net : Node.Libp2p Key
  pub aes : AesLibrary
  pub lib : Library
  pub codecs : Codecs
  pub peers : List Text
  pub network : Network

unfoldable pub node_config : Text → List Text → Bool → Node.Config
node_config data_dir listen_addrs disable_mdns = record {
  listen_addrs = listen_addrs;
  data_dir = data_dir;
  service_name = [];
  disable_mdns = disable_mdns;
}

module _ {Key : Type 0} (p : Platform Key) where
  joined : Text → Server.Config.Joined
  joined peer_id = record {
    id = peer_id;
    peers = p.peers;
    network = p.network;
    lib = p.lib;
    codecs = p.codecs;
  }

  -- What is put together once the identity and the key are there.
  assembled : Text → Node.Node → Bytes → Result WeaveNode
  unfolding joined Server.Config.new start
  assembled data_dir n key = with_cipher (new_aes_cipher p.aes key)
    where
      store_with : Cipher → Store
      store_with c = new_store (record {
        root = data_dir;
        path_transform = some (cas_path_transform p.lib);
        max_versions = pos 0;
        cipher = some c;
      })

      with_server : Store → Result FileServer → Result WeaveNode
      with_server st (err e) = err e
      with_server st (ok srv) =
          ok (record { node = n; store = st; server = srv; life = start fresh; dir = data_dir })

      with_cipher : Result AesCipher → Result WeaveNode
      with_cipher (err e) = err e
      with_cipher (ok c) = with_server (store_with (aes_cipher c)) (
          Server.Config.new (record {
            node = some (joined n.id);
            store = some (store_with (aes_cipher c));
            replication_factor = pos 0;
            request_timeout = pos 0;
            authorizer = none;
          }))

  -- A failure behind the node's start closes the node and is handed on.
  unfoldable pub start_node : Text → List Text → Bool → Exec WeaveNode
  unfolding assembled node_config
  start_node data_dir listen_addrs disable_mdns = do
    n ← Node.new p.net (node_config data_dir listen_addrs disable_mdns)
    key ← load_or_create_key data_dir
    lift (assembled data_dir n key)

-- The server is closed before the node; the errors are dropped.
unfoldable pub close_node : Option Error → WeaveNode → WeaveNode
unfolding close Node.close
close_node host_closes w = record w {
  node = (Node.close host_closes w.node).1;
  life = close w.life;
}
