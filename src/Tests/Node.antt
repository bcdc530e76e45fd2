-- ===== src/Tests/Node.antt =====
-- A small node: its restart, its end, and the life of its handlers.
use weave_fs.Base.{
  true, false, none, some, [], ◌∷◌, Bytes, codes, ◌++◌, sym, ◌∙◌, subst, ◌≡◌, refl, arith, list_beq,
  nat_eq, list_eq,
}
use weave_fs.Strings.{split, join}
use weave_fs.Hex.{digit, encode}
use weave_fs.Exec.{io_fault, Result, ok, err, World, calm}
use weave_fs.Exec.Laws.{result_of}
use weave_fs.Disk.{
  read_file, read_random, mkdir_all, create, append, write_file, dir, next_call, remove, rename,
}
use weave_fs.Disk.Resolve.{resolve, drop_last}
use weave_fs.Fsutil.{write_file_atomic}
use weave_fs.Crypto.Aes.{new_aes_cipher}
use weave_fs.Crypto.Key.{load_or_create_key, create_key}
use weave_fs.Node
use weave_fs.Node.Identity.{Keys, IsFaithful, load_or_create_identity, create_identity}
use weave_fs.Server.Fanout.{store_protocol, get_protocol, share_protocol}
use weave_fs.Server.Config.{fresh, to_start, to_close, calls, calls_settle}
use weave_fs.Server
use weave_fs.Cli.Main.{Platform, WeaveNode, start_node, node_config}
use weave_fs.Cli.Main.Restart.{start_node_stable}
use weave_fs.Tests.Library.{small_lib, small_store, small_aes, small_world}
use weave_fs.Tests.Codecs.{codecs}
use weave_fs.Tests.Peers.{keeper}
use weave_fs.Cli.Serve.{ServeFlags, Dialler, Running, serve_up, run_serve}
use weave_fs.Cli.Serve.Laws.{run_serve-new_client}
use weave_fs.Cli.Client.{done, failed, new_client, not_running}
use weave_fs.Api.Listen
use weave_fs.Api.Listen.{Listen, start, addr_of}
use weave_fs.Api.AddrFile.{write_addr_file}
use weave_fs.Strings.{is_space}
use weave_fs.Strings.Laws.{HasNoSpace}

-- A key is four random bytes.
abbrev small_keys : Keys Bytes
small_keys = record { generate = read_random 4; marshal = λ k. some k; unmarshal = λ b. some b }

small_keys-IsFaithful : IsFaithful small_keys
small_keys-IsFaithful = record { unmarshal-marshal = λ k b e. cc e }

abbrev small_net : Node.Libp2p Bytes
small_net = record {
  keys = small_keys;
  new_host = λ k addrs. true;
  discovers = λ name. false;
  peer_id = λ k. k;
}

abbrev small_platform : Platform Bytes
small_platform = record {
  net = small_net;
  aes = λ key. some small_aes.block;
  lib = small_lib;
  codecs = codecs;
  peers = [];
  network = λ to protocol. none;
}

abbrev a_node : Node.Node
a_node = record { id = codes "n1"; mdns = false; closed = none }

abbrev node_in : Result WeaveNode → WeaveNode
node_in (ok s) = s
node_in (err e) = record {
  node = a_node;
  store = small_store;
  server = keeper;
  life = fresh;
  dir = [];
}

started : Result WeaveNode × World
unfolding start_node Node.new Node.with_defaults node_config load_or_create_identity create_identity
    load_or_create_key create_key new_aes_cipher Server.Config.new read_file read_random next_call
    write_file_atomic mkdir_all dir drop_last split join resolve write_file create append rename
    remove list_beq encode digit
started = start_node small_platform (codes "data") [] true small_world

started_ended : started.0 ≡ ok (node_in started.0)
unfolding started
started_ended = refl

start_node_stable_example :
    start_node small_platform (codes "data") [] true (calm started.1)
    ≡ (ok (node_in started.0), calm started.1)
unfolding Node.new Node.with_defaults node_config load_or_create_identity create_identity read_file
    read_random next_call write_file_atomic mkdir_all dir drop_last split join resolve write_file
    create append rename remove list_beq
start_node_stable_example =
    start_node_stable small_platform small_keys-IsFaithful (codes "data") [] true small_world
      started.1 (node_in started.0) (omega arith)
      (unfold started in result_of started (ok (node_in started.0)) started_ended)

calls_settle_example :
    ((calls (to_start ∷ to_close ∷ to_start ∷ to_close ∷ []) fresh).handled ≡ [])
    × ((calls (to_close ∷ to_start ∷ to_start ∷ to_close ∷ []) fresh).handled
        ≡ store_protocol ∷ get_protocol ∷ share_protocol ∷ [])
calls_settle_example = calls_settle (to_start ∷ to_close ∷ [])

abbrev flags : ServeFlags
flags = record {
  data_dir = codes "data";
  listen = codes "/ip4/0.0.0.0/tcp/0";
  api_addr = [];
  no_mdns = true;
  peers = codes "p9" ∷ [];
}

abbrev binds : Listen
binds addr = some (codes ":4711")

abbrev dialler : Dialler
dialler = record { is_multiaddr = λ t. false; peer_in = λ t. none; connects = λ t. false }

abbrev running_in : Result Running → Running
running_in (ok r) = r
running_in (err e) = record {
  node = node_in (err e);
  api = record { server = keeper; data_dir = []; addr = []; listener = none };
  dials = [];
}

served : Result Running × World
unfolding serve_up start_node Node.new Node.with_defaults node_config load_or_create_identity
    create_identity load_or_create_key create_key new_aes_cipher Server.Config.new read_file
    read_random next_call write_file_atomic mkdir_all dir drop_last split join resolve write_file
    create append rename remove list_beq encode digit Listen.new start write_addr_file
served = serve_up small_platform binds dialler flags small_world

served_ended : served.0 ≡ ok (running_in served.0)
unfolding served
served_ended = refl

bound_to : addr_of (running_in served.0).api ≡ codes ":4711"
unfolding served addr_of
bound_to = refl

run_serve-new_client_example :
    ((new_client (codes "data") (calm served.1)).0
      ≡ done (record {
        base = codes "http://" ++ addr_of (running_in served.0).api;
        dir = codes "data";
      }))
    × ((run_serve small_platform binds dialler flags calm (some io_fault) small_world).0 ≡ ok tt)
    × ((new_client
          (codes "data")
          (run_serve small_platform binds dialler flags calm (some io_fault) small_world).1).0
        ≡ failed (not_running (codes "data")))
unfolding is_space
run_serve-new_client_example =
    run_serve-new_client small_platform binds dialler flags calm (some io_fault) small_world
      served.1 (running_in served.0)
      (unfold served in result_of served (ok (running_in served.0)) served_ended)
      (λ e. cc (sym bound_to ∙ e))
      (subst HasNoSpace (sym bound_to) (refl, (refl, (refl, (refl, (refl, tt)))))) refl
