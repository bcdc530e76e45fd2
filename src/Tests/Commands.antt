-- ===== src/Tests/Commands.antt =====
-- The commands of a client, on a small machine where a node runs.
use weave_fs.Base.{
  pos, false, none, some, List, [], ◌∷◌, ◌++◌, Bytes, Text, codes, length, ◌≡◌, refl, ap, ◌∙◌,
  list_beq, add_one, nat_eq, list_eq,
}
use weave_fs.Strings.{split, join, is_space, trim_space}
use weave_fs.Hex.{digit, encode}
use weave_fs.Exec.{Result, ok, err, World, calm}
use weave_fs.Exec.Laws.{result_of}
use weave_fs.Disk.{
  read_file, read_random, mkdir_all, create, append, io_copy, time_now, write_file, dir, stat,
  is_prefix, next_call, remove, remove_all, rename, put_file,
}
use weave_fs.Disk.Resolve.{resolve, drop_last}
use weave_fs.Crypto.Aes.{encrypt_writer, xor_key_stream}
use weave_fs.Store.Version.{
  VersionEntry, VersionIndex, empty_index, load_index, new_uuid, save_index, format_uuid,
  index_name, index_path, next_seq, versioned_key,
}
use weave_fs.Store.Paths.{cas_path_transform}
use weave_fs.Store.Index.{push_version, prune_cut, pruned_entries, pruned_index}
use weave_fs.Store.Blob.{write_stream, create_blob_file, wrapped, delete_version_blob}
use weave_fs.Store.Ops.{
  index_file, write_version, record_version, prune_oldest_versions, delete_blobs,
}
use weave_fs.Server.Types.{FileServer}
use weave_fs.Server.Targets.{select_peers}
use weave_fs.Server.Fanout.{store_version, replicate}
use weave_fs.Api.AddrFile.{addr_file_path, read_addr_file, address_in}
use weave_fs.Api.Http.{Request, query_get, status_ok}
use weave_fs.Api.Json.{written, WriteResultJson, to_write_result_json}
use weave_fs.Api.Handlers.{Response, write_json, send_content, require_key, handle_put, handle_get}
use weave_fs.Cli.Aliases.{Aliases, load_aliases}
use weave_fs.Cli.Client.{not_running, done, failed, Client, replied, Reply, new_client, query_of}
use weave_fs.Cli.Print.{Line, wrote, print_write_result}
use weave_fs.Cli.Format.{human_bytes}
use weave_fs.Cli.Run.Laws.{load_aliases-machine}
use weave_fs.Cli.Commands.PutReport.{PutReport}
use weave_fs.Cli.Run.{calling, length_of, checked_base, asked}
use weave_fs.Cli.Commands.NoNode.{commands_without_node}
use weave_fs.Cli.Send.{check_one_target}
use weave_fs.Cli.Commands.{
  run_put, run_list, run_remove, run_disconnect, run_send, run_get, with_aliases,
}
use weave_fs.Cli.Commands.Loopback.{served}
use weave_fs.Cli.Commands.PutGet.{run_put-run_get, answered_get, served-get}
use weave_fs.Cli.Commands.Put.{run_put_steps}
use weave_fs.Cli.Commands.Get.{get_request}
use weave_fs.Tests.Library.{small_lib, small_store, small_store-IsSound, small_world}
use weave_fs.Tests.Loopback.{
  write_bytes, get_report, small_carrier, small_http, small_http-IsFaithful,
}
use weave_fs.Tests.Peers.{keeper, key, hello}
use weave_fs.Tests.Api.{net, entry_of}
use weave_fs.Tests.Cli.{small_json}

abbrev dir_name : Text
dir_name = codes "data"

-- The machine of a node that runs, with a file to put.
abbrev home : World
home =
    put_file (resolve (addr_file_path dir_name)) (some (codes ":4711" ++ (10 ∷ [])))
      (put_file (resolve (codes "in.txt")) (some (codes "hello")) small_world)

stored : Result VersionEntry × World
unfolding write_version load_index read_file new_uuid read_random write_stream mkdir_all create
    encrypt_writer append io_copy record_version time_now prune_oldest_versions pruned_entries
    push_version save_index write_file list_beq add_one xor_key_stream drop_last resolve dir
    is_prefix next_call remove remove_all rename digit encode create_blob_file delete_version_blob
    wrapped prune_cut pruned_index delete_blobs index_file cas_path_transform format_uuid index_name
    index_path next_seq versioned_key join split
stored = write_version small_lib small_store (codes "n2") key (codes "m") hello home

stored_ended :
    write_version small_lib small_store (codes "n2") key (codes "m") hello home
    ≡ (ok (entry_of stored.0), stored.1)
unfolding stored
stored_ended = result_of stored (ok (entry_of stored.0)) refl

-- A node with no peer.
abbrev alone : FileServer
alone = record keeper { peers = [] }

abbrev report : WriteResultJson
report =
    to_write_result_json key (record {
      entry = some (entry_of stored.0);
      peers_tried = 0;
      peers_stored = 0;
      failures = [];
    })

abbrev put : Request
put = record {
  method = codes "PUT";
  path = codes "/v1/files";
  query = (codes "key", key) ∷ (codes "message", codes "m") ∷ [];
  content_length = pos 5;
  body = hello;
}

put_ended : handle_put alone net put home ≡ (write_json status_ok (written report), stored.1)
unfolding handle_put require_key query_get store_version replicate select_peers list_beq
put_ended = rw stored_ended refl

read_in : calling (read_file (codes "in.txt")) home ≡ (done (codes "hello"), home)
unfolding calling read_file next_call resolve split drop_last list_beq
read_in = refl

abbrev client : Client
client = record { base = codes "http://:4711"; dir = dir_name }

found : new_client dir_name home ≡ (done client, home)
unfolding new_client read_addr_file read_file next_call resolve split drop_last list_beq address_in
    trim_space is_space
found = refl

measured : length_of small_http (codes "in.txt") (codes "hello") home ≡ (done (pos 5), home)
unfolding length_of stat read_file next_call resolve split drop_last list_beq
measured = refl

bytes : Bytes
bytes = elim (write_bytes report []) [ none ↦ [] | some b ↦ b ]

put-asked :
    asked (served small_carrier alone net) small_http client small_http.write_report put home
    ≡ (done (get_report bytes), stored.1)
unfolding asked served list_beq bytes query_of to_write_result_json write_json
put-asked = rw put_ended refl

abbrev put_lines : List Line
put_lines = print_write_result (get_report bytes) (load_aliases small_json dir_name stored.1).0

abbrev put_left : World
put_left = (load_aliases small_json dir_name stored.1).1

ran :
    run_put
      (served small_carrier alone net)
      small_http
      small_json
      dir_name
      (codes "m")
      (key ∷ (codes "in.txt" ∷ []))
      home
    ≡ (done put_lines, put_left)
unfolding with_aliases list_beq
ran =
    run_put_steps (served small_carrier alone net) small_http small_json dir_name (codes "m") key
      (codes "in.txt") (codes "hello") client (pos 5) (get_report bytes) home home home home home
      stored.1 read_in found (unfold checked_base in refl) measured (unfold query_of in put-asked)

left_calm : calm put_left ≡ calm stored.1
left_calm = load_aliases-machine small_json dir_name stored.1

abbrev key_file : Text
key_file = index_file small_lib small_store (codes "n2") key

abbrev index_in : Result VersionIndex → VersionIndex
index_in (ok idx) = idx
index_in (err e) = empty_index key

before : (load_index small_lib key_file key (calm home)).0 ≡ ok (empty_index key)
unfolding load_index read_file next_call index_file index_path join resolve split drop_last list_beq
    cas_path_transform encode digit index_name dir
before = refl

after : Result VersionIndex × World
unfolding stored load_index read_file next_call index_file index_path join resolve split drop_last
    list_beq cas_path_transform encode digit index_name dir
after = load_index small_lib key_file key (calm stored.1)

after_ended : after.0 ≡ ok (index_in after.0)
unfolding after
after_ended = refl

located : (new_client dir_name (calm stored.1)).0 ≡ done client
unfolding stored new_client read_addr_file read_file next_call resolve split drop_last list_beq
    address_in trim_space is_space
located = refl

-- What comes back of the stored file.
abbrev answer : Response
answer = send_content (pos 5) hello

answered : handle_get alone net (get_request key []) (calm stored.1) ≡ (answer, calm stored.1)
unfolding query_of list_beq
answered =
    answered_get small_http small_carrier small_http-IsFaithful alone net small_store-IsSound key
      (codes "m") (pos 5) (codes "hello") home stored.1
      (to_write_result_json key (record {
        entry = some (entry_of stored.0);
        peers_tried = 0;
        peers_stored = 0;
        failures = [];
      }))
      (empty_index key) (index_in after.0) put_ended before (unfold after in after_ended) tt

abbrev got : Reply
got = record { status = status_ok; status_line = codes "200 OK"; body = hello }

replied_got :
    (served small_carrier alone net client.base (get_request key []) (calm stored.1)).0
    ≡ replied got
unfolding send_content
replied_got =
    ap (λ x. x.0)
      (served-get small_http small_carrier small_http-IsFaithful alone net small_store-IsSound
        client.base key (calm stored.1))
    ∙ ap (λ x. small_carrier.carry x.0) answered

run_put-run_get_example :
    (b : Bytes) × (home.files (resolve (codes "in.txt")) ≡ some b)
    × ((w'' : World) × (run_get
            (served small_carrier alone net)
            small_http
            small_json
            dir_name
            []
            (key ∷ (codes "out.txt" ∷ []))
            (calm put_left)
          ≡ (done (wrote (human_bytes (pos (length b))) (codes "out.txt") ∷ []), w''))
        × (w''.files (resolve (codes "out.txt")) ≡ some b))
run_put-run_get_example =
    run_put-run_get small_http small_carrier small_http-IsFaithful alone net small_store-IsSound
      small_json dir_name (codes "m") key (codes "in.txt") (codes "out.txt") put_lines home put_left
      (empty_index key) (index_in after.0) client got before ran
      (ap (λ (x : World). (load_index small_lib key_file key x).0) left_calm
        ∙ unfold after in after_ended)
      tt (ap (λ (x : World). (new_client dir_name x).0) left_calm ∙ located) refl
      (ap (λ (x : World). (served small_carrier alone net client.base (get_request key []) x).0)
          left_calm
        ∙ replied_got)
      refl

commands_without_node_example :
    (run_put
        (served small_carrier alone net)
        small_http
        small_json
        (codes "none")
        (codes "m")
        (key ∷ (codes "in.txt" ∷ []))
        home
      ≡ (failed (not_running (codes "none")), home))
    × (run_get
          (served small_carrier alone net)
          small_http
          small_json
          (codes "none")
          []
          (key ∷ (codes "out.txt" ∷ []))
          home
        ≡ (failed (not_running (codes "none")), home))
    × (run_list
          (served small_carrier alone net)
          small_http
          small_json
          (codes "none")
          (key ∷ [])
          home
        ≡ (failed (not_running (codes "none")), home))
    × (run_remove
          (served small_carrier alone net)
          small_http
          small_json
          (codes "none")
          (key ∷ [])
          home
        ≡ (failed (not_running (codes "none")), home))
    × (run_disconnect
          (served small_carrier alone net)
          small_http
          small_json
          (codes "none")
          (key ∷ [])
          home
        ≡ (failed (not_running (codes "none")), home))
    × (run_send
          (served small_carrier alone net)
          small_http
          small_json
          (codes "none")
          (codes "m")
          []
          []
          (codes "p" ∷ [])
          (pos 0)
          false
          (key ∷ (codes "in.txt" ∷ []))
          home
        ≡ (failed (not_running (codes "none")), home))
unfolding resolve split drop_last list_beq check_one_target
commands_without_node_example =
    commands_without_node (served small_carrier alone net) small_http small_json (codes "none") key
      (codes "in.txt") (codes "out.txt") (codes "m") [] [] (codes "p" ∷ []) (pos 0) false
      (codes "hello") home refl refl refl refl
