-- ===== src/Tests/Api.antt =====
-- Requests to the API of a small node.
use weave_fs.Base.{
  pos, none, some, [], ◌∷◌, codes, ◌≡◌, refl, inl, list_beq, nat_eq, list_eq, add_one,
}
use weave_fs.Strings.{split, join}
use weave_fs.Strings.Atoi.{atoi}
use weave_fs.Hex.{digit, encode}
use weave_fs.Exec.{Result, ok, err, World, calm}
use weave_fs.Exec.Laws.{result_of}
use weave_fs.Disk.{
  reader_of, read_file, read_random, mkdir_all, create, append, io_copy, time_now, write_file, dir,
  is_prefix, next_call, remove, remove_all, rename,
}
use weave_fs.Disk.Resolve.{resolve, drop_last}
use weave_fs.Crypto.Aes.{encrypt_writer, xor_key_stream}
use weave_fs.Store.Version.{
  empty_index, load_index, new_uuid, save_index, format_uuid, index_name, index_path, next_seq,
  versioned_key,
}
use weave_fs.Store.Paths.{cas_path_transform}
use weave_fs.Store.Index.{push_version, prune_cut, pruned_entries, pruned_index}
use weave_fs.Store.Blob.{write_stream, create_blob_file, wrapped, delete_version_blob}
use weave_fs.Store.Ops.{
  index_file, write_version, record_version, prune_oldest_versions, delete_blobs,
}
use weave_fs.Server.Targets.{resolve_targets}
use weave_fs.Server.Fanout.{store_version, replicate}
use weave_fs.Api.Http.{Request, query_get, query_all, status_ok, status_bad_request}
use weave_fs.Api.Json.{
  written, shared, WriteResultJson, ShareResultJson, to_write_result_json, to_share_result_json,
}
use weave_fs.Api.Handlers.{
  Libp2p, write_json, send_content, require_key, parse_targets, handle_put, handle_get,
  handle_share,
}
use weave_fs.Api.Handlers.Laws.{handle_put-handle_get}
use weave_fs.Api.Handlers.Refused.{further, not_here, handle_share-refused}
use weave_fs.Server.Targets.{is_listed}
use weave_fs.Tests.Library.{small_lib, small_store, small_store-IsSound, small_world}
use weave_fs.Store.Version.{VersionEntry}
use weave_fs.Server.Types.{WriteResult}
use weave_fs.Tests.Server.{shared_run, share_ran, result_in, small_server, held_world}
use weave_fs.Tests.Peers.{keeper, key, hello, nothing_loaded}

abbrev pub net : Libp2p
net = record { decode_peer = λ t. some t; close_peer = λ p. none }

abbrev put : Request
put = record {
  method = codes "PUT";
  path = codes "/v1/files";
  query = (codes "key", key) ∷ [];
  content_length = pos 5;
  body = hello;
}

abbrev get : Request
get = record {
  method = codes "GET";
  path = codes "/v1/files";
  query = (codes "key", key) ∷ [];
  content_length = pos 0;
  body = reader_of [];
}

abbrev pub entry_of : Result VersionEntry → VersionEntry
entry_of (ok e) = e
entry_of (err x) = record {
  version_id = [];
  seq = pos 0;
  created_at = 0;
  size_bytes = pos 0;
  message = [];
}

stored : Result VersionEntry × World
unfolding write_version load_index read_file new_uuid read_random write_stream mkdir_all create
    encrypt_writer append io_copy record_version time_now prune_oldest_versions pruned_entries
    push_version save_index write_file list_beq add_one xor_key_stream drop_last resolve dir
    is_prefix next_call remove remove_all rename digit encode create_blob_file delete_version_blob
    wrapped prune_cut pruned_index delete_blobs index_file cas_path_transform format_uuid index_name
    index_path next_seq versioned_key join split
stored = write_version small_lib small_store (codes "n2") key [] hello small_world

stored_ended :
    write_version small_lib small_store (codes "n2") key [] hello small_world
    ≡ (ok (entry_of stored.0), stored.1)
unfolding stored
stored_ended = result_of stored (ok (entry_of stored.0)) refl

abbrev replicated : WriteResult × World
replicated = replicate keeper key (entry_of stored.0) stored.1

abbrev report : WriteResultJson
report = to_write_result_json key (record replicated.0 { entry = some (entry_of stored.0) })

put_ended :
    handle_put keeper net put small_world ≡ (write_json status_ok (written report), replicated.1)
unfolding handle_put require_key query_get store_version list_beq
put_ended = rw stored_ended

handle_put-handle_get_example :
    (handle_get keeper net get (calm replicated.1)
      ≡ (send_content (pos 5) hello, calm replicated.1))
    × (report.size_bytes ≡ pos 5)
unfolding require_key query_get list_beq
handle_put-handle_get_example =
    handle_put-handle_get keeper net small_store-IsSound put get small_world replicated.1
      (empty_index key) report key refl (nothing_loaded (codes "n2")) put_ended tt refl (inl refl)

-- A share with a file in its body, to a connected peer and one that is not.
abbrev bad_share : Request
bad_share = record {
  method = codes "POST";
  path = codes "/v1/share";
  query = (codes "key", codes "k") ∷ (codes "peer", codes "p1") ∷ (codes "peer", codes "zz") ∷ [];
  content_length = pos 5;
  body = hello;
}

handle_share-refused_example :
    ((handle_share small_server net bad_share small_world).1 ≡ small_world)
    × ((handle_share small_server net bad_share small_world).0.status ≡ status_bad_request)
unfolding query_all list_beq is_listed
handle_share-refused_example =
    handle_share-refused small_server net bad_share small_world
      (further (not_here {p = codes "zz"} refl refl))

-- A share of the file that the node holds, to two peers.
abbrev a_share : Request
a_share = record bad_share {
  query = (codes "key", codes "k") ∷ (codes "n", codes "2") ∷ (codes "message", codes "hi") ∷ [];
  content_length = pos 0;
  body = reader_of [];
}

abbrev share_report : ShareResultJson
share_report = to_share_result_json (codes "k") (result_in shared_run.0)

share_answered :
    handle_share small_server net a_share held_world
    ≡ (write_json status_ok (shared share_report), shared_run.1)
unfolding handle_share require_key query_get query_all parse_targets atoi resolve_targets list_beq
share_answered = rw share_ran
