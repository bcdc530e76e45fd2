-- ===== src/Tests/Peers.antt =====
-- Two servers: what the first writes and sends, the second keeps, and the first gets back.
use weave_fs.Base.{
  pos, true, none, some, [], ◌∷◌, Bytes, Text, codes, length, ◌≡◌, refl, inl, list_beq, ◌==◌,
  nat_eq, list_eq, if◌then◌else◌,
}
use weave_fs.Exec.{Result, ok, err, World, calm}
use weave_fs.Exec.Laws.{result_of}
use weave_fs.Base.{add_one}
use weave_fs.Strings.{split, join}
use weave_fs.Hex.{digit, encode}
use weave_fs.Disk.{
  Reader, reader_of, read_file, read_random, mkdir_all, create, append, io_copy, time_now,
  write_file, dir, is_prefix, next_call, remove, remove_all, rename, stat, read_full, limit_reader,
}
use weave_fs.Disk.Resolve.{resolve, drop_last}
use weave_fs.Crypto.Aes.{encrypt_writer, xor_key_stream}
use weave_fs.Store.Version.{
  VersionEntry, empty_index, load_index, new_uuid, save_index, format_uuid, index_name, index_path,
  next_seq, versioned_key,
}
use weave_fs.Store.Paths.{cas_path_transform, resolved_path}
use weave_fs.Store.Index.{
  resolve_version, push_version, put_version, upsert_version, prune_cut, pruned_entries,
  pruned_index,
}
use weave_fs.Store.Blob.{
  write_stream, write_stream_raw, create_blob_file, wrapped, delete_version_blob,
}
use weave_fs.Store.Ops.{
  index_file, write_version, read_version, write_version_raw, read_version_raw, version_info,
  record_version, prune_oldest_versions, delete_blobs,
}
use weave_fs.Proto.Codec.{frame, read_message, put_uint32, get_uint32}
use weave_fs.Server.Config.{default_request_timeout}
use weave_fs.Server.Types.{
  Dialled, FileServer, Network, allow_all, meta_from_entry, entry_from_meta,
}
use weave_fs.Server.Handlers.{Stream, handle_store, handle_get}
use weave_fs.Server.Fanout.{store_protocol, get_protocol, send_blob, fetch_blob}
use weave_fs.Server.Peers.{carrying, sent_bytes, dial_store, dial_get}
use weave_fs.Server.Peers.Custody.{IsAlike, send_blob-read_version_raw}
use weave_fs.Server.Peers.Recovery.{recovered}
use weave_fs.Tests.Library.{small_lib, small_store, small_store-IsSound, small_world}
use weave_fs.Tests.Codecs.{
  codecs, store_request-IsRoundTrip, store_response-IsRoundTrip, get_request-IsRoundTrip,
  get_response-IsRoundTrip,
}

abbrev pub server_at : Text → Network → FileServer
server_at id network = record {
  node_id = id;
  store = small_store;
  replication_factor = pos 0;
  request_timeout = default_request_timeout;
  authorizer = allow_all;
  peers = codes "n2" ∷ [];
  network = network;
  lib = small_lib;
  codecs = codecs;
}

-- The keeper, and the owner while it knows no peer.
abbrev pub keeper : FileServer
keeper = server_at (codes "n2") (λ to protocol. none)

abbrev lonely : FileServer
lonely = server_at (codes "n1") (λ to protocol. none)

abbrev pub key : Text
key = codes "k"

abbrev pub hello : Reader
hello = reader_of (codes "hello")

abbrev open_dial : Dialled
open_dial = record {
  has_deadline = true;
  room = none;
  closes_write = true;
  answer = λ b. reader_of [];
}

abbrev open_stream : Stream
open_stream = record {
  remote_peer = codes "n1";
  incoming = reader_of [];
  has_deadline = true;
  room = none;
  closes_write = true;
}

abbrev no_entry : VersionEntry
no_entry = record { version_id = []; seq = pos 0; created_at = 0; size_bytes = pos 0; message = [] }

abbrev entry_of : Result VersionEntry → VersionEntry
entry_of (ok e) = e
entry_of (err x) = no_entry

written : Result VersionEntry × World
unfolding write_version load_index read_file new_uuid read_random write_stream mkdir_all create
    encrypt_writer append io_copy record_version time_now prune_oldest_versions pruned_entries
    push_version save_index write_file list_beq add_one xor_key_stream drop_last resolve dir
    is_prefix next_call remove remove_all rename digit encode create_blob_file delete_version_blob
    wrapped prune_cut pruned_index delete_blobs index_file cas_path_transform format_uuid index_name
    index_path next_seq versioned_key join split
written = write_version small_lib small_store (codes "n1") key (codes "one") hello small_world

abbrev entry : VersionEntry
entry = entry_of written.0

written_ended : written ≡ (ok (entry_of written.0), written.1)
unfolding written
written_ended = result_of written (ok (entry_of written.0)) refl

-- The keeper's machine behind the transfer.
kept : World
unfolding allow_all
kept =
    (handle_store keeper (carrying open_stream (sent_bytes lonely key entry written.1))
      small_world).1

abbrev owner_network : Network
owner_network to protocol =
    if protocol == store_protocol
    then some (dial_store open_dial keeper open_stream small_world)
    else if protocol == get_protocol
    then some (dial_get open_dial keeper open_stream (calm kept))
    else none

abbrev owner : FileServer
owner = server_at (codes "n1") owner_network

owner-IsAlike : IsAlike owner keeper
owner-IsAlike = record {
  codecs = refl;
  store_request = store_request-IsRoundTrip;
  store_response = store_response-IsRoundTrip;
  get_request = get_request-IsRoundTrip;
  get_response = get_response-IsRoundTrip;
}

sent : Result (Unit {0}) × World
unfolding resolved_path send_blob handle_store written frame put_uint32 read_message get_uint32
    read_full limit_reader read_version_raw stat write_version_raw write_stream_raw put_version
    upsert_version meta_from_entry entry_from_meta resolve_version load_index read_file write_stream
    mkdir_all create append io_copy time_now prune_oldest_versions pruned_entries push_version
    save_index write_file list_beq add_one drop_last resolve dir is_prefix next_call remove
    remove_all rename digit encode create_blob_file delete_version_blob wrapped prune_cut
    pruned_index delete_blobs index_file cas_path_transform index_name index_path versioned_key join
    split allow_all
sent = send_blob owner key entry (codes "n2") written.1

sent_ended : sent.0 ≡ ok tt
unfolding sent
sent_ended = refl

-- The owner's disk is empty again, and the fetch brings the version back.
fetched : Result (Unit {0}) × World
unfolding fetch_blob handle_get handle_store kept sent_bytes written frame put_uint32 read_message
    get_uint32 read_full limit_reader read_version_raw stat write_version_raw write_stream_raw
    put_version upsert_version meta_from_entry entry_from_meta resolve_version version_info
    load_index read_file write_stream mkdir_all create append io_copy time_now prune_oldest_versions
    pruned_entries push_version save_index write_file list_beq add_one drop_last resolve dir
    is_prefix next_call remove remove_all rename digit encode create_blob_file delete_version_blob
    wrapped prune_cut pruned_index delete_blobs index_file cas_path_transform index_name index_path
    versioned_key join split allow_all resolved_path
fetched = fetch_blob owner key [] (codes "n2") small_world

fetched_ended : fetched.0 ≡ ok tt
unfolding fetched
fetched_ended = refl

pub nothing_loaded :
    (node_id : Text)
    → (load_index small_lib (index_file small_lib small_store node_id key) key small_world).0
      ≡ ok (empty_index key)
unfolding load_index read_file next_call
nothing_loaded node_id = refl

recovered_example :
    (entry.size_bytes ≡ pos 5)
    × (read_version small_lib small_store (codes "n1") key [] (calm fetched.1)
        ≡ (ok (entry.size_bytes, hello), calm fetched.1))
unfolding list_beq kept sent_bytes
recovered_example =
    recovered owner keeper owner-IsAlike small_store-IsSound small_store-IsSound key (codes "one")
      (codes "n2") hello entry open_dial open_dial open_stream open_stream small_world written.1
      sent.1 small_world small_world fetched.1 (empty_index key) (empty_index key) (empty_index key)
      [] (nothing_loaded (codes "n1")) (unfold written in written_ended) tt refl
      (unfold sent in result_of sent (ok tt) sent_ended) (nothing_loaded (codes "n1")) tt refl
      (unfold fetched in result_of fetched (ok tt) fetched_ended) (nothing_loaded (codes "n1")) tt
      (inl refl)

send_blob-read_version_raw_example :
    (blob : Bytes) × ((read_version_raw small_lib small_store
        (codes "n1")
        key
        entry.version_id
        written.1).0
      ≡ ok (pos (length blob), reader_of blob))
    × (read_version_raw small_lib small_store (codes "n1") key [] (
          calm
            (handle_store keeper
              (carrying open_stream (sent_bytes owner key entry written.1))
              small_world).1)
        ≡ (
          ok (pos (length blob), reader_of blob),
          calm
              (handle_store keeper
                (carrying open_stream (sent_bytes owner key entry written.1))
                small_world).1,
        ))
unfolding list_beq
send_blob-read_version_raw_example =
    send_blob-read_version_raw owner keeper owner-IsAlike small_store-IsSound key entry (codes "n2")
      open_dial open_stream written.1 sent.1 small_world (empty_index key) [] refl
      (unfold sent in result_of sent (ok tt) sent_ended) (nothing_loaded (codes "n1")) tt (inl refl)
