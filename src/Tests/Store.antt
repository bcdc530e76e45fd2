-- ===== src/Tests/Store.antt =====
-- Writes, reads and deletes on a small store.
use weave_fs.Base.{
  pos, false, none, some, [], ◌∷◌, Bytes, Text, codes, ◌==◌, nat_eq, list_eq, eq_iff, ◌≡◌, ◌≢◌, inl,
  inr, refl, arith, ap,
}
use weave_fs.Exec.{no_versions, io_fault, version_not_found, Result, ok, err, World, calm}
use weave_fs.Disk.{put_file, Reader, reader_of, read_file}
use weave_fs.Disk.Resolve.{resolve}
use weave_fs.Store.Version.{VersionEntry, VersionIndex, load_index}
use weave_fs.Store.Ops.{
  index_file, write_version, read_version, delete_version, delete, has, list_versions,
}
use weave_fs.Store.Forget.{AreGone, delete_forgets}
use weave_fs.Store.Write.{blob_at, index_at}
use weave_fs.Store.Commit.{AreApart, load_index_calm}
use weave_fs.Store.ReadBack.{write_version-read_version}
use weave_fs.Store.Raw.{write_version_raw-read_version_raw}
use weave_fs.Store.Ops.{write_version_raw, read_version_raw}
use weave_fs.Store.Index.{put_version, upsert_version}
use weave_fs.Store.Blob.{write_stream_raw}
use weave_fs.Store.Delete.{
  delete_version_blob_collides, delete_version_failed, delete_version-read_version,
}
use weave_fs.Exec.Laws.{result_of}
use weave_fs.Base.{list_beq, add_one}
use weave_fs.Strings.{split, join}
use weave_fs.Hex.{digit, encode}
use weave_fs.Disk.{
  read_random, mkdir_all, create, append, io_copy, time_now, write_file, dir, is_prefix, next_call,
  remove, remove_all, rename,
}
use weave_fs.Disk.Resolve.{drop_last}
use weave_fs.Disk.Files.{update_self}
use weave_fs.Crypto.Aes.{encrypt_writer, xor_key_stream}
use weave_fs.Store.Version.{
  new_uuid, save_index, format_uuid, index_name, index_path, next_seq, versioned_key,
}
use weave_fs.Store.Paths.{cas_path_transform}
use weave_fs.Store.Index.{
  without, contains_version, last_id, remove_version, push_version, prune_cut, pruned_entries,
  pruned_index,
}
use weave_fs.Store.Blob.{write_stream, create_blob_file, wrapped, delete_version_blob}
use weave_fs.Store.Ops.{record_version, prune_oldest_versions, delete_blobs}
use weave_fs.Tests.Library.{small_lib, small_store, small_store-IsSound, small_world}

abbrev pub node : Text
node = codes "n1"

abbrev pub key : Text
key = codes "a.txt"

abbrev hello : Reader
hello = reader_of (codes "hello")

abbrev pub no_entry : VersionEntry
no_entry = record { version_id = []; seq = pos 0; created_at = 0; size_bytes = pos 0; message = [] }

abbrev pub entry_of : Result VersionEntry → VersionEntry
entry_of (ok e) = e
entry_of (err x) = no_entry

-- One version of the key is there, by its index.
abbrev pub old_index : VersionIndex
old_index = record {
  key = key;
  latest = codes "old";
  versions =
      record {
        version_id = codes "old";
        seq = pos 1;
        created_at = 900;
        size_bytes = pos 3;
        message = [];
      }
      ∷ [];
}

abbrev pub index_bytes : VersionIndex → Bytes
index_bytes idx = elim (small_lib.json.marshal idx) [ none ↦ [] | some b ↦ b ]

abbrev pub old_world : World
old_world =
    put_file (index_at small_lib small_store small_store-IsSound node key)
      (some (index_bytes old_index)) small_world

second : Result VersionEntry × World
unfolding write_version load_index read_file new_uuid read_random write_stream mkdir_all create
    encrypt_writer append io_copy record_version time_now prune_oldest_versions pruned_entries
    push_version save_index write_file list_beq add_one xor_key_stream drop_last resolve dir
    is_prefix next_call remove remove_all rename digit encode create_blob_file delete_version_blob
    wrapped prune_cut pruned_index delete_blobs index_file cas_path_transform format_uuid index_name
    index_path next_seq versioned_key join split
second = write_version small_lib small_store node key (codes "two") hello old_world

second_ended : second.0 ≡ ok (entry_of second.0)
unfolding second
second_ended = refl

old_loaded :
    load_index small_lib (index_file small_lib small_store node key) key old_world
    ≡ (ok old_index, old_world)
old_loaded =
    load_index_calm small_lib (index_file small_lib small_store node key) key old_index
      (index_bytes old_index) old_world small_store-IsSound.json refl
      (update_self (λ q. none) (index_at small_lib small_store small_store-IsSound node key)
        (some (index_bytes old_index)))
      refl

loaded_ended :
    (load_index small_lib (index_file small_lib small_store node key) key old_world).0
    ≡ ok old_index
loaded_ended = ap (λ x. x.0) old_loaded

pub differ : (s t : Text) → (s == t) ≡ false → s ≢ t
differ s t h e = ground (arith, eq_iff s t)

apart_lem :
    AreApart small_lib small_store small_store-IsSound node key
      (entry_of second.0).version_id
      old_index.versions
unfolding second list_beq
apart_lem = (differ _ _ refl, tt)

write_version-read_version_example :
    ((entry_of second.0).size_bytes ≡ pos 5)
    × (read_version small_lib small_store node key [] (calm second.1)
        ≡ (ok ((entry_of second.0).size_bytes, hello), calm second.1))
write_version-read_version_example =
    write_version-read_version small_lib small_store small_store-IsSound node key (codes "two")
      hello old_world old_index (entry_of second.0) second.1 [] loaded_ended
      (unfold second in result_of second (ok (entry_of second.0)) second_ended) apart_lem (inl refl)

deleted : Result (Unit {0}) × World
unfolding delete_version without contains_version last_id remove_version load_index read_file
    new_uuid read_random write_stream mkdir_all create encrypt_writer append io_copy record_version
    time_now prune_oldest_versions pruned_entries push_version save_index write_file list_beq
    add_one xor_key_stream drop_last resolve dir is_prefix next_call remove remove_all rename digit
    encode create_blob_file delete_version_blob wrapped prune_cut pruned_index delete_blobs
    index_file cas_path_transform format_uuid index_name index_path next_seq versioned_key join
    split
deleted = delete_version small_lib small_store node key (codes "old") old_world

deleted_ended : deleted.0 ≡ ok tt
unfolding deleted
deleted_ended = refl

delete_version-read_version_example :
    read_version small_lib small_store node key (codes "old") (calm deleted.1)
    ≡ (err version_not_found, calm deleted.1)
delete_version-read_version_example =
    delete_version-read_version small_lib small_store small_store-IsSound node key (codes "old")
      old_world deleted.1 (λ e. cc e) (unfold deleted in result_of deleted (ok tt) deleted_ended)

-- The save of the index runs into a full disk.
abbrev full_world : World
full_world = record old_world { faults = none ∷ none ∷ none ∷ none ∷ some 1 ∷ [] }

failed : Result (Unit {0}) × World
unfolding delete_version without contains_version last_id remove_version load_index read_file
    new_uuid read_random write_stream mkdir_all create encrypt_writer append io_copy record_version
    time_now prune_oldest_versions pruned_entries push_version save_index write_file list_beq
    add_one xor_key_stream drop_last resolve dir is_prefix next_call remove remove_all rename digit
    encode create_blob_file delete_version_blob wrapped prune_cut pruned_index delete_blobs
    index_file cas_path_transform format_uuid index_name index_path next_seq versioned_key join
    split
failed = delete_version small_lib small_store node key (codes "old") full_world

failed_ended : failed.0 ≡ err io_fault
unfolding failed
failed_ended = refl

delete_version_failed_example :
    failed.1.files (index_at small_lib small_store small_store-IsSound node key)
    ≡ full_world.files (index_at small_lib small_store small_store-IsSound node key)
delete_version_failed_example =
    delete_version_failed small_lib small_store small_store-IsSound node key (codes "old")
      full_world failed.1 io_fault (unfold failed in result_of failed (err io_fault) failed_ended)

-- The blob of another key lies below the same top folder.
abbrev blob_world : World
blob_world =
    put_file (blob_at small_lib small_store small_store-IsSound node (codes "b") (codes "v1"))
      (some (codes "kept")) small_world

delete_version_blob_collides_example :
    (delete_version_blob small_store node (codes "b") (codes "v0") blob_world).1.files
      (blob_at small_lib small_store small_store-IsSound node (codes "b") (codes "v1"))
    ≡ none
unfolding encode digit versioned_key
delete_version_blob_collides_example =
    delete_version_blob_collides small_lib small_store small_store-IsSound node (codes "b")
      (codes "v0") (codes "b") (codes "v1") blob_world refl refl

abbrev sent_entry : VersionEntry
sent_entry = record {
  version_id = codes "v9";
  seq = pos 7;
  created_at = 950;
  size_bytes = pos 2;
  message = [];
}

abbrev sent_blob : Reader
sent_blob = reader_of (codes "sealed")

stored : Result (Unit {0}) × World
unfolding write_version_raw write_stream_raw put_version upsert_version load_index read_file
    new_uuid read_random write_stream mkdir_all create encrypt_writer append io_copy record_version
    time_now prune_oldest_versions pruned_entries push_version save_index write_file list_beq
    add_one xor_key_stream drop_last resolve dir is_prefix next_call remove remove_all rename digit
    encode create_blob_file delete_version_blob wrapped prune_cut pruned_index delete_blobs
    index_file cas_path_transform format_uuid index_name index_path next_seq versioned_key join
    split
stored = write_version_raw small_lib small_store node key sent_entry sent_blob old_world

stored_ended : stored.0 ≡ ok tt
unfolding stored
stored_ended = refl

sent_apart :
    AreApart small_lib small_store small_store-IsSound node key (codes "v9") old_index.versions
unfolding list_beq encode digit versioned_key
sent_apart = (differ _ _ refl, tt)

write_version_raw-read_version_raw_example :
    read_version_raw small_lib small_store node key (codes "v9") (calm stored.1)
    ≡ (ok (pos 6, sent_blob), calm stored.1)
write_version_raw-read_version_raw_example =
    write_version_raw-read_version_raw small_lib small_store small_store-IsSound node key sent_entry
      sent_blob old_world old_index stored.1 (codes "v9") loaded_ended
      (unfold stored in result_of stored (ok tt) stored_ended) sent_apart (inr refl)

delete_forgets_example :
    ((delete small_lib small_store node key old_world).0 ≡ ok tt)
    × (has small_lib small_store node key (delete small_lib small_store node key old_world).1
        ≡ (false, (delete small_lib small_store node key old_world).1))
    × (list_versions small_lib small_store node key
          (delete small_lib small_store node key old_world).1
        ≡ (ok [], (delete small_lib small_store node key old_world).1))
    × (read_version small_lib small_store node key []
          (delete small_lib small_store node key old_world).1
        ≡ (err no_versions, (delete small_lib small_store node key old_world).1))
    × AreGone small_lib small_store small_store-IsSound node key old_index.versions
        (delete small_lib small_store node key old_world).1
delete_forgets_example =
    delete_forgets small_lib small_store small_store-IsSound node key old_index old_world refl
      old_loaded
