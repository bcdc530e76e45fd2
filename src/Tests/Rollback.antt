-- ===== src/Tests/Rollback.antt =====
-- A rollback to the one version of a small store.
use weave_fs.Base.{
  ◌∷◌, [], ◌++◌, pos, some, ℤ, Bytes, codes, list_beq, add_one, ◌≡◌, ◌∙◌, inl, refl,
}
use weave_fs.Exec.{Result, ok, World, calm}
use weave_fs.Exec.Laws.{result_of}
use weave_fs.Strings.{split, join}
use weave_fs.Hex.{digit, encode}
use weave_fs.Disk.{
  put_file, Reader, reader_of, read_file, read_random, read_full, mkdir_all, create, append,
  io_copy, time_now, write_file, dir, is_prefix, next_call, remove, remove_all, rename,
}
use weave_fs.Disk.Resolve.{resolve, drop_last}
use weave_fs.Crypto.Aes.{magic, format_version, encrypt_writer, decrypt_reader, xor_key_stream}
use weave_fs.Store.Version.{
  VersionEntry, load_index, new_uuid, save_index, format_uuid, index_name, index_path, next_seq,
  versioned_key,
}
use weave_fs.Store.Paths.{cas_path_transform, first_path_name, full_path, resolved_path}
use weave_fs.Store.Index.{
  resolve_version, find_version, push_version, prune_cut, pruned_entries, pruned_index,
}
use weave_fs.Store.Blob.{
  read_stream, unwrapped, write_stream, create_blob_file, wrapped, delete_version_blob,
}
use weave_fs.Store.Ops.{
  index_file, write_version, read_version, record_version, prune_oldest_versions, delete_blobs,
}
use weave_fs.Store.Write.{blob_at}
use weave_fs.Store.Commit.{AreApart}
use weave_fs.Store.Rollback.{rollback_to-write_version, rollback_to-read_version}
use weave_fs.Tests.Library.{small_aes, small_lib, small_store, small_store-IsSound}
use weave_fs.Tests.Store.{node, key, entry_of, differ, old_world, old_index}

abbrev iv : Bytes
iv = 0 ∷ 1 ∷ 2 ∷ 3 ∷ 4 ∷ 5 ∷ 6 ∷ 7 ∷ 8 ∷ 9 ∷ 10 ∷ 11 ∷ 12 ∷ 13 ∷ 14 ∷ 15 ∷ []

sealed : Bytes
unfolding xor_key_stream
sealed = magic ++ (format_version ∷ (iv ++ xor_key_stream small_aes.block iv 0 (codes "abc")))

-- The old version is there with its blob.
abbrev stored_world : World
stored_world =
    put_file (blob_at small_lib small_store small_store-IsSound node key (codes "old"))
      (some sealed) old_world

looked : Result (ℤ × Reader) × World
unfolding sealed read_version load_index read_file next_call resolve drop_last read_stream unwrapped
    decrypt_reader read_full resolve_version find_version index_file index_path index_name
    versioned_key cas_path_transform resolved_path first_path_name full_path split join encode digit
    list_beq xor_key_stream
looked = read_version small_lib small_store node key (codes "old") stored_world

looked_ended : looked ≡ (ok (pos 3, reader_of (codes "abc")), stored_world)
unfolding looked
looked_ended = refl

there :
    (load_index small_lib (index_file small_lib small_store node key) key stored_world).0
    ≡ ok old_index
unfolding load_index index_file index_path index_name read_file next_call resolve drop_last split
    join list_beq resolved_path cas_path_transform encode versioned_key
there = refl

rolled : Result VersionEntry × World
unfolding write_version load_index read_file new_uuid read_random write_stream mkdir_all create
    encrypt_writer append io_copy record_version time_now prune_oldest_versions pruned_entries
    push_version save_index write_file list_beq add_one xor_key_stream drop_last resolve dir
    is_prefix next_call remove remove_all rename digit encode create_blob_file delete_version_blob
    wrapped prune_cut pruned_index delete_blobs index_file cas_path_transform format_uuid index_name
    index_path next_seq versioned_key join split
rolled =
    write_version small_lib small_store node key (codes "rollback to version old")
      (reader_of (codes "abc")) stored_world

rolled_ended : rolled.0 ≡ ok (entry_of rolled.0)
unfolding rolled resolved_path
rolled_ended = refl

apart_lem :
    AreApart small_lib small_store small_store-IsSound node key
      (entry_of rolled.0).version_id
      old_index.versions
unfolding rolled list_beq versioned_key resolved_path
apart_lem = (differ _ _ refl, tt)

rollback_to-read_version_example :
    ((entry_of rolled.0).size_bytes ≡ pos 3)
    × (read_version small_lib small_store node key [] (calm rolled.1)
        ≡ (ok ((entry_of rolled.0).size_bytes, reader_of (codes "abc")), calm rolled.1))
rollback_to-read_version_example =
    rollback_to-read_version small_lib small_store small_store-IsSound node key (codes "old")
      stored_world stored_world (pos 3) (reader_of (codes "abc")) old_index (entry_of rolled.0)
      rolled.1 [] (unfold looked in looked_ended) there
      (rollback_to-write_version small_lib small_store node key (codes "old") stored_world
          stored_world (pos 3) (reader_of (codes "abc")) (unfold looked in looked_ended)
        ∙ (unfold rolled in result_of rolled (ok (entry_of rolled.0)) rolled_ended))
      apart_lem (inl refl)
