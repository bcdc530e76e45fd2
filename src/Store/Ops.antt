-- ===== src/Store/Ops.antt =====
-- internal/store: the operations of a `Store`. The lock of a key is held for the whole of each, so
-- an operation is one step from a machine to the next; `rollback_to` is two such steps.
use weave_fs.Base.{
  ℕ, ℤ, pos, Bool, false, not, List, [], ◌∷◌, ◌++◌, Text, codes, ◌==◌, nat_eq, list_eq,
}
use weave_fs.Exec.{
  version_id_required, Result, ok, err, World, Exec, ignore, pure, lift, guard, ◌>>=◌, ◌>>◌,
}
use weave_fs.Disk.{Reader, reader_of, read_file, stat, remove, remove_all, time_now}
use weave_fs.Store.Version.{
  VersionEntry, VersionIndex, Library, versioned_key, index_path, load_index, save_index, new_uuid,
  next_seq,
}
use weave_fs.Store.Paths.{Store, resolved_path}
use weave_fs.Store.Index.{
  resolve_version, push_version, put_version, pruned_entries, pruned_index, remove_version,
}
use weave_fs.Store.Blob.{write_stream, write_stream_raw, read_stream, delete_version_blob}

module _ (lib : Library) (s : Store) (node_id key : Text) where
  unfoldable pub index_file : Text
  index_file = index_path lib s.root node_id key

  -- The loop that drops blobs; a failure to drop one is ignored.
  unfoldable pub delete_blobs : List VersionEntry → Exec (Unit {0})
  delete_blobs [] = pure tt
  delete_blobs (v ∷ vs) = do
    ignore (delete_version_blob s node_id key v.version_id)
    delete_blobs vs

  unfoldable pub prune_oldest_versions : VersionIndex → Exec VersionIndex
  unfolding delete_blobs
  prune_oldest_versions idx = do
    delete_blobs (pruned_entries s.max_versions idx)
    pure (pruned_index s.max_versions idx)

  -- `WriteVersion` behind the blob write: the index gets the entry, is pruned and saved.
  unfoldable pub record_version : VersionIndex → Text → Text → ℕ → Exec VersionEntry
  unfolding index_file
  record_version idx message version_id n = do
    now ← time_now
    let entry : VersionEntry = record {
      version_id = version_id;
      seq = next_seq idx;
      created_at = now;
      size_bytes = pos n;
      message = message;
    }
    pruned ← prune_oldest_versions (push_version idx entry)
    save_index lib index_file pruned
    pure entry

  unfoldable pub write_version : Text → Reader → Exec VersionEntry
  unfolding index_file
  write_version message r = do
    idx ← load_index lib index_file key
    version_id ← new_uuid
    n ← write_stream s node_id (versioned_key key version_id) r
    record_version idx message version_id n

  -- `Write`.
  unfoldable pub write : Reader → Exec ℤ
  unfolding write_version
  write r = do entry ← write_version [] r; pure entry.size_bytes

  unfoldable pub write_version_raw : VersionEntry → Reader → Exec (Unit {0})
  unfolding index_file
  write_version_raw meta r = do
    guard (not (meta.version_id == [])) version_id_required
    idx ← load_index lib index_file key
    write_stream_raw s node_id (versioned_key key meta.version_id) r
    pruned ← prune_oldest_versions (put_version idx meta)
    save_index lib index_file pruned

  unfoldable pub version_info : Text → Exec VersionEntry
  unfolding index_file
  version_info version_id = do
    idx ← load_index lib index_file key
    lift (resolve_version idx version_id)

  unfoldable pub read_version : Text → Exec (ℤ × Reader)
  unfolding index_file
  read_version version_id = do
    idx ← load_index lib index_file key
    entry ← lift (resolve_version idx version_id)
    rc ← read_stream s node_id (versioned_key key entry.version_id)
    pure (entry.size_bytes, rc)

  -- `Read`.
  unfoldable pub read : Exec (ℤ × Reader)
  unfolding read_version
  read = read_version []

  unfoldable pub read_version_raw : Text → Exec (ℤ × Reader)
  unfolding index_file
  read_version_raw version_id = do
    idx ← load_index lib index_file key
    entry ← lift (resolve_version idx version_id)
    let path = resolved_path s node_id (versioned_key key entry.version_id)
    size ← stat path
    b ← read_file path
    pure (pos size, reader_of b)

  unfoldable pub is_there : Result VersionIndex → Bool
  is_there (ok idx) = not (idx.latest == [])
  is_there (err e) = false

  unfoldable pub has : World → Bool × World
  unfolding is_there index_file
  has w = let (r, w') = load_index lib index_file key w in (is_there r, w')

  unfoldable pub list_versions : Exec (List VersionEntry)
  unfolding index_file
  list_versions = do idx ← load_index lib index_file key; pure idx.versions

  unfoldable pub delete_version : Text → Exec (Unit {0})
  unfolding index_file
  delete_version version_id = do
    idx ← load_index lib index_file key
    rest ← lift (remove_version idx version_id)
    delete_version_blob s node_id key version_id
    save_index lib index_file rest

  -- `Delete`.
  unfoldable pub delete : Exec (Unit {0})
  unfolding index_file delete_blobs
  delete = do
    idx ← load_index lib index_file key
    delete_blobs idx.versions
    ignore (remove index_file)

  unfoldable pub rollback_to : Text → Exec VersionEntry
  unfolding read_version write_version
  rollback_to version_id = do
    content ← read_version version_id
    write_version (codes "rollback to version " ++ version_id) content.1

-- `Clear`.
unfoldable pub clear : Store → Exec (Unit {0})
clear s = remove_all s.root
