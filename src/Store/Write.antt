-- ===== src/Store/Write.antt =====
-- What `WriteVersion` has done when it returns: the version that it reports reads back.
use weave_fs.Base.{
  ℕ, pos, List, [], ◌∷◌, ◌++◌, Text, take, All, ◌≡◌, ◌≢◌, refl, ap, ◌∙◌, subst, nat_eq, list_eq,
}
use weave_fs.Exec.{FilePath, ok, World, pure, ◌>>=◌, ◌>>◌}
use weave_fs.Exec.Laws.{>>=-eq-ok, bind_ok, >>-pure-eq-ok, result_of}
use weave_fs.Disk.{Reader, time_now}
use weave_fs.Disk.Resolve.{resolve}
use weave_fs.Disk.Files.{remove_all_others, is_prefix-append}
use weave_fs.Store.Version.{
  VersionEntry, VersionIndex, Library, IsRoundTrip, versioned_key, load_index, save_index, new_uuid,
  next_seq,
}
use weave_fs.Store.Paths.{Store, cas_path_transform, node_folder, resolved_path, resolved_root_path}
use weave_fs.Store.Paths.Laws.{
  IsSha1, hash_of, blocks_of_first, resolve-resolved_path, resolve-resolved_root_path,
}
use weave_fs.Store.Index.{push_version, pruned_entries, pruned_index}
use weave_fs.Store.Blob.{write_stream, delete_version_blob}
use weave_fs.Store.Ops.{
  index_file, delete_blobs, prune_oldest_versions, record_version, write_version,
}
use weave_fs.Store.Frame.{CipherIsLawful, load_index-files, new_uuid-files, new_uuid-ne-nil}

-- What the theorems on a store assume: the documented behaviour of the libraries and of the
-- cipher, and the content-addressed layout.
pub record IsSound (lib : Library) (s : Store) : Type 0 where
  pub sha : IsSha1 lib
  pub json : IsRoundTrip lib.json
  pub cas : (k : Text) → s.path_transform k ≡ cas_path_transform lib k
  pub cipher : CipherIsLawful s.cipher

module _ (lib : Library) (s : Store) (sound : IsSound lib s) (node_id key : Text) where
  -- The top folder of a version's blob: five hex digits of its hash.
  abbrev pub top_folder : Text → Text
  top_folder id = take 5 (hash_of lib (versioned_key key id))

  abbrev pub blob_at : Text → FilePath
  blob_at id = resolve (resolved_path s node_id (versioned_key key id))

  abbrev pub index_at : FilePath
  index_at = resolve (index_file lib s node_id key)

  -- The blob lies below its top folder.
  pub blob_at-top_folder :
      (id : Text)
      → (rest : FilePath) × (blob_at id ≡ resolve (node_folder s node_id) ++ (top_folder id ∷ rest))
  blob_at-top_folder id =
      let first = blocks_of_first lib (versioned_key key id) in
      (
        first.0,
        rw (
          resolve-resolved_path lib sound.sha s sound.cas node_id (versioned_key key id),
          first.1,
        ),
      )

  pub delete_version_blob-others :
      (id x : Text) (rest : FilePath) (w : World)
      → top_folder id ≢ x
      → (delete_version_blob s node_id key id w).1.files
          (resolve (node_folder s node_id) ++ (x ∷ rest))
        ≡ w.files (resolve (node_folder s node_id) ++ (x ∷ rest))
  unfolding delete_version_blob
  delete_version_blob-others id x rest w h =
      remove_all_others (resolved_root_path s node_id (versioned_key key id)) w _ (
        rw (resolve-resolved_root_path lib sound.sha s sound.cas node_id (versioned_key key id))
          (is_prefix-append (resolve (node_folder s node_id)) (top_folder id) x rest h))

  -- Dropping blobs reaches only below their top folders.
  pub delete_blobs-others :
      (vs : List VersionEntry) (x : Text) (rest : FilePath) (w : World)
      → All (λ v. top_folder v.version_id ≢ x) vs
      → (delete_blobs lib s node_id key vs w).1.files
          (resolve (node_folder s node_id) ++ (x ∷ rest))
        ≡ w.files (resolve (node_folder s node_id) ++ (x ∷ rest))
  unfolding delete_blobs
  delete_blobs-others [] x rest w h = refl
  delete_blobs-others (v ∷ vs) x rest w h =
      delete_blobs-others vs x rest (delete_version_blob s node_id key v.version_id w).1 h.1
      ∙ delete_version_blob-others v.version_id x rest w h.0

  pub delete_blobs_ok :
      (vs : List VersionEntry) (w : World) → (delete_blobs lib s node_id key vs w).0 ≡ ok tt
  unfolding delete_blobs
  delete_blobs_ok [] w = refl
  delete_blobs_ok (v ∷ vs) w =
      delete_blobs_ok vs (delete_version_blob s node_id key v.version_id w).1

  -- The steps of a write that returned: what was loaded, copied, dropped and saved.
  pub record Written (r : Reader) (w : World) (entry : VersionEntry) (w' : World) : Type 0 where
    pub idx : VersionIndex
    pub before : World
    pub count : ℕ
    pub copied : World
    pub same : before.files ≡ w.files
    pub named : entry.version_id ≢ []
    pub loaded : (load_index lib (index_file lib s node_id key) key w).0 ≡ ok idx
    pub copy :
        write_stream s node_id (versioned_key key entry.version_id) r before ≡ (ok count, copied)
    pub size : entry.size_bytes ≡ pos count
    pub numbered : entry.seq ≡ next_seq idx
    pub save :
        save_index lib
          (index_file lib s node_id key)
          (pruned_index s.max_versions (push_version idx entry))
          (delete_blobs lib s node_id key
            (pruned_entries s.max_versions (push_version idx entry))
            copied).1
        ≡ (ok tt, w')

  pub prune_oldest_versions_lem :
      (idx : VersionIndex) (w : World)
      → prune_oldest_versions lib s node_id key idx w ≡ (
        ok (pruned_index s.max_versions idx),
        (delete_blobs lib s node_id key (pruned_entries s.max_versions idx) w).1,
      )
  unfolding prune_oldest_versions
  prune_oldest_versions_lem idx w =
      bind_ok (delete_blobs lib s node_id key (pruned_entries s.max_versions idx)) _ w _ tt (
        result_of (delete_blobs lib s node_id key (pruned_entries s.max_versions idx) w) (ok tt)
          (delete_blobs_ok (pruned_entries s.max_versions idx) w))

  saved_entry :
      (idx : VersionIndex) (new entry : VersionEntry) (w w' : World)
      → (do
        pruned ← prune_oldest_versions lib s node_id key (push_version idx new)
        save_index lib (index_file lib s node_id key) pruned
        pure new)
          w
        ≡ (ok entry, w')
      → (new ≡ entry)
        × (save_index lib
              (index_file lib s node_id key)
              (pruned_index s.max_versions (push_version idx new))
              (delete_blobs lib s node_id key
                (pruned_entries s.max_versions (push_version idx new))
                w).1
            ≡ (ok tt, w'))
  saved_entry idx new entry w w' = rw (prune_oldest_versions_lem (push_version idx new) w) (
      >>-pure-eq-ok
        (save_index lib (index_file lib s node_id key)
          (pruned_index s.max_versions (push_version idx new)))
        new _ entry w')

  recorded :
      (idx : VersionIndex) (message id : Text) (n : ℕ) (r : Reader) (w before copied : World)
      (entry : VersionEntry) (w' : World)
      → before.files ≡ w.files
      → id ≢ []
      → (load_index lib (index_file lib s node_id key) key w).0 ≡ ok idx
      → write_stream s node_id (versioned_key key id) r before ≡ (ok n, copied)
      → record_version lib s node_id key idx message id n copied ≡ (ok entry, w')
      → Written r w entry w'
  unfolding record_version time_now
  recorded idx message id n r w before copied entry w' same named loaded copy h =
      let new : VersionEntry = record {
        version_id = id;
        seq = next_seq idx;
        created_at = copied.now;
        size_bytes = pos n;
        message = message;
      } in
      let (e, save) = saved_entry idx new entry copied w' h in
      subst (λ x. Written r w x w') e
        (record {
          idx = idx;
          before = before;
          count = n;
          copied = copied;
          same = same;
          named = named;
          loaded = loaded;
          copy = copy;
          size = refl;
          numbered = refl;
          save = save;
        })

  identified :
      (idx : VersionIndex) (message : Text) (r : Reader) (w w1 : World) (entry : VersionEntry)
      (w' : World)
      → w1.files ≡ w.files
      → (load_index lib (index_file lib s node_id key) key w).0 ≡ ok idx
      → (do
        version_id ← new_uuid
        n ← write_stream s node_id (versioned_key key version_id) r
        record_version lib s node_id key idx message version_id n)
          w1
        ≡ (ok entry, w')
      → Written r w entry w'
  identified idx message r w w1 entry w' same loaded h =
      let (id, w2, e2, h2) = >>=-eq-ok new_uuid _ w1 entry w' h in
      let (n, w3, e3, h3) =
        >>=-eq-ok (write_stream s node_id (versioned_key key id) r) _ w2 entry w' h2 in
      recorded idx message id n r w w2 w3 entry w' ((rw e2 at (new_uuid-files w1)) ∙ same)
        (new_uuid-ne-nil w1 w2 id e2) loaded e3 h3

  pub write_version-Written :
      (message : Text) (r : Reader) (w : World) (entry : VersionEntry) (w' : World)
      → write_version lib s node_id key message r w ≡ (ok entry, w')
      → Written r w entry w'
  unfolding write_version
  write_version-Written message r w entry w' h =
      let (idx, w1, e1, h1) =
        >>=-eq-ok (load_index lib (index_file lib s node_id key) key) _ w entry w' h in
      identified idx message r w w1 entry w'
        (rw e1 at (load_index-files lib (index_file lib s node_id key) key w)) (ap (λ x. x.0) e1) h1
