-- ===== src/Store/Delete.antt =====
-- A version that was deleted is gone, a delete that failed keeps the index, and what else a delete
-- removes.
use weave_fs.Base.{
  false, none, List, [], ◌∷◌, Text, ◌≡◌, ◌≢◌, ◌⊎◌, refl, arith, ap, ◌∙◌, inl, inr, nat_eq, list_eq,
  eq_iff, length, length-take, codes,
}
use weave_fs.Exec.{Error, version_not_found, Result, ok, err, World, calm, continue, ◌>>◌}
use weave_fs.Exec.Laws.{Exec-cases}
use weave_fs.Disk.Resolve.{resolve}
use weave_fs.Disk.Files.{is_prefix-append_self, remove_all_calm}
use weave_fs.Store.Version.{
  VersionEntry, VersionIndex, Library, versioned_key, load_index, save_index,
}
use weave_fs.Store.Paths.{Store, node_folder, resolved_root_path}
use weave_fs.Store.Paths.Laws.{
  hash_of, length-hash_of, resolve-resolved_root_path, resolve-index_path, tmp-ne-index,
}
use weave_fs.Store.Index.{find_version, resolve_version, contains_version, without, remove_version}
use weave_fs.Store.Index.Entries.{contains_version-without}
use weave_fs.Store.Blob.{delete_version_blob}
use weave_fs.Store.Ops.{index_file, delete_version, read_version}
use weave_fs.Store.Frame.{Saved, load_index-files, save_index_lem}
use weave_fs.Store.Write.{
  IsSound, top_folder, blob_at, index_at, blob_at-top_folder, delete_version_blob-others,
}
use weave_fs.Store.Commit.{load_index_calm}

-- Deleting the blob of one version, on a machine with no fault to come, removes the blob of every
-- version of every key of the node whose hash starts with the same five hex digits. The libraries
-- do what they document, and the layout is content-addressed.
pub delete_version_blob_collides :
    (lib : Library) (s : Store) (sound : IsSound lib s) (node_id key id other_key other_id : Text)
    (w : World)
    → w.faults ≡ []
    → top_folder lib s sound node_id key id ≡ top_folder lib s sound node_id other_key other_id
    → (delete_version_blob s node_id key id w).1.files
        (blob_at lib s sound node_id other_key other_id)
      ≡ none
unfolding delete_version_blob
delete_version_blob_collides lib s sound node_id key id other_key other_id w calm same =
    let (rest, below) = blob_at-top_folder lib s sound node_id other_key other_id in
    remove_all_calm (resolved_root_path s node_id (versioned_key key id)) w
      (blob_at lib s sound node_id other_key other_id) calm
      (rw
        (
          resolve-resolved_root_path lib sound.sha s sound.cas node_id (versioned_key key id),
          below,
          same,
        )
        (is_prefix-append_self (resolve (node_folder s node_id))
          (top_folder lib s sound node_id other_key other_id) rest))

not_found :
    (id : Text) (vs : List VersionEntry)
    → contains_version id vs ≡ false
    → find_version id vs ≡ none
unfolding find_version contains_version
not_found id [] e = refl
not_found id (v ∷ vs) e = ground (arith, not_found id vs)

removed_not_found :
    (idx rest : VersionIndex) (id : Text)
    → id ≢ []
    → remove_version idx id ≡ ok rest
    → resolve_version rest id ≡ err version_not_found
unfolding remove_version resolve_version
removed_not_found idx rest id named e = ground (
  arith,
  contains_version-without id id idx.versions,
  eq_iff id [],
  eq_iff id id,
  not_found id (without id idx.versions),
)

module _ (lib : Library) (s : Store) (sound : IsSound lib s) (node_id key : Text) where
  vindex-ne-top_folder : (id : Text) → top_folder lib s sound node_id key id ≢ codes ".vindex"
  vindex-ne-top_folder id e = omega (
    arith,
    ap length e,
    length-take 5 (hash_of lib (versioned_key key id)),
    length-hash_of lib sound.sha (versioned_key key id),
  )

  -- Deleting a blob does not touch the index.
  delete_version_blob-index :
      (id : Text) (w : World)
      → (delete_version_blob s node_id key id w).1.files (index_at lib s sound node_id key)
        ≡ w.files (index_at lib s sound node_id key)
  unfolding index_file
  delete_version_blob-index id w = rw (resolve-index_path lib sound.sha s.root node_id key) (
      delete_version_blob-others lib s sound node_id key id (codes ".vindex") _ w
        (vindex-ne-top_folder id))

  Saved-before :
      (rest : VersionIndex) (w1 w : World) (r : Result (Unit {0}) × World)
      → w1.files (index_at lib s sound node_id key) ≡ w.files (index_at lib s sound node_id key)
      → Saved lib (index_file lib s node_id key) rest w1 r
      → Saved lib (index_file lib s node_id key) rest w r
  Saved-before rest w1 w r same (inl x) = inl x
  Saved-before rest w1 w r same (inr (e, ended, file)) = inr (e, ended, file ∙ same)

  -- The last two steps of a delete: the index is the new one, or it is as it was.
  index_replaced :
      (id : Text) (rest : VersionIndex) (w : World)
      → Saved lib (index_file lib s node_id key) rest w (
          (delete_version_blob s node_id key id
              >> save_index lib (index_file lib s node_id key) rest)
            w)
  index_replaced id rest w = elim (Exec-cases (delete_version_blob s node_id key id) w) [
    | inl (u, w1, e) ↦ rw e (
        Saved-before rest w1 w (save_index lib (index_file lib s node_id key) rest w1)
          (rw e at (delete_version_blob-index id w))
          (save_index_lem lib (index_file lib s node_id key) rest w1
            (unfold index_file in tmp-ne-index lib sound.sha s.root node_id key)))
    | inr (x, w1, e) ↦ rw e (inr (x, refl, rw e at (delete_version_blob-index id w)))
  ]

  -- The whole of a delete, by what was loaded.
  Deleted : Text → World → Result (Unit {0}) × World → Type 0
  Deleted id w r =
      ((idx rest : VersionIndex) × ((load_index lib (index_file lib s node_id key) key w).0
          ≡ ok idx)
        × (remove_version idx id ≡ ok rest)
        × Saved lib (index_file lib s node_id key) rest w r)
      ⊎ ((e : Error) × (r.0 ≡ err e) × (r.1.files ≡ w.files))

  failed_Deleted :
      (id : Text) (w : World) (r : Result (Unit {0}) × World) (x : Error)
      → r.0 ≡ err x
      → r.1.files ≡ w.files
      → Deleted id w r
  unfolding Deleted
  failed_Deleted id w r x e same = inr (x, e, same)

  removed_Deleted :
      (id : Text) (idx : VersionIndex) (w w1 : World) (r : Result VersionIndex)
      → w1.files ≡ w.files
      → (load_index lib (index_file lib s node_id key) key w).0 ≡ ok idx
      → remove_version idx id ≡ r
      → Deleted id w (
          continue r
            (λ rest.
              delete_version_blob s node_id key id
              >> save_index lib (index_file lib s node_id key) rest)
            w1)
  unfolding Deleted
  removed_Deleted id idx w w1 (err x) same loaded e = inr (x, refl, same)
  removed_Deleted id idx w w1 (ok rest) same loaded e = inl (
    idx,
    rest,
    loaded,
    e,
    Saved-before rest w1 w
        ((delete_version_blob s node_id key id
            >> save_index lib (index_file lib s node_id key) rest)
          w1)
        (ap (λ f. f (index_at lib s sound node_id key)) same) (index_replaced id rest w1),
  )

  delete_version-Deleted :
      (id : Text) (w : World) → Deleted id w (delete_version lib s node_id key id w)
  unfolding delete_version
  delete_version-Deleted id w =
      elim (Exec-cases (load_index lib (index_file lib s node_id key) key) w) [
        | inl (idx, w1, e) ↦ rw e (
            removed_Deleted id idx w w1 (remove_version idx id)
              (rw e at (load_index-files lib (index_file lib s node_id key) key w))
              (ap (λ x. x.0) e) refl)
        | inr (x, w1, e) ↦ rw e (
            failed_Deleted id w (err x, w1) x refl
              (rw e at (load_index-files lib (index_file lib s node_id key) key w)))
      ]

  -- A delete that ended with an error, whatever it was, left the index file as it was. The
  -- libraries do what they document, and the layout is content-addressed.
  pub delete_version_failed :
      (id : Text) (w w' : World) (e : Error)
      → delete_version lib s node_id key id w ≡ (err e, w')
      → w'.files (index_at lib s sound node_id key) ≡ w.files (index_at lib s sound node_id key)
  unfolding Deleted
  delete_version_failed id w w' e h = elim (delete_version-Deleted id w) [
    | inl (idx, rest, loaded, removed, inl (b, printed, ended, file)) ↦ absurd (cc (rw h at ended))
    | inl (idx, rest, loaded, removed, inr (x, ended, file)) ↦ (rw h at file)
    | inr (x, ended, file) ↦ ap (λ f. f (index_at lib s sound node_id key)) (rw h at file)
  ]

  -- After a delete that returned, whatever faults it met on its way, a read of the version that
  -- meets none is told that the version does not exist. The ID is not empty, the libraries do what
  -- they document, and the layout is content-addressed.
  pub delete_version-read_version :
      (id : Text) (w w' : World)
      → id ≢ []
      → delete_version lib s node_id key id w ≡ (ok tt, w')
      → read_version lib s node_id key id (calm w') ≡ (err version_not_found, calm w')
  unfolding read_version Deleted
  delete_version-read_version id w w' named h = elim (delete_version-Deleted id w) [
    | inl (idx, rest, loaded, removed, inl (b, printed, ended, file)) ↦ rw (
      load_index_calm lib (index_file lib s node_id key) key rest b (calm w') sound.json refl
          (rw h at file) printed,
      removed_not_found idx rest id named removed,
    )
    | inl (idx, rest, loaded, removed, inr (x, ended, file)) ↦ absurd (cc (rw h at ended))
    | inr (x, ended, file) ↦ absurd (cc (rw h at ended))
  ]
