-- ===== src/Store/Forget.antt =====
-- internal/store/store.go: what is left of a key behind `Delete`.
use weave_fs.Base.{
  false, none, List, [], ◌∷◌, Text, All, ◌≡◌, refl, arith, ◌∙◌, eq_refl, list_beq, nat_eq, list_eq,
}
use weave_fs.Exec.{FilePath, no_versions, ok, err, World, Exec, ignore}
use weave_fs.Exec.Laws.{bind_ok, result_of}
use weave_fs.Disk.{remove, remove_all, read_file}
use weave_fs.Disk.Resolve.{resolve}
use weave_fs.Store.Version.{VersionEntry, VersionIndex, Library, load_index, empty_index}
use weave_fs.Store.Paths.{Store}
use weave_fs.Store.Index.{resolve_version}
use weave_fs.Store.Blob.{delete_version_blob}
use weave_fs.Store.Ops.{
  is_there, index_file, delete_blobs, delete, has, list_versions, read_version,
}
use weave_fs.Store.Write.{IsSound, blob_at, delete_blobs_ok}
use weave_fs.Store.Delete.{delete_version_blob_collides}

-- The call leaves no fault behind, and brings no file back.
record Clears {A : Type 0} (m : Exec A) (w : World) : Type 0 where
  quiet : (m w).1.faults ≡ []
  gone : (q : FilePath) → w.files q ≡ none → (m w).1.files q ≡ none

remove_all-Clears : (path : Text) (w : World) → w.faults ≡ [] → Clears (remove_all path) w
unfolding remove_all
remove_all-Clears path w calm = record { quiet = ground arith; gone = λ q h. ground arith }

remove-Clears : (path : Text) (w : World) → w.faults ≡ [] → Clears (ignore (remove path)) w
unfolding remove
remove-Clears path w calm = record { quiet = ground arith; gone = λ q h. ground arith }

removed : (path : Text) (w : World) → w.faults ≡ [] → (remove path w).1.files (resolve path) ≡ none
unfolding remove
removed path w calm = ground (arith, eq_refl (resolve path))

-- With no fault to come, the index of a key without an index file is empty.
load_index_gone :
    (lib : Library) (path key : Text) (w : World)
    → w.faults ≡ []
    → w.files (resolve path) ≡ none
    → load_index lib path key w ≡ (ok (empty_index key), w)
unfolding load_index read_file
load_index_gone lib path key w calm gone = ground arith

module _ (lib : Library) (s : Store) (sound : IsSound lib s) (node_id key : Text) where
  delete_version_blob-Clears :
      (id : Text) (w : World) → w.faults ≡ [] → Clears (delete_version_blob s node_id key id) w
  unfolding delete_version_blob
  delete_version_blob-Clears id w calm = remove_all-Clears _ w calm

  delete_blobs-Clears :
      (vs : List VersionEntry) (w : World)
      → w.faults ≡ []
      → Clears (delete_blobs lib s node_id key vs) w
  unfolding delete_blobs
  delete_blobs-Clears [] w calm = record { quiet = calm; gone = λ q h. h }
  delete_blobs-Clears (v ∷ vs) w calm =
      let first = delete_version_blob-Clears v.version_id w calm in
      let rest =
        delete_blobs-Clears vs (delete_version_blob s node_id key v.version_id w).1 first.quiet in
      record { quiet = rest.quiet; gone = λ q h. rest.gone q (first.gone q h) }

  abbrev pub AreGone : List VersionEntry → World → Type 0
  AreGone vs w = All (λ v. w.files (blob_at lib s sound node_id key v.version_id) ≡ none) vs

  AreGone-Clears :
      {A : Type 0} (m : Exec A) (vs : List VersionEntry) (w : World)
      → Clears m w
      → AreGone vs w
      → AreGone vs (m w).1
  AreGone-Clears m [] w c h = tt
  AreGone-Clears m (v ∷ vs) w c (h, hs) = (c.gone _ h, AreGone-Clears m vs w c hs)

  delete_blobs-AreGone :
      (vs : List VersionEntry) (w : World)
      → w.faults ≡ []
      → AreGone vs (delete_blobs lib s node_id key vs w).1
  unfolding delete_blobs
  delete_blobs-AreGone [] w calm = tt
  delete_blobs-AreGone (v ∷ vs) w calm =
      let first = delete_version_blob-Clears v.version_id w calm in
      let w1 = (delete_version_blob s node_id key v.version_id w).1 in
      (
        (delete_blobs-Clears vs w1 first.quiet).gone _ (
            delete_version_blob_collides lib s sound node_id key v.version_id key v.version_id w
              calm refl),
        delete_blobs-AreGone vs w1 first.quiet,
      )

  behind : List VersionEntry → World → World
  behind vs w = (remove (index_file lib s node_id key) (delete_blobs lib s node_id key vs w).1).1

  delete_run :
      (idx : VersionIndex) (w : World)
      → load_index lib (index_file lib s node_id key) key w ≡ (ok idx, w)
      → delete lib s node_id key w ≡ (ok tt, behind idx.versions w)
  unfolding delete behind
  delete_run idx w loaded =
      bind_ok (load_index lib (index_file lib s node_id key) key) _ w w idx loaded
      ∙ bind_ok (delete_blobs lib s node_id key idx.versions)
          (λ (u : Unit {0}). ignore (remove (index_file lib s node_id key))) w
          (delete_blobs lib s node_id key idx.versions w).1 tt
          (result_of (delete_blobs lib s node_id key idx.versions w) (ok tt)
            (delete_blobs_ok lib s sound node_id key idx.versions w))

  -- A store that has no index of the key.
  forgotten :
      (w : World)
      → w.faults ≡ []
      → w.files (resolve (index_file lib s node_id key)) ≡ none
      → (has lib s node_id key w ≡ (false, w))
        × (list_versions lib s node_id key w ≡ (ok [], w))
        × (read_version lib s node_id key [] w ≡ (err no_versions, w))
  unfolding has list_versions read_version is_there resolve_version list_beq
  forgotten w calm gone =
      let loaded = load_index_gone lib (index_file lib s node_id key) key w calm gone in
      (rw loaded refl, rw loaded refl, rw loaded refl)

  -- A delete of a key that meets no fault returns, and forgets the key: the store does not have it
  -- any more, lists no version of it, and has no blob of any version that the index listed; a read
  -- of the latest version says that there is none. The index loaded before, the libraries do what
  -- they document, and the layout is content-addressed.
  pub delete_forgets :
      (idx : VersionIndex) (w : World)
      → w.faults ≡ []
      → load_index lib (index_file lib s node_id key) key w ≡ (ok idx, w)
      → ((delete lib s node_id key w).0 ≡ ok tt)
        × (has lib s node_id key (delete lib s node_id key w).1
            ≡ (false, (delete lib s node_id key w).1))
        × (list_versions lib s node_id key (delete lib s node_id key w).1
            ≡ (ok [], (delete lib s node_id key w).1))
        × (read_version lib s node_id key [] (delete lib s node_id key w).1
            ≡ (err no_versions, (delete lib s node_id key w).1))
        × AreGone idx.versions (delete lib s node_id key w).1
  unfolding behind
  delete_forgets idx w calm loaded =
      let blobs = delete_blobs-Clears idx.versions w calm in
      let w1 = (delete_blobs lib s node_id key idx.versions w).1 in
      let cleared = remove-Clears (index_file lib s node_id key) w1 blobs.quiet in
      let (absent, unlisted, unread) =
        forgotten (behind idx.versions w) cleared.quiet
          (removed (index_file lib s node_id key) w1 blobs.quiet) in
      rw (delete_run idx w loaded) (
        refl,
        absent,
        unlisted,
        unread,
        AreGone-Clears (ignore (remove (index_file lib s node_id key))) idx.versions w1 cleared
            (delete_blobs-AreGone idx.versions w calm),
      )
