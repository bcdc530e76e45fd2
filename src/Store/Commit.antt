-- ===== src/Store/Commit.antt =====
-- A new entry behind its blob: what pruning and saving the index leave.
use weave_fs.Base.{All-take}
use weave_fs.Base.{
  ℕ, zero, suc, ◌≤◌, ℤ, false, some, List, [], ◌∷◌, ◌++◌, Bytes, Text, codes, take, drop, All,
  length, ◌≡◌, ◌≢◌, ◌⊎◌, refl, arith, ap, ◌∙◌, inl, inr, nat_eq, list_eq, eq_iff, length-take,
  length-append,
}
use weave_fs.Exec.{ok, World, calm}
use weave_fs.Disk.{Reader, reader_of}
use weave_fs.Disk.Resolve.{resolve}
use weave_fs.Disk.Files.{read_file_calm, append_left_injective}
use weave_fs.Fsutil.{tmp_path}
use weave_fs.Store.Version.{
  VersionEntry, VersionIndex, Library, IsRoundTrip, versioned_key, load_index, save_index,
}
use weave_fs.Store.Paths.{Store, node_folder, resolved_path}
use weave_fs.Store.Paths.Laws.{
  hash_of, length-hash_of, resolve-index_path, resolve-tmp_path, tmp-ne-index,
}
use weave_fs.Store.Index.{
  find_version, resolve_version, push_version, prune_cut, pruned_entries, pruned_index,
  contains_version,
}
use weave_fs.Store.Index.Entries.{drop-append_last, contains_version-drop}
use weave_fs.Store.Blob.{read_stream, unwrapped}
use weave_fs.Store.Ops.{index_file, delete_blobs}
use weave_fs.Store.Frame.{save_index_lem, save_index_others}
use weave_fs.Store.Write.{
  IsSound, top_folder, blob_at, index_at, blob_at-top_folder, delete_blobs-others,
}

-- An index file that holds a printed index loads as that index.
pub load_index_calm :
    (lib : Library) (path key : Text) (idx : VersionIndex) (b : Bytes) (w : World)
    → IsRoundTrip lib.json
    → w.faults ≡ []
    → w.files (resolve path) ≡ some b
    → lib.json.marshal idx ≡ some b
    → load_index lib path key w ≡ (ok idx, w)
unfolding load_index
load_index_calm lib path key idx b w trip calm file printed =
    ground (arith, read_file_calm path w b calm file, trip.unmarshal-marshal idx b printed)

-- A blob that unseals to a reader is read as it.
pub read_stream_calm :
    (s : Store) (node_id key : Text) (b : Bytes) (r : Reader) (w : World)
    → w.faults ≡ []
    → w.files (resolve (resolved_path s node_id key)) ≡ some b
    → unwrapped s.cipher (reader_of b) ≡ ok r
    → read_stream s node_id key w ≡ (ok r, w)
unfolding read_stream
read_stream_calm s node_id key b r w calm file opens =
    rw (read_file_calm (resolved_path s node_id key) w b calm file, opens)

find_version-append :
    (id : Text) (vs : List VersionEntry) (v : VersionEntry)
    → contains_version id vs ≡ false
    → v.version_id ≡ id
    → find_version id (vs ++ (v ∷ [])) ≡ some v
unfolding find_version contains_version
find_version-append id [] v n e = ground (arith, eq_iff v.version_id id)
find_version-append id (u ∷ vs) v n e = ground (arith, find_version-append id vs v)

pruned-append :
    (n : ℕ) (vs : List VersionEntry) (v : VersionEntry)
    → n ≤ length vs
    → take n (vs ++ (v ∷ [])) ≡ take n vs
pruned-append zero vs v h = refl
pruned-append (suc n) [] v h = absurd (omega arith)
pruned-append (suc n) (u ∷ vs) v h = ap (λ l. u ∷ l) (pruned-append n vs v (omega arith))

prune_cut_push :
    (max : ℤ) (idx : VersionIndex) (v : VersionEntry)
    → prune_cut max (push_version idx v) ≤ length idx.versions
unfolding prune_cut push_version
prune_cut_push max idx v = ground (arith, length-append {0} idx.versions (v ∷ []))

-- The entry that was pushed is found after pruning, by its ID and as the latest.
resolve_version-pruned :
    (max : ℤ) (idx : VersionIndex) (v : VersionEntry) (id : Text)
    → v.version_id ≢ []
    → contains_version v.version_id idx.versions ≡ false
    → (id ≡ []) ⊎ (id ≡ v.version_id)
    → resolve_version (pruned_index max (push_version idx v)) id ≡ ok v
unfolding resolve_version pruned_index push_version
resolve_version-pruned max idx v id named new asked = ground (
  arith,
  eq_iff id [],
  eq_iff v.version_id [],
  drop-append_last (prune_cut max (push_version idx v)) idx.versions v (prune_cut_push max idx v),
  find_version-append v.version_id (drop (prune_cut max (push_version idx v)) idx.versions) v
      (contains_version-drop (prune_cut max (push_version idx v)) v.version_id idx.versions new)
      refl,
)

module _ (lib : Library) (s : Store) (sound : IsSound lib s) (node_id key : Text) where
  vindex-ne-top_folder : (id : Text) → codes ".vindex" ≢ top_folder lib s sound node_id key id
  vindex-ne-top_folder id e = omega (
    arith,
    ap length e,
    length-take 5 (hash_of lib (versioned_key key id)),
    length-hash_of lib sound.sha (versioned_key key id),
  )

  -- A blob is no index and no index in the making.
  pub index_at-ne-blob_at :
      (id : Text) → index_at lib s sound node_id key ≢ blob_at lib s sound node_id key id
  unfolding index_file
  index_at-ne-blob_at id =
      rw
        (
          resolve-index_path lib sound.sha s.root node_id key,
          (blob_at-top_folder lib s sound node_id key id).1,
        )
        (λ e.
          vindex-ne-top_folder id
            (cc (append_left_injective (resolve (node_folder s node_id)) _ _ e)))

  pub tmp-ne-blob_at :
      (id : Text)
      → resolve (tmp_path (index_file lib s node_id key)) ≢ blob_at lib s sound node_id key id
  unfolding index_file
  tmp-ne-blob_at id =
      rw
        (
          resolve-tmp_path lib sound.sha s.root node_id key,
          (blob_at-top_folder lib s sound node_id key id).1,
        )
        (λ e.
          vindex-ne-top_folder id
            (cc (append_left_injective (resolve (node_folder s node_id)) _ _ e)))

  -- No version of the list has its blob in the top folder of the given one.
  abbrev pub AreApart : Text → List VersionEntry → Type 0
  AreApart id =
      All (λ v.
        top_folder lib s sound node_id key v.version_id ≢ top_folder lib s sound node_id key id)

  pub AreApart-new :
      (id : Text) (vs : List VersionEntry) → AreApart id vs → contains_version id vs ≡ false
  unfolding contains_version
  AreApart-new id [] h = refl
  AreApart-new id (v ∷ vs) h = ground (
    arith,
    eq_iff v.version_id id,
    AreApart-new id vs h.1,
    ap (top_folder lib s sound node_id key) {x = v.version_id} {y = id},
    h.0,
  )

  -- An index with a new entry that was pruned and saved, behind the write of the entry's blob.
  module _ (idx : VersionIndex) (entry : VersionEntry) (copied w' : World)
      (save : save_index lib
          (index_file lib s node_id key)
          (pruned_index s.max_versions (push_version idx entry))
          (delete_blobs lib s node_id key
            (pruned_entries s.max_versions (push_version idx entry))
            copied).1
        ≡ (ok tt, w'))
      (apart : AreApart entry.version_id idx.versions) where
    unfoldable pub saved_index : VersionIndex
    saved_index = pruned_index s.max_versions (push_version idx entry)

    dropped : World
    dropped =
        (delete_blobs lib s node_id key (pruned_entries s.max_versions (push_version idx entry))
          copied).1

    save_ended : save_index lib (index_file lib s node_id key) saved_index dropped ≡ (ok tt, w')
    unfolding saved_index dropped
    save_ended = save

    pub index_saved :
        (b : Bytes) × (lib.json.marshal saved_index ≡ some b)
        × (w'.files (index_at lib s sound node_id key) ≡ some b)
    index_saved =
        elim (save_index_lem lib (index_file lib s node_id key) saved_index dropped
          (unfold index_file in tmp-ne-index lib sound.sha s.root node_id key)) [
            | inl (b, printed, ended, file) ↦ (b, printed, rw save_ended at file)
            | inr (e, ended, file) ↦ absurd (cc (rw save_ended at ended))
          ]

    apart_pruned :
        AreApart entry.version_id (pruned_entries s.max_versions (push_version idx entry))
    unfolding pruned_entries push_version
    apart_pruned =
        rw
          (pruned-append (prune_cut s.max_versions (push_version idx entry)) idx.versions entry
            (prune_cut_push s.max_versions idx entry))
          (All-take _ (prune_cut s.max_versions (push_version idx entry)) idx.versions apart)

    -- Neither the pruning nor the save touches the blob.
    pub blob_untouched :
        w'.files (blob_at lib s sound node_id key entry.version_id)
        ≡ copied.files (blob_at lib s sound node_id key entry.version_id)
    unfolding dropped
    blob_untouched =
        let blob = blob_at-top_folder lib s sound node_id key entry.version_id in
        (rw save_ended at (
          save_index_others lib (index_file lib s node_id key) saved_index dropped
            (blob_at lib s sound node_id key entry.version_id) (tmp-ne-blob_at entry.version_id)
            (index_at-ne-blob_at entry.version_id)))
        ∙ rw blob.1 (
            delete_blobs-others lib s sound node_id key
              (pruned_entries s.max_versions (push_version idx entry)) _ blob.0 copied apart_pruned)

    pub saved_lem :
        (id : Text)
        → entry.version_id ≢ []
        → (id ≡ []) ⊎ (id ≡ entry.version_id)
        → resolve_version saved_index id ≡ ok entry
    unfolding saved_index
    saved_lem id named asked =
        resolve_version-pruned s.max_versions idx entry id named
          (AreApart-new entry.version_id idx.versions apart) asked
