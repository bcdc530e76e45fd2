-- ===== src/Store/Raw.antt =====
-- A blob that a peer stored here is handed back byte for byte.
use weave_fs.Base.{
  ℕ, pos, not, none, some, [], Text, length, ◌≡◌, ◌≢◌, ◌⊎◌, refl, arith, ap, ◌∙◌, sym, subst, ◌==◌,
  nat_eq, list_eq, eq_iff,
}
use weave_fs.Exec.{version_id_required, ok, World, calm, guard}
use weave_fs.Exec.Laws.{ok-injective, guard-eq-ok, >>=-eq-ok}
use weave_fs.Disk.{Reader, reader_of}
use weave_fs.Disk.Resolve.{resolve}
use weave_fs.Store.Version.{
  VersionEntry, VersionIndex, Library, versioned_key, load_index, save_index,
}
use weave_fs.Store.Paths.{Store, resolved_path}
use weave_fs.Store.Index.{put_version, pruned_entries, pruned_index}
use weave_fs.Store.Index.Prune.{put_new_lem}
use weave_fs.Store.Blob.{write_stream, write_stream_raw, wrapped, unwrapped, create_blob_file}
use weave_fs.Store.Ops.{index_file, delete_blobs, write_version_raw, read_version_raw}
use weave_fs.Store.Frame.{write_stream_ok}
use weave_fs.Store.Write.{IsSound, blob_at, prune_oldest_versions_lem}
use weave_fs.Store.Holds.{Holds, committed, Holds-read_version_raw}
use weave_fs.Store.Commit.{AreApart, AreApart-new, saved_index}

-- The store with no cipher writes the same bytes.
abbrev plain : Store → Store
plain s = record s { cipher = none }

-- The index, pruned and saved behind a blob.
abbrev Saves : Library → Store → Text → Text → VersionIndex → World → World → Type 0
Saves lib s node_id key idx w w' =
    save_index lib (index_file lib s node_id key) (pruned_index s.max_versions idx)
      (delete_blobs lib s node_id key (pruned_entries s.max_versions idx) w).1
    ≡ (ok tt, w')

module _ (lib : Library) (s : Store) (sound : IsSound lib s) (node_id key : Text) where
  same_stream :
      (k : Text) (r : Reader) (w : World)
      → write_stream (plain s) node_id k r w ≡ write_stream_raw s node_id k r w
  unfolding write_stream_raw write_stream wrapped create_blob_file
  same_stream k r w = refl

  write_stream_raw_ok :
      (k : Text) (r : Reader) (w w1 : World) (n : ℕ)
      → write_stream_raw s node_id k r w ≡ (ok n, w1)
      → (n ≡ length r.bytes) × (w1.files (resolve (resolved_path s node_id k)) ≡ some r.bytes)
  unfolding unwrapped resolved_path
  write_stream_raw_ok k r w w1 n e =
      let (count, (b, file, opens)) =
        write_stream_ok (plain s) tt node_id k r w n (ap (λ x. x.0) (same_stream k r w ∙ e)) in
      (
        count,
        ap (λ x. x.1.files (resolve (resolved_path s node_id k))) (sym (same_stream k r w ∙ e))
            ∙ file
            ∙ ap (λ (x : Reader). some x.bytes) (ok-injective opens),
      )

  -- The steps of a raw write that returned.
  record RawWritten (meta : VersionEntry) (r : Reader) (w w' : World) : Type 0 where
    idx : VersionIndex
    copied : World
    named : meta.version_id ≢ []
    loaded : (load_index lib (index_file lib s node_id key) key w).0 ≡ ok idx
    blob : copied.files (blob_at lib s sound node_id key meta.version_id) ≡ some r.bytes
    save : Saves lib s node_id key (put_version idx meta) copied w'

  write_version_raw-RawWritten :
      (meta : VersionEntry) (r : Reader) (w w' : World)
      → write_version_raw lib s node_id key meta r w ≡ (ok tt, w')
      → RawWritten meta r w w'
  unfolding write_version_raw
  write_version_raw-RawWritten meta r w w' h =
      let (u, w1, e1, h1) =
        >>=-eq-ok (guard (not (meta.version_id == [])) version_id_required) _ w tt w' h in
      let (given, same) = guard-eq-ok (not (meta.version_id == [])) version_id_required u w w1 e1 in
      let (idx, w2, e2, h2) =
        >>=-eq-ok (load_index lib (index_file lib s node_id key) key) _ w1 tt w' h1 in
      let (n, w3, e3, h3) =
        >>=-eq-ok (write_stream_raw s node_id (versioned_key key meta.version_id) r) _ w2 tt w'
          h2 in
      record {
        idx = idx;
        copied = w3;
        named = λ e. ground (arith, eq_iff meta.version_id []);
        loaded = rw same (ap (λ x. x.0) e2);
        blob = (write_stream_raw_ok (versioned_key key meta.version_id) r w2 w3 n e3).1;
        save =
            rw (prune_oldest_versions_lem lib s sound node_id key (put_version idx meta) w3) at h3;
      }

-- A raw write of a new version that returned leaves the store holding it.
pub write_version_raw-Holds :
    (lib : Library) (s : Store) (sound : IsSound lib s) (node_id key : Text) (meta : VersionEntry)
    (r : Reader) (w : World) (idx : VersionIndex) (w' : World)
    → (load_index lib (index_file lib s node_id key) key w).0 ≡ ok idx
    → write_version_raw lib s node_id key meta r w ≡ (ok tt, w')
    → AreApart lib s sound node_id key meta.version_id idx.versions
    → Holds lib s sound node_id key meta r.bytes w'
unfolding saved_index
write_version_raw-Holds lib s sound node_id key meta r w idx w' loaded ended apart =
    let done = write_version_raw-RawWritten lib s sound node_id key meta r w w' ended in
    let same : done.idx ≡ idx = cc done.loaded in
    let new =
      put_new_lem idx meta
        (AreApart-new lib s sound node_id key meta.version_id idx.versions apart) in
    let saves =
      subst (λ (x : VersionIndex). Saves lib s node_id key x done.copied w')
        (ap (λ (x : VersionIndex). put_version x meta) same ∙ new) done.save in
    committed lib s sound node_id key idx meta done.copied w' saves apart r.bytes done.named
      done.blob

-- After a raw write of a new version that returned, whatever faults it met on its way, a raw read
-- that meets none hands back the very bytes that came in, by the ID and as the latest version. The
-- libraries do what they document, the layout is content-addressed, and no version that the index
-- listed before has its blob in the same top folder.
pub write_version_raw-read_version_raw :
    (lib : Library) (s : Store) (sound : IsSound lib s) (node_id key : Text) (meta : VersionEntry)
    (r : Reader) (w : World) (idx : VersionIndex) (w' : World) (id : Text)
    → (load_index lib (index_file lib s node_id key) key w).0 ≡ ok idx
    → write_version_raw lib s node_id key meta r w ≡ (ok tt, w')
    → AreApart lib s sound node_id key meta.version_id idx.versions
    → (id ≡ []) ⊎ (id ≡ meta.version_id)
    → read_version_raw lib s node_id key id (calm w')
      ≡ (ok (pos (length r.bytes), reader_of r.bytes), calm w')
write_version_raw-read_version_raw lib s sound node_id key meta r w idx w' id loaded ended apart
      asked =
    Holds-read_version_raw lib s sound node_id key
      (write_version_raw-Holds lib s sound node_id key meta r w idx w' loaded ended apart) id asked
