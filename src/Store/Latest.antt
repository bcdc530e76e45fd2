-- ===== src/Store/Latest.antt =====
-- What the index of a key says once a version was written.
use weave_fs.Base.{Bytes, Text, ◌≡◌, arith, ap, ◌∙◌, sym, inl, inr, Option, refl}
use weave_fs.Exec.{FilePath, ok, World, calm}
use weave_fs.Exec.Laws.{ok-injective}
use weave_fs.Disk.{Reader, read_file}
use weave_fs.Disk.Resolve.{resolve}
use weave_fs.Store.Version.{VersionEntry, VersionIndex, Library, load_index}
use weave_fs.Store.Paths.{Store}
use weave_fs.Store.Paths.Laws.{tmp-ne-index}
use weave_fs.Store.Index.{push_version, pruned_index, pruned_entries}
use weave_fs.Store.Ops.{index_file, write_version, delete_blobs}
use weave_fs.Store.Frame.{save_index_lem}
use weave_fs.Store.Write.{IsSound, write_version-Written}
use weave_fs.Store.Commit.{load_index_calm}

-- What loads at all is what loads with no fault to come.
pub load_index-calm :
    (lib : Library) (path key : Text) (idx : VersionIndex) (w w1 : World)
    → w1.files ≡ w.files
    → (load_index lib path key w1).0 ≡ ok idx
    → (load_index lib path key (calm w)).0 ≡ ok idx
unfolding load_index read_file
load_index-calm lib path key idx w w1 same h =
    ground (arith, ap (λ (f : FilePath → Option Bytes). f (resolve path)) same)

-- After a write that returned the index names the new version as the latest.
pub write_version-latest :
    (lib : Library) (s : Store) (sound : IsSound lib s) (node_id key message : Text) (r : Reader)
    (w w' : World) (entry : VersionEntry) (idx : VersionIndex)
    → write_version lib s node_id key message r w ≡ (ok entry, w')
    → (load_index lib (index_file lib s node_id key) key (calm w')).0 ≡ ok idx
    → idx.latest ≡ entry.version_id
unfolding pruned_index push_version
write_version-latest lib s sound node_id key message r w w' entry idx h loaded =
    let done = write_version-Written lib s sound node_id key message r w entry w' h in
    let new = pruned_index s.max_versions (push_version done.idx entry) in
    elim (save_index_lem lib (index_file lib s node_id key) new
      (delete_blobs lib s node_id key (pruned_entries s.max_versions (push_version done.idx entry))
        done.copied).1
      (unfold index_file in tmp-ne-index lib sound.sha s.root node_id key)) [
        | inl (b, printed, ended, file) ↦
            ap (λ (x : VersionIndex). x.latest)
              (ok-injective (
                sym loaded
                ∙ ap (λ x. x.0)
                    (load_index_calm lib (index_file lib s node_id key) key new b (calm w')
                      sound.json refl (rw done.save at file) printed)))
        | inr (e, ended, file) ↦ absurd (cc (rw done.save at ended))
      ]
