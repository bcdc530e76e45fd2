-- ===== src/Store/Rollback.antt =====
-- internal/store/store.go: what a rollback leaves as the latest version.
use weave_fs.Base.{ℤ, pos, [], Text, length, codes, ◌++◌, ◌≡◌, ◌⊎◌, ◌∙◌, sym, refl}
use weave_fs.Exec.{ok, World, calm}
use weave_fs.Disk.{Reader, reader_of}
use weave_fs.Store.Version.{VersionEntry, VersionIndex, Library, load_index}
use weave_fs.Store.Paths.{Store}
use weave_fs.Store.Ops.{index_file, write_version, read_version, rollback_to}
use weave_fs.Store.Write.{IsSound}
use weave_fs.Store.Commit.{AreApart}
use weave_fs.Store.ReadBack.{write_version-read_version}

-- A rollback whose read returned is the write of what was read.
pub rollback_to-write_version :
    (lib : Library) (s : Store) (node_id key id : Text) (w w1 : World) (size : ℤ) (old : Reader)
    → read_version lib s node_id key id w ≡ (ok (size, old), w1)
    → rollback_to lib s node_id key id w
      ≡ write_version lib s node_id key (codes "rollback to version " ++ id) old w1
unfolding rollback_to
rollback_to-write_version lib s node_id key id w w1 size old e = rw e refl

-- After a rollback that returned, whatever faults its read and its write met, a read that meets
-- none yields the content that the old version was read as, and its length, for the new ID and as
-- the latest version. The store is sound, and no version that the index listed after the rollback's
-- read has its blob in the same top folder as the new one.
pub rollback_to-read_version :
    (lib : Library) (s : Store) (sound : IsSound lib s) (node_id key id : Text) (w w1 : World)
    (size : ℤ) (old : Reader) (idx : VersionIndex) (entry : VersionEntry) (w' : World)
    (asked : Text)
    → read_version lib s node_id key id w ≡ (ok (size, old), w1)
    → (load_index lib (index_file lib s node_id key) key w1).0 ≡ ok idx
    → rollback_to lib s node_id key id w ≡ (ok entry, w')
    → AreApart lib s sound node_id key entry.version_id idx.versions
    → (asked ≡ []) ⊎ (asked ≡ entry.version_id)
    → (entry.size_bytes ≡ pos (length old.bytes))
      × (read_version lib s node_id key asked (calm w')
          ≡ (ok (entry.size_bytes, reader_of old.bytes), calm w'))
rollback_to-read_version lib s sound node_id key id w w1 size old idx entry w' asked read loaded
      ended apart which =
    write_version-read_version lib s sound node_id key (codes "rollback to version " ++ id) old w1
      idx entry w' asked loaded
      (sym (rollback_to-write_version lib s node_id key id w w1 size old read) ∙ ended) apart which
