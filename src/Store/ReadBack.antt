-- ===== src/Store/ReadBack.antt =====
-- The version that a write reports reads back whole, by its ID and as the latest.
use weave_fs.Base.{pos, [], Bytes, Text, length, ◌≡◌, ◌⊎◌, ap, ◌∙◌, subst, nat_eq, list_eq}
use weave_fs.Exec.{ok, World, calm}
use weave_fs.Disk.{Reader, reader_of}
use weave_fs.Store.Version.{VersionEntry, VersionIndex, Library, versioned_key, load_index}
use weave_fs.Store.Paths.{Store}
use weave_fs.Store.Blob.{unwrapped}
use weave_fs.Store.Ops.{index_file, write_version, read_version}
use weave_fs.Store.Frame.{write_stream_ok}
use weave_fs.Store.Write.{IsSound, write_version-Written}
use weave_fs.Store.Holds.{Holds, committed, Holds-read_version}
use weave_fs.Store.Commit.{AreApart}

-- A write that returned leaves the store holding a blob that opens as what was written.
pub write_version-Holds :
    (lib : Library) (s : Store) (sound : IsSound lib s) (node_id key message : Text) (r : Reader)
    (w : World) (idx : VersionIndex) (entry : VersionEntry) (w' : World)
    → (load_index lib (index_file lib s node_id key) key w).0 ≡ ok idx
    → write_version lib s node_id key message r w ≡ (ok entry, w')
    → AreApart lib s sound node_id key entry.version_id idx.versions
    → (entry.size_bytes ≡ pos (length r.bytes))
      × ((blob : Bytes) × Holds lib s sound node_id key entry blob w'
          × (unwrapped s.cipher (reader_of blob) ≡ ok (reader_of r.bytes)))
write_version-Holds lib s sound node_id key message r w idx entry w' loaded ended apart =
    let done = write_version-Written lib s sound node_id key message r w entry w' ended in
    let same : idx ≡ done.idx = cc done.loaded in
    let near : AreApart lib s sound node_id key entry.version_id done.idx.versions =
      subst (λ (x : VersionIndex). AreApart lib s sound node_id key entry.version_id x.versions)
        same apart in
    let (count, (blob, file, opens)) =
      write_stream_ok s sound.cipher node_id (versioned_key key entry.version_id) r done.before
        done.count (ap (λ x. x.0) done.copy) in
    (
      done.size ∙ ap pos count,
      (
        blob,
        committed lib s sound node_id key done.idx entry done.copied w' done.save near blob
            done.named (rw done.copy at file),
        opens,
      ),
    )

-- After a write that returned, whatever faults it met on its way, a read that meets none yields
-- what the writer's reader gave, and its length, for the ID that was reported and as the latest
-- version. The libraries and the cipher do what they document, the layout is content-addressed,
-- and no version that the index listed before has its blob in the same top folder.
pub write_version-read_version :
    (lib : Library) (s : Store) (sound : IsSound lib s) (node_id key message : Text) (r : Reader)
    (w : World) (idx : VersionIndex) (entry : VersionEntry) (w' : World) (id : Text)
    → (load_index lib (index_file lib s node_id key) key w).0 ≡ ok idx
    → write_version lib s node_id key message r w ≡ (ok entry, w')
    → AreApart lib s sound node_id key entry.version_id idx.versions
    → (id ≡ []) ⊎ (id ≡ entry.version_id)
    → (entry.size_bytes ≡ pos (length r.bytes))
      × (read_version lib s node_id key id (calm w')
          ≡ (ok (entry.size_bytes, reader_of r.bytes), calm w'))
write_version-read_version lib s sound node_id key message r w idx entry w' id loaded ended apart
      asked =
    let (size, (blob, holds, opens)) =
      write_version-Holds lib s sound node_id key message r w idx entry w' loaded ended apart in
    (size, Holds-read_version lib s sound node_id key holds id asked (reader_of r.bytes) opens)
