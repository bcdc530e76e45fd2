-- ===== src/Store/Holds.antt =====
-- What it means that a store holds a version: its index names it as the latest, and its blob is
-- there. Reads that meet no fault then answer from it.
use weave_fs.Base.{
  list_beq, not, ◌==◌, nat_eq, list_eq, ℕ, ℤ, pos, true, false, Option, some, [], Bytes, Text,
  length, ◌≡◌, ◌≢◌, ◌⊎◌, refl, arith, ap, ◌∙◌, sym, inl, inr,
}
use weave_fs.Exec.{FilePath, lift, ok, World, calm}
use weave_fs.Exec.Laws.{ok-injective, some-injective, >>=-eq-ok}
use weave_fs.Disk.{Reader, reader_of, stat, read_file}
use weave_fs.Disk.Resolve.{resolve}
use weave_fs.Disk.Files.{read_file_calm, read_file_ok}
use weave_fs.Store.Version.{
  VersionEntry, VersionIndex, Library, versioned_key, save_index, load_index, IsRoundTrip,
}
use weave_fs.Store.Paths.{Store, resolved_path}
use weave_fs.Store.Index.{resolve_version, push_version, pruned_index, pruned_entries}
use weave_fs.Store.Blob.{unwrapped}
use weave_fs.Store.Ops.{
  has, is_there, index_file, delete_blobs, version_info, read_version, read_version_raw,
}
use weave_fs.Store.Frame.{load_index-files}
use weave_fs.Store.Write.{IsSound, blob_at, index_at}
use weave_fs.Store.Commit.{
  load_index_calm, read_stream_calm, AreApart, index_saved, saved_index, blob_untouched, saved_lem,
}

pub stat_calm :
    (path : Text) (w : World) (b : Bytes)
    → w.faults ≡ []
    → w.files (resolve path) ≡ some b
    → stat path w ≡ (ok (length b), w)
unfolding stat
stat_calm path w b calm file = rw (read_file_calm path w b calm file)

stat_ok :
    (path : Text) (w w1 : World) (n : ℕ)
    → stat path w ≡ (ok n, w1)
    → (b : Bytes) × (w.files (resolve path) ≡ some b) × (n ≡ length b)
unfolding stat
stat_ok path w w1 n e =
    let (b, w2, e2, h2) = >>=-eq-ok (read_file path) _ w n w1 e in
    (b, read_file_ok path w w2 b e2, cc (ap (λ x. x.0) h2))

-- An index that loaded from a file with a printed index is that index.
load_index_printed :
    (lib : Library) (path key : Text) (idx got : VersionIndex) (b : Bytes) (w w1 : World)
    → IsRoundTrip lib.json
    → w.files (resolve path) ≡ some b
    → lib.json.marshal idx ≡ some b
    → load_index lib path key w ≡ (ok got, w1)
    → got ≡ idx
unfolding load_index read_file
load_index_printed lib path key idx got b w w1 trip file printed h =
    ground (arith, trip.unmarshal-marshal idx b printed)

stat-files : (path : Text) (w : World) → (stat path w).1.files ≡ w.files
unfolding stat read_file
stat-files path w = ground arith

-- An index that resolves the latest version names one.
named_latest :
    (idx : VersionIndex) (entry : VersionEntry)
    → resolve_version idx [] ≡ ok entry
    → not (idx.latest == []) ≡ true
unfolding resolve_version list_beq
named_latest idx entry h = ground arith

-- A raw read that returned: which version it found, and that its blob came whole.
pub record RawRead (lib : Library) (s : Store) (node_id key id : Text) (w : World) (n : ℤ)
    (r : Reader) : Type 0 where
  pub idx : VersionIndex
  pub behind : World
  pub loaded : load_index lib (index_file lib s node_id key) key w ≡ (ok idx, behind)
  pub entry : VersionEntry
  pub resolved : resolve_version idx id ≡ ok entry
  pub file :
      w.files (resolve (resolved_path s node_id (versioned_key key entry.version_id)))
      ≡ some r.bytes
  pub count : n ≡ pos (length r.bytes)
  pub whole : r.fails ≡ false

raw_read :
    (lib : Library) (s : Store) (node_id key id : Text) (w w1 w2 : World) (idx : VersionIndex)
    (entry : VersionEntry) (size : ℕ) (b : Bytes) (n : ℤ) (r : Reader)
    → load_index lib (index_file lib s node_id key) key w ≡ (ok idx, w1)
    → resolve_version idx id ≡ ok entry
    → stat (resolved_path s node_id (versioned_key key entry.version_id)) w1 ≡ (ok size, w2)
    → w2.files (resolve (resolved_path s node_id (versioned_key key entry.version_id))) ≡ some b
    → n ≡ pos size
    → r ≡ reader_of b
    → RawRead lib s node_id key id w n r
raw_read lib s node_id key id w w1 w2 idx entry size b n r loaded found sized here number got =
    let path = resolved_path s node_id (versioned_key key entry.version_id) in
    let (b1, file, count) = stat_ok path w1 w2 size sized in
    let same : w1.files (resolve path) ≡ w2.files (resolve path) =
      ap (λ (f : FilePath → Option Bytes). f (resolve path))
        (sym (rw sized at (stat-files path w1))) in
    let first : w.files (resolve path) ≡ w1.files (resolve path) =
      ap (λ (f : FilePath → Option Bytes). f (resolve path))
        (sym (rw loaded at (load_index-files lib (index_file lib s node_id key) key w))) in
    record {
      idx = idx;
      behind = w1;
      loaded = loaded;
      entry = entry;
      resolved = found;
      file = first ∙ same ∙ here ∙ ap (λ (x : Reader). some x.bytes) (sym got);
      count =
          number
          ∙ ap pos (count ∙ ap length (some-injective (sym file ∙ same ∙ here)))
          ∙ ap (λ (x : Reader). pos (length x.bytes)) (sym got);
      whole = ap (λ (x : Reader). x.fails) got;
    }

pub read_version_raw-RawRead :
    (lib : Library) (s : Store) (node_id key id : Text) (w w' : World) (n : ℤ) (r : Reader)
    → read_version_raw lib s node_id key id w ≡ (ok (n, r), w')
    → RawRead lib s node_id key id w n r
unfolding read_version_raw
read_version_raw-RawRead lib s node_id key id w w' n r h =
    let (idx, w1, e1, h1) =
      >>=-eq-ok (load_index lib (index_file lib s node_id key) key) _ w (n, r) w' h in
    let (entry, w2, e2, h2) = >>=-eq-ok (lift (resolve_version idx id)) _ w1 (n, r) w' h1 in
    let path = resolved_path s node_id (versioned_key key entry.version_id) in
    let (size, w3, e3, h3) = >>=-eq-ok (stat path) _ w2 (n, r) w' h2 in
    let (b, w4, e4, h4) = >>=-eq-ok (read_file path) _ w3 (n, r) w' h3 in
    let got : ◌≡◌ {A = ℤ × Reader} (pos size, reader_of b) (n, r) =
      ok-injective (ap (λ x. x.0) h4) in
    raw_read lib s node_id key id w w2 w3 idx entry size b n r (e1 ∙ ap (λ x. (ok idx, x.1)) e2)
      (ap (λ x. x.0) e2) e3 (read_file_ok path w3 w4 b e4) (ap (λ x. x.0) (sym got))
      (ap (λ x. x.1) (sym got))

module _ (lib : Library) (s : Store) (sound : IsSound lib s) (node_id key : Text) where
  pub record Holds (entry : VersionEntry) (blob : Bytes) (w : World) : Type 0 where
    pub idx : VersionIndex
    pub text : Bytes
    pub printed : lib.json.marshal idx ≡ some text
    pub index : w.files (index_at lib s sound node_id key) ≡ some text
    pub latest : resolve_version idx [] ≡ ok entry
    pub listed : resolve_version idx entry.version_id ≡ ok entry
    pub stored : w.files (blob_at lib s sound node_id key entry.version_id) ≡ some blob

  -- What is held depends on the files alone.
  pub Holds-same :
      (entry : VersionEntry) (blob : Bytes) (w w' : World)
      → w'.files ≡ w.files
      → Holds entry blob w
      → Holds entry blob w'
  Holds-same entry blob w w' same h = record {
    idx = h.idx;
    text = h.text;
    printed = h.printed;
    index =
        ap (λ (f : FilePath → Option Bytes). f (index_at lib s sound node_id key)) same ∙ h.index;
    latest = h.latest;
    listed = h.listed;
    stored =
        ap (λ (f : FilePath → Option Bytes). f (blob_at lib s sound node_id key entry.version_id))
          same
        ∙ h.stored;
  }

  module _ {entry : VersionEntry} {blob : Bytes} {w : World} (h : Holds entry blob w) (id : Text)
      (asked : (id ≡ []) ⊎ (id ≡ entry.version_id)) where
    asked_for : resolve_version h.idx id ≡ ok entry
    asked_for = elim asked [ inl e ↦ rw e h.latest | inr e ↦ rw e h.listed ]

    pub Holds-has : has lib s node_id key (calm w) ≡ (true, calm w)
    unfolding has is_there
    Holds-has =
        rw
          (load_index_calm lib (index_file lib s node_id key) key h.idx h.text (calm w) sound.json
            refl h.index h.printed)
          (ap (λ b. (b, calm w)) (named_latest h.idx entry h.latest))

    pub Holds-version_info : version_info lib s node_id key id (calm w) ≡ (ok entry, calm w)
    unfolding version_info
    Holds-version_info = rw (
      load_index_calm lib (index_file lib s node_id key) key h.idx h.text (calm w) sound.json refl
          h.index h.printed,
      asked_for,
    )

    pub Holds-read_version_raw :
        read_version_raw lib s node_id key id (calm w)
        ≡ (ok (pos (length blob), reader_of blob), calm w)
    unfolding read_version_raw
    Holds-read_version_raw = rw (
      load_index_calm lib (index_file lib s node_id key) key h.idx h.text (calm w) sound.json refl
          h.index h.printed,
      asked_for,
      stat_calm (resolved_path s node_id (versioned_key key entry.version_id)) (calm w) blob refl
          h.stored,
      read_file_calm (resolved_path s node_id (versioned_key key entry.version_id)) (calm w) blob
          refl h.stored,
    )

    pub Holds-read_version :
        (content : Reader)
        → unwrapped s.cipher (reader_of blob) ≡ ok content
        → read_version lib s node_id key id (calm w) ≡ (ok (entry.size_bytes, content), calm w)
    unfolding read_version
    Holds-read_version content opens = rw (
      load_index_calm lib (index_file lib s node_id key) key h.idx h.text (calm w) sound.json refl
          h.index h.printed,
      asked_for,
      read_stream_calm s node_id (versioned_key key entry.version_id) blob content (calm w) refl
          h.stored opens,
    )

    -- A raw read that returned, whatever faults it met, handed out the blob.
    pub Holds-blob :
        (n : ℤ) (r : Reader) (w' : World)
        → read_version_raw lib s node_id key id w ≡ (ok (n, r), w')
        → r.bytes ≡ blob
    Holds-blob n r w' e =
        let got = read_version_raw-RawRead lib s node_id key id w w' n r e in
        let same =
          load_index_printed lib (index_file lib s node_id key) key h.idx got.idx h.text w
            got.behind sound.json h.index h.printed got.loaded in
        let found : got.entry ≡ entry =
          ok-injective
            (sym got.resolved ∙ ap (λ (x : VersionIndex). resolve_version x id) same ∙ asked_for) in
        some-injective (
          sym got.file
          ∙ ap (λ (x : VersionEntry). w.files (blob_at lib s sound node_id key x.version_id)) found
          ∙ h.stored)

  -- A new entry whose blob is there, pruned and saved.
  pub committed :
      (idx : VersionIndex) (entry : VersionEntry) (copied w' : World)
      → (save : save_index lib
            (index_file lib s node_id key)
            (pruned_index s.max_versions (push_version idx entry))
            (delete_blobs lib s node_id key
              (pruned_entries s.max_versions (push_version idx entry))
              copied).1
          ≡ (ok tt, w'))
      → AreApart lib s sound node_id key entry.version_id idx.versions
      → (blob : Bytes) → entry.version_id ≢ []
      → copied.files (blob_at lib s sound node_id key entry.version_id) ≡ some blob
      → Holds entry blob w'
  unfolding saved_index
  committed idx entry copied w' save apart blob named there =
      let file = index_saved lib s sound node_id key idx entry copied w' save apart in
      record {
        idx = pruned_index s.max_versions (push_version idx entry);
        text = file.0;
        printed = file.1;
        index = file.2;
        latest =
            saved_lem lib s sound node_id key idx entry copied w' save apart [] named (inl refl);
        listed =
            saved_lem lib s sound node_id key idx entry copied w' save apart entry.version_id named
              (inr refl);
        stored = blob_untouched lib s sound node_id key idx entry copied w' save apart ∙ there;
      }
