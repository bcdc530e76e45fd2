-- ===== src/Store/Frame.antt =====
-- Which files each part of a store operation leaves alone, whatever faults it meets.
use weave_fs.Base.{
  ℕ, Option, none, some, [], ◌∷◌, ◌++◌, Bytes, Text, length, ◌≡◌, ◌≢◌, ◌⊎◌, refl, arith, ap, ◌∙◌,
  append_assoc, Option-cases, inl, inr,
}
use weave_fs.Strings.{slash}
use weave_fs.Exec.{FilePath, Error, Result, ok, err, World, Exec, marshal_failed, ◌>>=◌}
use weave_fs.Exec.Laws.{Exec-cases}
use weave_fs.Disk.{Reader, reader_of, io_copy, append, mkdir_all, read_random}
use weave_fs.Disk.Resolve.{resolve}
use weave_fs.Disk.Files.{
  read_file-files, mkdir_all-files, create_others, create_ok, append_others, append_ok,
  read_random-files,
}
use weave_fs.Fsutil.{tmp_path, write_file_atomic}
use weave_fs.Fsutil.Atomic.{write_file_atomic_lem, write_file_atomic_others}
use weave_fs.Store.Version.{VersionIndex, Library, load_index, save_index, new_uuid, format_uuid}
use weave_fs.Store.Cipher.{Cipher}
use weave_fs.Store.Paths.{Store, node_folder, resolved_path, full_path}
use weave_fs.Store.Blob.{create_blob_file, write_stream, wrapped, unwrapped}

pub load_index-files :
    (lib : Library) (path key : Text) (w : World) → (load_index lib path key w).1.files ≡ w.files
unfolding load_index
load_index-files lib path key w = read_file-files path w

pub new_uuid-files : (w : World) → (new_uuid w).1.files ≡ w.files
unfolding new_uuid
new_uuid-files w = ground (arith, read_random-files 16 w)

append_cons-ne-nil : (t u : Text) (c : ℕ) → t ++ (c ∷ u) ≢ []
append_cons-ne-nil [] u c = λ e. cc
append_cons-ne-nil (d ∷ t) u c = λ e. cc

format_uuid-ne-nil : (b : Bytes) → format_uuid b ≢ []
unfolding format_uuid
format_uuid-ne-nil b = append_cons-ne-nil _ _ _

-- A version ID is never the empty text.
pub new_uuid-ne-nil : (w w' : World) (id : Text) → new_uuid w ≡ (ok id, w') → id ≢ []
unfolding new_uuid
new_uuid-ne-nil w w' id e h = elim (Exec-cases (read_random 16) w) [
  | inl (b, w1, r) ↦ format_uuid-ne-nil b (cc (rw (new_uuid, r) at e, h))
  | inr (x, w1, r) ↦ absurd (ground (arith, rw (new_uuid, r) at e))
]

-- Printed, the index is a file that is replaced.
pub save_index_printed :
    (lib : Library) (path : Text) (idx : VersionIndex) (w : World) (b : Bytes)
    → lib.json.marshal idx ≡ some b
    → save_index lib path idx w ≡ write_file_atomic path b w
unfolding save_index write_file_atomic
save_index_printed lib path idx w b e = rw e

save_index_unprinted :
    (lib : Library) (path : Text) (idx : VersionIndex) (w : World)
    → lib.json.marshal idx ≡ none
    → save_index lib path idx w ≡ (err marshal_failed, w)
unfolding save_index
save_index_unprinted lib path idx w e = rw e

-- How a save ends: the printed index is the file, or there is an error and the file is as it was.
abbrev pub Saved : Library → Text → VersionIndex → World → Result (Unit {0}) × World → Type 0
Saved lib path idx w (r, w') =
    ((b : Bytes) × (lib.json.marshal idx ≡ some b)
      × (r ≡ ok tt)
      × (w'.files (resolve path) ≡ some b))
    ⊎ ((e : Error) × (r ≡ err e) × (w'.files (resolve path) ≡ w.files (resolve path)))

pub save_index_lem :
    (lib : Library) (path : Text) (idx : VersionIndex) (w : World)
    → resolve (tmp_path path) ≢ resolve path
    → Saved lib path idx w (save_index lib path idx w)
save_index_lem lib path idx w h = elim (Option-cases (lib.json.marshal idx)) [
  | inl e ↦ rw (save_index_unprinted lib path idx w e) (inr (marshal_failed, refl, refl))
  | inr (b, e) ↦
      rw (save_index_printed lib path idx w b e)
        (elim (write_file_atomic_lem path b w h) [ inl r ↦ inl (b, e, r.0, r.1) | inr r ↦ inr r ])
]

pub save_index_others :
    (lib : Library) (path : Text) (idx : VersionIndex) (w : World) (q : FilePath)
    → resolve (tmp_path path) ≢ q
    → resolve path ≢ q
    → (save_index lib path idx w).1.files q ≡ w.files q
save_index_others lib path idx w q h g = elim (Option-cases (lib.json.marshal idx)) [
  | inl e ↦ rw (save_index_unprinted lib path idx w e)
  | inr (b, e) ↦
      rw (save_index_printed lib path idx w b e) (write_file_atomic_others path b w q h g)
]

module _ (s : Store) (node_id key : Text) where
  blob_path :
      (node_folder s node_id ++ (slash ∷ (s.path_transform key).path_name))
        ++ (slash ∷ (s.path_transform key).filename)
      ≡ resolved_path s node_id key
  unfolding resolved_path full_path
  blob_path = append_assoc (node_folder s node_id) _ _

  -- The file of a blob is created, empty, where reads look for it.
  pub create_blob_file_ok :
      (w : World) (p : Text)
      → (create_blob_file s node_id key w).0 ≡ ok p
      → (p ≡ resolved_path s node_id key)
        × ((create_blob_file s node_id key w).1.files (resolve (resolved_path s node_id key))
            ≡ some [])
  unfolding create_blob_file
  create_blob_file_ok w p =
      let folder = node_folder s node_id ++ (slash ∷ (s.path_transform key).path_name) in
      rw blob_path
        (λ h. ground (arith, create_ok (resolved_path s node_id key) (mkdir_all folder w).1))

  -- Its creation changes no other file.
  pub create_blob_file-others :
      (w : World) (q : FilePath)
      → resolve (resolved_path s node_id key) ≢ q
      → (create_blob_file s node_id key w).1.files q ≡ w.files q
  unfolding create_blob_file
  create_blob_file-others w q h =
      let folder = node_folder s node_id ++ (slash ∷ (s.path_transform key).path_name) in
      rw blob_path (
        ground (
          arith,
          mkdir_all-files folder w,
          create_others (resolved_path s node_id key) (mkdir_all folder w).1 q h,
        ))

-- What Go's `io.Writer` contract and the store ask of a cipher: it writes to nothing but the
-- writer that it wraps, and its reader gives back what went through its writer.
unfoldable pub sealed_copy : Cipher → Text → Reader → Exec ℕ
sealed_copy c path r = do dst ← c.encrypt_writer (append path); io_copy dst r

pub record IsLawful (c : Cipher) : Type 0 where
  pub sealed_copy_others :
      (path : Text) (r : Reader) (w : World) (q : FilePath)
      → resolve path ≢ q
      → (sealed_copy c path r w).1.files q ≡ w.files q
  pub sealed_copy_ok :
      (path : Text) (r : Reader) (w : World) (n : ℕ)
      → w.files (resolve path) ≡ some []
      → (sealed_copy c path r w).0 ≡ ok n
      → (n ≡ length r.bytes)
        × ((b : Bytes) × ((sealed_copy c path r w).1.files (resolve path) ≡ some b)
            × (c.decrypt_reader (reader_of b) ≡ ok (reader_of r.bytes)))

-- Of a store with no cipher nothing is asked.
abbrev pub CipherIsLawful : Option Cipher → Type 0
CipherIsLawful none = Unit
CipherIsLawful (some c) = IsLawful c

copy_others :
    (path : Text) (r : Reader) (w : World) (q : FilePath)
    → resolve path ≢ q
    → (io_copy (append path) r w).1.files q ≡ w.files q
unfolding io_copy
copy_others path r w q h = ground (arith, append_others path r.bytes w q h)

copy_ok :
    (path : Text) (r : Reader) (w : World) (n : ℕ)
    → w.files (resolve path) ≡ some []
    → (io_copy (append path) r w).0 ≡ ok n
    → (n ≡ length r.bytes) × ((io_copy (append path) r w).1.files (resolve path) ≡ some r.bytes)
unfolding io_copy
copy_ok path r w n o h = ground (arith, append_ok path r.bytes w [] o)

-- The copy into the file, through the cipher if there is one.
pub filled : Option Cipher → Text → Reader → Exec ℕ
filled c path r = do dst ← wrapped c (append path); io_copy dst r

filled_others :
    (c : Option Cipher)
    → CipherIsLawful c
    → (path : Text) (r : Reader) (w : World) (q : FilePath) → resolve path ≢ q
    → (filled c path r w).1.files q ≡ w.files q
unfolding filled wrapped sealed_copy
filled_others none l path r w q h = copy_others path r w q h
filled_others (some c) l path r w q h = l.sealed_copy_others path r w q h

filled_ok :
    (c : Option Cipher)
    → CipherIsLawful c
    → (path : Text) (r : Reader) (w : World) (n : ℕ) → w.files (resolve path) ≡ some []
    → (filled c path r w).0 ≡ ok n
    → (n ≡ length r.bytes)
      × ((b : Bytes) × ((filled c path r w).1.files (resolve path) ≡ some b)
          × (unwrapped c (reader_of b) ≡ ok (reader_of r.bytes)))
unfolding filled wrapped sealed_copy unwrapped
filled_ok none l path r w n o h = let k = copy_ok path r w n o h in (k.0, (r.bytes, k.1, refl))
filled_ok (some c) l path r w n o h = l.sealed_copy_ok path r w n o h

module _ (s : Store) (lawful : CipherIsLawful s.cipher) (node_id key : Text) (r : Reader) where
  write_stream-filled :
      (w w1 : World) (p : Text)
      → create_blob_file s node_id key w ≡ (ok p, w1)
      → write_stream s node_id key r w ≡ filled s.cipher p r w1
  unfolding write_stream filled
  write_stream-filled w w1 p e = rw e

  write_stream_uncreated :
      (w w1 : World) (x : Error)
      → create_blob_file s node_id key w ≡ (err x, w1)
      → write_stream s node_id key r w ≡ (err x, w1)
  unfolding write_stream
  write_stream_uncreated w w1 x e = rw e

  -- What a creation that returned has done.
  created :
      (w w1 : World) (p : Text)
      → create_blob_file s node_id key w ≡ (ok p, w1)
      → (p ≡ resolved_path s node_id key)
        × (w1.files (resolve (resolved_path s node_id key)) ≡ some [])
  created w w1 p e = rw e at (create_blob_file_ok s node_id key w p (ap (λ x. x.0) e))

  -- Writing a blob changes no other file.
  pub write_stream-others :
      (w : World) (q : FilePath)
      → resolve (resolved_path s node_id key) ≢ q
      → (write_stream s node_id key r w).1.files q ≡ w.files q
  write_stream-others w q h = elim (Exec-cases (create_blob_file s node_id key) w) [
    | inl (p, w1, e) ↦
        rw (write_stream-filled w w1 p e, (created w w1 p e).0)
          (filled_others s.cipher lawful (resolved_path s node_id key) r w1 q h
            ∙ (rw e at (create_blob_file-others s node_id key w q h)))
    | inr (x, w1, e) ↦
        rw (write_stream_uncreated w w1 x e) (rw e at (create_blob_file-others s node_id key w q h))
  ]

  -- A blob that was written holds what the reader gave, sealed.
  pub write_stream_ok :
      (w : World) (n : ℕ)
      → (write_stream s node_id key r w).0 ≡ ok n
      → (n ≡ length r.bytes)
        × ((b : Bytes) × ((write_stream s node_id key r w).1.files
                (resolve (resolved_path s node_id key))
              ≡ some b)
            × (unwrapped s.cipher (reader_of b) ≡ ok (reader_of r.bytes)))
  write_stream_ok w n = elim (Exec-cases (create_blob_file s node_id key) w) [
    | inl (p, w1, e) ↦
        rw (write_stream-filled w w1 p e, (created w w1 p e).0)
          (filled_ok s.cipher lawful (resolved_path s node_id key) r w1 n (created w w1 p e).1)
    | inr (x, w1, e) ↦ rw (write_stream_uncreated w w1 x e) (λ h. cc)
  ]
