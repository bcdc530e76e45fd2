-- ===== src/Store/Reads.antt =====
-- What reads leave as it was: every file.
use weave_fs.Base.{ℕ, ℤ, pos, Text, ◌≡◌, refl, ap, inl, inr, ◌∙◌, sym, length}
use weave_fs.Exec.{World, Exec, pure, lift, ◌>>=◌}
use weave_fs.Exec.Laws.{Exec-cases}
use weave_fs.Store.Index.{resolve_version}
use weave_fs.Disk.{Reader, reader_of, read_file, stat}
use weave_fs.Disk.Files.{read_file-files}
use weave_fs.Store.Version.{VersionEntry, Library, load_index, versioned_key}
use weave_fs.Store.Paths.{Store, resolved_path}
use weave_fs.Store.Frame.{load_index-files}
use weave_fs.Store.Blob.{read_stream, unwrapped}
use weave_fs.Store.Ops.{
  index_file, version_info, read_version_raw, has, list_versions, read_version,
}

-- Whatever happens in the call, the files stay.
abbrev pub KeepsFiles : {A : Type 0} → Exec A → Type 0
KeepsFiles m = (w : World) → (m w).1.files ≡ w.files

pub >>=-KeepsFiles :
    {A B : Type 0} (m : Exec A) (f : A → Exec B)
    → KeepsFiles m
    → ((a : A) → KeepsFiles (f a))
    → KeepsFiles (m >>= f)
>>=-KeepsFiles m f h g w = elim (Exec-cases m w) [
  | inl (a, w1, e) ↦ rw e (g a w1 ∙ ap (λ x. x.1.files) (sym e) ∙ h w)
  | inr (x, w1, e) ↦ rw e (ap (λ y. y.1.files) (sym e) ∙ h w)
]

module _ (lib : Library) (s : Store) where
  pub version_info-files : (node_id key id : Text) → KeepsFiles (version_info lib s node_id key id)
  unfolding version_info
  version_info-files node_id key id =
      let path = index_file lib s node_id key in
      >>=-KeepsFiles (load_index lib path key) (λ idx. lift (resolve_version idx id))
        (load_index-files lib path key) (λ idx w. refl)

  -- Opening the blob of an entry that was resolved.
  opened : Text → Text → VersionEntry → Exec (ℤ × Reader)
  opened node_id key entry = do
    let path = resolved_path s node_id (versioned_key key entry.version_id)
    size ← stat path
    b ← read_file path
    pure (pos size, reader_of b)

  opened-files : (node_id key : Text) (entry : VersionEntry) → KeepsFiles (opened node_id key entry)
  unfolding opened stat
  opened-files node_id key entry =
      let path = resolved_path s node_id (versioned_key key entry.version_id) in
      let rest : ℕ → Exec (ℤ × Reader) =
        λ size. read_file path >>= λ b. pure (pos size, reader_of b) in
      >>=-KeepsFiles (stat path) rest
        (>>=-KeepsFiles (read_file path) (λ b. pure (length b)) (read_file-files path)
          (λ b w. refl))
        (λ size.
          >>=-KeepsFiles (read_file path) (λ b. pure (pos size, reader_of b)) (read_file-files path)
            (λ b w. refl))

  pub read_version_raw-files :
      (node_id key id : Text) → KeepsFiles (read_version_raw lib s node_id key id)
  unfolding read_version_raw opened
  read_version_raw-files node_id key id =
      let path = index_file lib s node_id key in
      >>=-KeepsFiles (load_index lib path key)
        (λ idx. lift (resolve_version idx id) >>= opened node_id key)
        (load_index-files lib path key)
        (λ idx.
          >>=-KeepsFiles (lift (resolve_version idx id)) (opened node_id key) (λ w. refl)
            (opened-files node_id key))

  pub has-files : (node_id key : Text) (w : World) → (has lib s node_id key w).1.files ≡ w.files
  unfolding has
  has-files node_id key w = load_index-files lib (index_file lib s node_id key) key w

  pub list_versions-files : (node_id key : Text) → KeepsFiles (list_versions lib s node_id key)
  unfolding list_versions
  list_versions-files node_id key =
      let path = index_file lib s node_id key in
      >>=-KeepsFiles (load_index lib path key) (λ idx. pure idx.versions)
        (load_index-files lib path key) (λ idx w. refl)

  read_stream-files : (node_id key : Text) → KeepsFiles (read_stream s node_id key)
  unfolding read_stream
  read_stream-files node_id key =
      let path = resolved_path s node_id key in
      >>=-KeepsFiles (read_file path) (λ b. lift (unwrapped s.cipher (reader_of b)))
        (read_file-files path) (λ b w. refl)

  pub read_version-files : (node_id key id : Text) → KeepsFiles (read_version lib s node_id key id)
  unfolding read_version
  read_version-files node_id key id =
      let path = index_file lib s node_id key in
      let opened_as : VersionEntry → Exec (ℤ × Reader) = λ entry.
        read_stream s node_id (versioned_key key entry.version_id) >>= λ rc.
        pure (entry.size_bytes, rc) in
      >>=-KeepsFiles (load_index lib path key) (λ idx. lift (resolve_version idx id) >>= opened_as)
        (load_index-files lib path key)
        (λ idx.
          >>=-KeepsFiles (lift (resolve_version idx id)) opened_as (λ w. refl)
            (λ entry.
              >>=-KeepsFiles (read_stream s node_id (versioned_key key entry.version_id))
                (λ rc. pure (entry.size_bytes, rc))
                (read_stream-files node_id (versioned_key key entry.version_id)) (λ rc w. refl)))
