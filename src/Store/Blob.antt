-- ===== src/Store/Blob.antt =====
-- internal/store: writing, reading and deleting the file of one version.
use weave_fs.Base.{ℕ, Option, none, some, ◌++◌, ◌∷◌, Text}
use weave_fs.Strings.{slash}
use weave_fs.Exec.{Result, ok, Exec, pure, lift, ◌>>=◌, ◌>>◌}
use weave_fs.Disk.{
  Reader, reader_of, Writer, mkdir_all, create, append, read_file, remove_all, io_copy,
}
use weave_fs.Store.Version.{versioned_key}
use weave_fs.Store.Cipher.{Cipher}
use weave_fs.Store.Paths.{Store, node_folder, resolved_path, resolved_root_path}

-- The path that the file is created at.
unfoldable pub create_blob_file : Store → Text → Text → Exec Text
create_blob_file s node_id key = do
  let path_key = s.path_transform key
  let path_with_root = node_folder s node_id ++ (slash ∷ path_key.path_name)
  mkdir_all path_with_root
  let filepath = path_with_root ++ (slash ∷ path_key.filename)
  create filepath
  pure filepath

-- The writer that the copy goes to: the file, or the cipher's writer around it.
unfoldable pub wrapped : Option Cipher → Writer → Exec Writer
wrapped none dst = pure dst
wrapped (some c) dst = c.encrypt_writer dst

unfoldable pub write_stream : Store → Text → Text → Reader → Exec ℕ
unfolding create_blob_file wrapped
write_stream s node_id key r = do
  filepath ← create_blob_file s node_id key
  dst ← wrapped s.cipher (append filepath)
  io_copy dst r

unfoldable pub write_stream_raw : Store → Text → Text → Reader → Exec ℕ
unfolding create_blob_file
write_stream_raw s node_id key r = do
  filepath ← create_blob_file s node_id key
  io_copy (append filepath) r

-- The reader that the caller is handed: the file, or the cipher's reader around it.
unfoldable pub unwrapped : Option Cipher → Reader → Result Reader
unwrapped none r = ok r
unwrapped (some c) r = c.decrypt_reader r

-- The content is what the file holds when it is opened.
unfoldable pub read_stream : Store → Text → Text → Exec Reader
unfolding unwrapped
read_stream s node_id key = do
  b ← read_file (resolved_path s node_id key)
  lift (unwrapped s.cipher (reader_of b))

unfoldable pub delete_version_blob : Store → Text → Text → Text → Exec (Unit {0})
delete_version_blob s node_id key version_id =
    remove_all (resolved_root_path s node_id (versioned_key key version_id))
