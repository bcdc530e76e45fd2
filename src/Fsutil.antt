-- ===== src/Fsutil.antt =====
-- internal/fsutil/atomic.go: replacing a file so that no reader sees a half-written one.
pub mod Atomic
use weave_fs.Base.{◌++◌, Bytes, Text, codes}
use weave_fs.Exec.{Exec, ◌>>=◌, ◌>>◌}
use weave_fs.Disk.{dir, mkdir_all, write_file, rename, remove, on_error}
use weave_fs.Exec.{ignore}

-- The sibling that is written first.
abbrev pub tmp_path : Text → Text
tmp_path path = path ++ codes ".tmp"

unfoldable pub write_file_atomic : Text → Bytes → Exec (Unit {0})
write_file_atomic path b = do
  mkdir_all (dir path)
  write_file (tmp_path path) b
  on_error (rename (tmp_path path) path) (ignore (remove (tmp_path path)))
