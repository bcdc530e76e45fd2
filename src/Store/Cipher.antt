-- ===== src/Store/Cipher.antt =====
-- internal/store/store.go: the interface of a cipher, as the store consumes it.
use weave_fs.Base.{ℤ}
use weave_fs.Exec.{Exec, Result}
use weave_fs.Disk.{Reader, Writer}

pub record Cipher : Type 0 where
  pub encrypt_writer : Writer → Exec Writer
  pub decrypt_reader : Reader → Result Reader
  pub overhead : ℤ
