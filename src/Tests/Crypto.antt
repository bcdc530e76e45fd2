-- ===== src/Tests/Crypto.antt =====
-- A sealed file, a damaged header and a key file.
use weave_fs.Base.{
  ◌≤◌, none, some, [], ◌∷◌, ◌++◌, Bytes, codes, take, drop, length, ◌≡◌, ◌≢◌, refl, arith, list_beq,
}
use weave_fs.Exec.{Result, ok, World, calm}
use weave_fs.Exec.Laws.{result_of}
use weave_fs.Strings.{split, join}
use weave_fs.Hex.{digit, encode}
use weave_fs.Disk.{
  Reader, reader_of, read_full, read_file, read_random, next_call, append, io_copy, put_file,
  mkdir_all, dir, write_file, create, rename, remove,
}
use weave_fs.Disk.Resolve.{resolve, drop_last}
use weave_fs.Disk.Files.{update_self}
use weave_fs.Fsutil.{tmp_path, write_file_atomic}
use weave_fs.Fsutil.Atomic.{Replaced, write_file_atomic_lem}
use weave_fs.Store.Frame.{sealed_copy}
use weave_fs.Crypto.Aes.{
  aes_cipher, magic, format_version, key_size, header_size, xor_key_stream, encrypt_writer,
  decrypt_reader,
}
use weave_fs.Crypto.Aes.Laws.{sealed_copy_opens, decrypt_reader-eq-ok}
use weave_fs.Crypto.Key.{create_key, load_or_create_key}
use weave_fs.Crypto.Key.Laws.{load_or_create_key_stable}
use weave_fs.Tests.Library.{small_aes, small_world}

abbrev file_world : World
file_world = put_file (resolve (codes "f")) (some []) small_world

sealed_copy_ended :
    (sealed_copy (aes_cipher small_aes) (codes "f") (reader_of (codes "hey")) file_world).0 ≡ ok 3
unfolding sealed_copy encrypt_writer read_random next_call append io_copy
sealed_copy_ended = refl

sealed_copy_opens_example :
    (3 ≡ length (codes "hey"))
    × ((b : Bytes) × ((sealed_copy
              (aes_cipher small_aes)
              (codes "f")
              (reader_of (codes "hey"))
              file_world).1.files
            (resolve (codes "f"))
          ≡ some b)
        × (decrypt_reader small_aes (reader_of b) ≡ ok (reader_of (codes "hey"))))
sealed_copy_opens_example =
    sealed_copy_opens small_aes (codes "f") (reader_of (codes "hey")) file_world 3
      (update_self (λ q. none) (resolve (codes "f")) (some [])) sealed_copy_ended

abbrev blob : Bytes
blob = (magic ++ (format_version ∷ take 16 small_world.entropy)) ++ codes "abc"

abbrev opened_blob : Reader
opened_blob =
    reader_of (xor_key_stream small_aes.block (take 16 small_world.entropy) 0 (codes "abc"))

decrypt_reader-eq-ok_example :
    (header_size ≤ length blob)
    × (take 4 blob ≡ magic)
    × (take 1 (drop 4 blob) ≡ format_version ∷ [])
    × (opened_blob ≡ record (reader_of blob) {
      bytes =
          xor_key_stream small_aes.block (drop 5 (take header_size blob)) 0 (drop header_size blob);
    })
unfolding decrypt_reader read_full list_beq
decrypt_reader-eq-ok_example = decrypt_reader-eq-ok small_aes (reader_of blob) opened_blob refl

-- No key file is there.
made : Result Bytes × World
unfolding load_or_create_key create_key read_file read_random next_call write_file_atomic mkdir_all
    dir drop_last split join resolve write_file create append rename remove list_beq encode digit
made = load_or_create_key (codes "data") small_world

made_ended : made.0 ≡ ok (take key_size small_world.entropy)
unfolding made
made_ended = refl

load_or_create_key_stable_example :
    load_or_create_key (codes "data") (calm made.1)
    ≡ (ok (take key_size small_world.entropy), calm made.1)
load_or_create_key_stable_example =
    load_or_create_key_stable (codes "data") small_world made.1 (take key_size small_world.entropy)
      (omega arith)
      (unfold made in result_of made (ok (take key_size small_world.entropy)) made_ended)

different : resolve (tmp_path (codes "f")) ≢ resolve (codes "f")
unfolding resolve split list_beq
different e = cc e

write_file_atomic_lem_example :
    Replaced
      (codes "f")
      (codes "new")
      (record file_world { faults = none ∷ none ∷ some 1 ∷ [] })
      (write_file_atomic
        (codes "f")
        (codes "new")
        (record file_world { faults = none ∷ none ∷ some 1 ∷ [] }))
write_file_atomic_lem_example =
    write_file_atomic_lem (codes "f") (codes "new")
      (record file_world { faults = none ∷ none ∷ some 1 ∷ [] }) different
