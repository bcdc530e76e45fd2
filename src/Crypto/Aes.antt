-- ===== src/Crypto/Aes.antt =====
-- internal/crypto/aes.go: AES-256 in counter mode behind a header of 21 bytes.
pub mod Laws
use Prim.Native.Nat.{bit_xor}
use weave_fs.Base.{
  ℕ, suc, ℤ, pos, Bool, Option, none, some, List, [], ◌∷◌, ◌++◌, Bytes, codes, take, drop, length,
  ◌==◌, nat_eq, list_eq, if◌then◌else◌,
}
use weave_fs.Exec.{
  Error, no_entropy, not_encrypted, bad_format, bad_key, Result, ok, err, Exec, pure, raise, ◌>>=◌,
  ◌>>◌,
}
use weave_fs.Disk.{Reader, Writer, read_random, read_full}
use weave_fs.Store.Cipher.{Cipher}

-- Byte i of the key stream that `cipher.NewCTR` makes of a block cipher and an IV.
abbrev pub Block : Type 0
Block = Bytes → ℕ → ℕ

-- `aes.NewCipher`, from Go's library.
abbrev pub AesLibrary : Type 0
AesLibrary = Bytes → Option Block

abbrev pub magic : Bytes
magic = codes "WFS1"

abbrev pub format_version : ℕ
format_version = 0x01

abbrev pub iv_size : ℕ
iv_size = 16

abbrev pub header_size : ℕ
header_size = 21

abbrev pub key_size : ℕ
key_size = 32

pub record AesCipher : Type 0 where
  pub block : Block

made : Option Block → Result AesCipher
made none = err bad_key
made (some b) = ok (record { block = b })

unfoldable pub new_aes_cipher : AesLibrary → Bytes → Result AesCipher
unfolding made
new_aes_cipher aes key = if length key == key_size then made (aes key) else err bad_key

unfoldable pub overhead : AesCipher → ℤ
overhead c = pos header_size

-- `XORKeyStream` from position i on.
unfoldable pub xor_key_stream : Block → Bytes → ℕ → Bytes → Bytes
xor_key_stream block iv i [] = []
xor_key_stream block iv i (b ∷ bs) = bit_xor b (block iv i) ∷ xor_key_stream block iv (suc i) bs

-- The writer that is returned takes one write, of all that is encrypted.
unfoldable pub encrypt_writer : AesCipher → Writer → Exec Writer
unfolding xor_key_stream
encrypt_writer c w = do
  iv ← read_random iv_size
  w (magic ++ (format_version ∷ iv))
  pure (λ b. w (xor_key_stream c.block iv 0 b))

-- The checks on a header that was read, and the reader behind it.
checked : AesCipher → Bytes × Reader → Result Reader
unfolding xor_key_stream
checked c (header, r) =
    if take 4 header == magic
    then (if take 1 (drop 4 header) == format_version ∷ []
        then ok (record r { bytes = xor_key_stream c.block (drop 5 header) 0 r.bytes })
        else err bad_format)
    else err not_encrypted

opened : AesCipher → Result (Bytes × Reader) → Result Reader
opened c (err e) = err e
opened c (ok h) = checked c h

unfoldable pub decrypt_reader : AesCipher → Reader → Result Reader
unfolding opened checked
decrypt_reader c r = opened c (read_full header_size r)

-- The cipher as the store takes it.
abbrev pub aes_cipher : AesCipher → Cipher
aes_cipher c = record {
  encrypt_writer = encrypt_writer c;
  decrypt_reader = decrypt_reader c;
  overhead = overhead c;
}
