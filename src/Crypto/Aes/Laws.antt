-- ===== src/Crypto/Aes/Laws.antt =====
-- The AES cipher keeps the contract of the store's `Cipher` interface.
use weave_fs.Base.{
  ℕ, zero, suc, ◌+◌, ◌≤◌, some, [], ◌∷◌, ◌++◌, Bytes, Text, take, drop, length, nat_eq, list_eq,
  ◌≡◌, ◌≢◌, inl, inr, list_beq, false, refl, arith, ap, ◌∙◌, subst, eq_iff, ltb, take-append,
  drop-append, length-append, length-take,
}
use weave_fs.Base.Bits.{bit_xor_twice}
use weave_fs.Exec.{FilePath, Error, ok, err, World, Exec, ◌>>◌}
use weave_fs.Exec.Laws.{Exec-cases}
use weave_fs.Disk.{Reader, reader_of, append, read_random, read_full, io_copy}
use weave_fs.Disk.Resolve.{resolve}
use weave_fs.Disk.Files.{append_others, append_ok, read_random-files}
use weave_fs.Store.Frame.{sealed_copy, IsLawful}
use weave_fs.Crypto.Aes.{
  Block, AesCipher, aes_cipher, magic, format_version, header_size, iv_size, xor_key_stream,
  encrypt_writer, checked, opened, decrypt_reader,
}

-- The key stream is its own inverse.
pub xor_key_stream_twice :
    (block : Block) (iv : Bytes) (i : ℕ) (b : Bytes)
    → xor_key_stream block iv i (xor_key_stream block iv i b) ≡ b
unfolding xor_key_stream
xor_key_stream_twice block iv i [] = refl
xor_key_stream_twice block iv i (b ∷ bs) =
    rw (bit_xor_twice b (block iv i), xor_key_stream_twice block iv (suc i) bs)

pub length-xor_key_stream :
    (block : Block) (iv : Bytes) (i : ℕ) (b : Bytes)
    → length (xor_key_stream block iv i b) ≡ length b
unfolding xor_key_stream
length-xor_key_stream block iv i [] = refl
length-xor_key_stream block iv i (b ∷ bs) = ap suc (length-xor_key_stream block iv (suc i) bs)

-- A blob as it lies on disk.
pub sealed : Block → Bytes → Bytes → Bytes
sealed block iv b = (magic ++ (format_version ∷ iv)) ++ xor_key_stream block iv 0 b

not_short : (n m : ℕ) → n ≤ m → ltb m n ≡ false
not_short n m h = ground arith

read_full-append : (h b : Bytes) → read_full (length h) (reader_of (h ++ b)) ≡ ok (h, reader_of b)
unfolding read_full
read_full-append h b = rw (
  not_short (length h) (length (h ++ b)) (omega (arith, length-append {0} h b)),
  take-append h b,
  drop-append h b,
)

read_header :
    (block : Block) (iv b : Bytes)
    → length iv ≡ iv_size
    → read_full header_size (reader_of (sealed block iv b))
      ≡ ok (magic ++ (format_version ∷ iv), reader_of (xor_key_stream block iv 0 b))
unfolding sealed
read_header block iv b h =
    subst
      (λ n.
        read_full n (reader_of (sealed block iv b))
        ≡ ok (magic ++ (format_version ∷ iv), reader_of (xor_key_stream block iv 0 b)))
      (omega arith)
      (read_full-append (magic ++ (format_version ∷ iv)) (xor_key_stream block iv 0 b))

checked_sealed :
    (c : AesCipher) (iv b : Bytes)
    → checked c (magic ++ (format_version ∷ iv), reader_of (xor_key_stream c.block iv 0 b))
      ≡ ok (reader_of b)
unfolding checked list_beq
checked_sealed c iv b = rw (xor_key_stream_twice c.block iv 0 b)

-- A sealed blob opens as what was sealed.
pub decrypt_reader-sealed :
    (c : AesCipher) (iv b : Bytes)
    → length iv ≡ iv_size
    → decrypt_reader c (reader_of (sealed c.block iv b)) ≡ ok (reader_of b)
unfolding decrypt_reader
decrypt_reader-sealed c iv b h = ap (opened c) (read_header c.block iv b h) ∙ checked_sealed c iv b

take-drop-take :
    (i j m : ℕ) (xs : Bytes) → i + j ≤ m → take j (drop i (take m xs)) ≡ take j (drop i xs)
take-drop-take zero zero m xs h = refl
take-drop-take zero (suc j) zero xs h = absurd (omega arith)
take-drop-take zero (suc j) (suc m) [] h = refl
take-drop-take zero (suc j) (suc m) (x ∷ xs) h =
    ap (λ l. x ∷ l) (take-drop-take zero j m xs (omega arith))
take-drop-take (suc i) j zero xs h = absurd (omega arith)
take-drop-take (suc i) j (suc m) [] h = refl
take-drop-take (suc i) j (suc m) (x ∷ xs) h = take-drop-take i j m xs (omega arith)

-- Only a blob with the whole header, its magic and its version opens, and what opens is the
-- decryption of the rest under the IV of the header.
pub decrypt_reader-eq-ok :
    (c : AesCipher) (r opens : Reader)
    → decrypt_reader c r ≡ ok opens
    → (header_size ≤ length r.bytes)
      × (take 4 r.bytes ≡ magic)
      × (take 1 (drop 4 r.bytes) ≡ format_version ∷ [])
      × (opens ≡ record r {
        bytes =
            xor_key_stream c.block (drop 5 (take header_size r.bytes)) 0 (drop header_size r.bytes);
      })
unfolding decrypt_reader read_full
decrypt_reader-eq-ok c r opens h = ground (
  arith,
  take-drop-take 0 4 header_size r.bytes (omega arith),
  take-drop-take 4 1 header_size r.bytes (omega arith),
  eq_iff (take 4 (take header_size r.bytes)) magic,
  eq_iff (take 1 (drop 4 (take header_size r.bytes))) (format_version ∷ []),
)

random_length : (n : ℕ) (w w1 : World) (b : Bytes) → read_random n w ≡ (ok b, w1) → length b ≡ n
unfolding read_random
random_length n w w1 b e = ground (arith, length-take {0} n w.entropy)

module _ (c : AesCipher) (path : Text) (r : Reader) where
  -- One sealed copy with an IV at hand: the header, then the ciphertext.
  copy_with : Bytes → Exec ℕ
  copy_with iv = do
    append path (magic ++ (format_version ∷ iv))
    io_copy (λ b. append path (xor_key_stream c.block iv 0 b)) r

  sealed_copy_with :
      (w w1 : World) (iv : Bytes)
      → read_random iv_size w ≡ (ok iv, w1)
      → sealed_copy (aes_cipher c) path r w ≡ copy_with iv w1
  unfolding sealed_copy encrypt_writer copy_with
  sealed_copy_with w w1 iv e = rw e (ground arith)

  sealed_copy_without :
      (w w1 : World) (x : Error)
      → read_random iv_size w ≡ (err x, w1)
      → sealed_copy (aes_cipher c) path r w ≡ (err x, w1)
  unfolding sealed_copy encrypt_writer
  sealed_copy_without w w1 x e = rw e

  copy_with-others :
      (iv : Bytes) (w : World) (q : FilePath)
      → resolve path ≢ q
      → (copy_with iv w).1.files q ≡ w.files q
  unfolding copy_with io_copy
  copy_with-others iv w q h =
      let header = magic ++ (format_version ∷ iv) in
      ground (
        arith,
        append_others path header w q h,
        append_others path (xor_key_stream c.block iv 0 r.bytes) (append path header w).1 q h,
      )

  copy_with_ok :
      (iv : Bytes) (w : World) (n : ℕ)
      → w.files (resolve path) ≡ some []
      → (copy_with iv w).0 ≡ ok n
      → (n ≡ length r.bytes)
        × ((copy_with iv w).1.files (resolve path) ≡ some (sealed c.block iv r.bytes))
  unfolding copy_with io_copy sealed
  copy_with_ok iv w n o h =
      let header = magic ++ (format_version ∷ iv) in
      ground (
        arith,
        append_ok path header w [] o,
        append_ok path (xor_key_stream c.block iv 0 r.bytes) (append path header w).1 header,
      )

  sealed_copy-others :
      (w : World) (q : FilePath)
      → resolve path ≢ q
      → (sealed_copy (aes_cipher c) path r w).1.files q ≡ w.files q
  sealed_copy-others w q h = elim (Exec-cases (read_random iv_size) w) [
    | inl (iv, w1, e) ↦
        rw (sealed_copy_with w w1 iv e)
          (copy_with-others iv w1 q h ∙ ap (λ f. f q) (rw e at (read_random-files iv_size w)))
    | inr (x, w1, e) ↦
        rw (sealed_copy_without w w1 x e) (ap (λ f. f q) (rw e at (read_random-files iv_size w)))
  ]

  -- A copy through the encrypting writer into an empty file that returned, whatever faults and
  -- random bytes it met: it counts the bytes of its reader, and the file decrypts to them.
  pub sealed_copy_opens :
      (w : World) (n : ℕ)
      → w.files (resolve path) ≡ some []
      → (sealed_copy (aes_cipher c) path r w).0 ≡ ok n
      → (n ≡ length r.bytes)
        × ((b : Bytes) × ((sealed_copy (aes_cipher c) path r w).1.files (resolve path) ≡ some b)
            × (decrypt_reader c (reader_of b) ≡ ok (reader_of r.bytes)))
  sealed_copy_opens w n o = elim (Exec-cases (read_random iv_size) w) [
    | inl (iv, w1, e) ↦
        let empty : w1.files (resolve path) ≡ some [] =
          ap (λ f. f (resolve path)) (rw e at (read_random-files iv_size w)) ∙ o in
        rw (sealed_copy_with w w1 iv e) λ h.
          let written = copy_with_ok iv w1 n empty h in
          (
            written.0,
            (
              sealed c.block iv r.bytes,
              written.1,
              decrypt_reader-sealed c iv r.bytes (random_length iv_size w w1 iv e),
            ),
          )
    | inr (x, w1, e) ↦ rw (sealed_copy_without w w1 x e) (λ h. cc)
  ]

-- The AES cipher keeps the contract that the store asks of a cipher: whatever faults and random
-- bytes it meets, it writes to the wrapped file alone, and a copy that returned opens as the bytes
-- that were copied.
pub aes_cipher-IsLawful : (c : AesCipher) → IsLawful (aes_cipher c)
aes_cipher-IsLawful c = record {
  sealed_copy_others = λ path r w q. sealed_copy-others c path r w q;
  sealed_copy_ok = λ path r w n. sealed_copy_opens c path r w n;
}
