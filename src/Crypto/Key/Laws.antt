-- ===== src/Crypto/Key/Laws.antt =====
-- A node keeps its key: the file that is made reads back, and one that is there is not replaced.
use weave_fs.Base.{All-take}
use weave_fs.Base.{
  ℕ, ◌<◌, true, some, [], ◌∷◌, ◌++◌, Bytes, Text, All, take, length, nat_eq, ◌≡◌, ◌≢◌, inl, inr,
  refl, arith, ap, ◌∙◌, sym, subst, length-take, append-nil,
}
use weave_fs.Strings.{trim_space, is_space}
use weave_fs.Strings.Laws.{HasNoSpace, trim_space-append}
use weave_fs.Hex
use weave_fs.Hex.Laws.{AreBytes, IsHexDigit, decode-encode, encode-IsHexDigit, length-encode}
use weave_fs.Exec.{Error, Result, ok, err, World, calm, not_exist}
use weave_fs.Exec.Laws.{>>=-eq-ok, >>-pure-eq-ok, Exec-cases}
use weave_fs.Disk.{read_file, read_random}
use weave_fs.Disk.Resolve.{resolve}
use weave_fs.Disk.Files.{read_file_calm, read_file_ok, read_file-files, read_file-entropy}
use weave_fs.Fsutil.{tmp_path, write_file_atomic}
use weave_fs.Fsutil.Atomic.{write_file_atomic_lem, tmp_path-ne}
use weave_fs.Crypto.Aes.{key_size}
use weave_fs.Crypto.Key.{
  key_file_name, key_path, decode_key, create_key, after_read, load_or_create_key,
}

hex-HasNoSpace : (t : Text) → All IsHexDigit t → HasNoSpace t
unfolding is_space
hex-HasNoSpace [] h = tt
hex-HasNoSpace (c ∷ t) h = (ground (arith, h.0), hex-HasNoSpace t h.1)

trim_hex :
    (t space : Text)
    → 0 < length t
    → All IsHexDigit t
    → All (λ c. is_space c ≡ true) space
    → trim_space (t ++ space) ≡ t
trim_hex [] space h g k = absurd (omega arith)
trim_hex (c ∷ t) space h g k = trim_space-append c t space (hex-HasNoSpace (c ∷ t) g) k

-- The hex text of a key of 32 bytes, each below 256, with ASCII spaces behind it or none, decodes
-- to the key.
decode_key-encode :
    (key space : Bytes)
    → AreBytes key
    → length key ≡ key_size
    → All (λ c. is_space c ≡ true) space
    → decode_key (Hex.encode key ++ space) ≡ ok key
unfolding decode_key
decode_key-encode key space h size k = rw (
  trim_hex (Hex.encode key) space (omega (arith, length-encode key)) (encode-IsHexDigit key h) k,
  decode-encode key h,
  size,
)

-- A key that decodes has 32 bytes.
pub decode_key_size : (b key : Bytes) → decode_key b ≡ ok key → length key ≡ key_size
unfolding decode_key
decode_key_size b key h = ground (arith)

key_path-ne :
    (data_dir : Text) → resolve (tmp_path (key_path data_dir)) ≢ resolve (key_path data_dir)
key_path-ne data_dir = tmp_path-ne data_dir key_file_name (ground arith) (omega arith)

-- A load that finds the file and no fault decodes it.
load_calm :
    (data_dir : Text) (w : World) (b key : Bytes)
    → w.files (resolve (key_path data_dir)) ≡ some b
    → decode_key b ≡ ok key
    → load_or_create_key data_dir (calm w) ≡ (ok key, calm w)
unfolding load_or_create_key
load_calm data_dir w b key file decodes =
    rw (read_file_calm (key_path data_dir) (calm w) b refl file, decodes)

random_taken :
    (n : ℕ) (w w1 : World) (b : Bytes)
    → read_random n w ≡ (ok b, w1)
    → (take n w.entropy ≡ b) × (length b ≡ n)
unfolding read_random
random_taken n w w1 b e = ground (arith, length-take {0} n w.entropy)

random_bytes :
    (n : ℕ) (w w1 : World) (b : Bytes)
    → AreBytes w.entropy
    → read_random n w ≡ (ok b, w1)
    → AreBytes b × (length b ≡ n)
random_bytes n w w1 b h e =
    let (same, size) = random_taken n w w1 b e in
    (subst AreBytes same (All-take (λ (x : ℕ). x < 256) n w.entropy h), size)

saved_key :
    (data_dir : Text) (w w1 w' : World) (k key : Bytes)
    → AreBytes w.entropy
    → read_random key_size w ≡ (ok k, w1)
    → k ≡ key
    → write_file_atomic (key_path data_dir) (Hex.encode k) w1 ≡ (ok tt, w')
    → (w'.files (resolve (key_path data_dir)) ≡ some (Hex.encode key))
      × AreBytes key
      × (length key ≡ key_size)
saved_key data_dir w w1 w' k key bytes e1 same e2 =
    let (are, size) = random_bytes key_size w w1 k bytes e1 in
    subst
      (λ x.
        (w'.files (resolve (key_path data_dir)) ≡ some (Hex.encode x))
        × AreBytes x
        × (length x ≡ key_size))
      same
      (elim (write_file_atomic_lem (key_path data_dir) (Hex.encode k) w1 (key_path-ne data_dir)) [
        | inl done ↦ (rw e2 at done.1, are, size)
        | inr (x, failed, _) ↦ absurd (cc (rw e2 at failed))
      ])

create_key_saves :
    (data_dir : Text) (w w' : World) (key : Bytes)
    → AreBytes w.entropy
    → create_key (key_path data_dir) w ≡ (ok key, w')
    → (w'.files (resolve (key_path data_dir)) ≡ some (Hex.encode key))
      × AreBytes key
      × (length key ≡ key_size)
unfolding create_key
create_key_saves data_dir w w' key bytes h =
    let (k, w1, e1, h1) = >>=-eq-ok (read_random key_size) _ w key w' h in
    let (same, e2) =
      >>-pure-eq-ok (write_file_atomic (key_path data_dir) (Hex.encode k)) k w1 key w' h1 in
    saved_key data_dir w w1 w' k key bytes e1 same e2

after_read_fresh :
    (data_dir : Text) (w w' : World) (e : Error) (key : Bytes)
    → after_read (key_path data_dir) (err e) w ≡ (ok key, w')
    → create_key (key_path data_dir) w ≡ (ok key, w')
unfolding after_read
after_read_fresh data_dir w w' not_exist key h = h
after_read_fresh data_dir w w' _ key h = cc

load_found :
    (data_dir : Text) (w w1 : World) (b : Bytes)
    → read_file (key_path data_dir) w ≡ (ok b, w1)
    → (decode_key b, w1) ≡ load_or_create_key data_dir w
unfolding load_or_create_key
load_found data_dir w w1 b e = sym (ap (λ x. after_read (key_path data_dir) x.0 x.1) e)

load_missing :
    (data_dir : Text) (w w1 : World) (x : Error)
    → read_file (key_path data_dir) w ≡ (err x, w1)
    → after_read (key_path data_dir) (err x) w1 ≡ load_or_create_key data_dir w
unfolding load_or_create_key
load_missing data_dir w w1 x e = sym (ap (λ y. after_read (key_path data_dir) y.0 y.1) e)

loaded_again :
    (data_dir : Text) (w w1 w' : World) (b key : Bytes)
    → read_file (key_path data_dir) w ≡ (ok b, w1)
    → ◌≡◌ {A = Result Bytes × World} (decode_key b, w1) (ok key, w')
    → load_or_create_key data_dir (calm w') ≡ (ok key, calm w')
loaded_again data_dir w w1 w' b key e h =
    load_calm data_dir w' b key
      (ap (λ y. y.1.files (resolve (key_path data_dir))) (sym h)
        ∙ ap (λ f. f (resolve (key_path data_dir)))
            (rw e at (read_file-files (key_path data_dir) w))
        ∙ read_file_ok (key_path data_dir) w w1 b e)
      (ap (λ y. y.0) h)

-- A key that was loaded or made, whatever faults came, loads again as the same key when no fault
-- comes: a node does not lose its key to a restart. The random source gives numbers below 256.
pub load_or_create_key_stable :
    (data_dir : Text) (w w' : World) (key : Bytes)
    → AreBytes w.entropy
    → load_or_create_key data_dir w ≡ (ok key, w')
    → load_or_create_key data_dir (calm w') ≡ (ok key, calm w')
load_or_create_key_stable data_dir w w' key bytes h =
    elim (Exec-cases (read_file (key_path data_dir)) w) [
      | inl (b, w1, e) ↦ loaded_again data_dir w w1 w' b key e (load_found data_dir w w1 b e ∙ h)
      | inr (x, w1, e) ↦
          let made = after_read_fresh data_dir w1 w' x key (load_missing data_dir w w1 x e ∙ h) in
          let (file, are, size) =
            create_key_saves data_dir w1 w' key
              (subst AreBytes (sym (rw e at (read_file-entropy (key_path data_dir) w))) bytes)
              made in
          load_calm data_dir w' (Hex.encode key) key file
            (rw append-nil at (decode_key-encode key [] are size tt))
    ]
