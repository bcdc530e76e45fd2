-- ===== src/Tests/Library.antt =====
-- Small stand-ins for Go's `crypto/sha1` and `encoding/json`, and a store that uses them.
use weave_fs.Base.{
  ℕ, zero, suc, ◌+◌, ◌*◌, ◌/◌, ◌%◌, ◌^◌, ℤ, pos, negsuc, none, some, List, [], ◌∷◌, ◌++◌, Bytes,
  Text, codes, take, drop, length, ◌≡◌, refl, arith, ap, ◌∙◌, take-append, drop-append,
}
use weave_fs.Exec.{World}
use weave_fs.Store.Version.{VersionEntry, VersionIndex, Library}
use weave_fs.Store.Paths.{Store, cas_path_transform}
use weave_fs.Store.Write.{IsSound}
use weave_fs.Crypto.Aes.{AesCipher, aes_cipher}
use weave_fs.Crypto.Aes.Laws.{aes_cipher-IsLawful}

-- A checksum of 24 bits.
abbrev checksum : ℕ → Text → ℕ
checksum h [] = h
checksum h (c ∷ t) = checksum ((h * 31 + c) % 2 ^ 24) t

abbrev digest : ℕ → Bytes
digest h =
    (h / 2 ^ 16 % 2 ^ 8)
    ∷ (h / 2 ^ 8 % 2 ^ 8)
    ∷ (h % 2 ^ 8)
    ∷ 0
    ∷ 0
    ∷ 0
    ∷ 0
    ∷ 0
    ∷ 0
    ∷ 0
    ∷ 0
    ∷ 0
    ∷ 0
    ∷ 0
    ∷ 0
    ∷ 0
    ∷ 0
    ∷ 0
    ∷ 0
    ∷ 0
    ∷ []

-- A text behind its length, in front of the rest.
abbrev pub put_text : Text → Bytes → Bytes
put_text t r = length t ∷ (t ++ r)

abbrev pub get_text : Bytes → Text × Bytes
get_text [] = ([], [])
get_text (n ∷ r) = (take n r, drop n r)

abbrev pub put_int : ℤ → Bytes → Bytes
put_int (pos n) r = 0 ∷ n ∷ r
put_int (negsuc n) r = 1 ∷ n ∷ r

abbrev pub get_int : Bytes → ℤ × Bytes
get_int (zero ∷ n ∷ r) = (pos n, r)
get_int (suc m ∷ n ∷ r) = (negsuc n, r)
get_int short = (pos 0, [])

abbrev pub get_number : Bytes → ℕ × Bytes
get_number [] = (0, [])
get_number (n ∷ r) = (n, r)

abbrev put_entry : VersionEntry → Bytes → Bytes
put_entry v r =
    put_text v.version_id
      (put_int v.seq (v.created_at ∷ put_int v.size_bytes (put_text v.message r)))

abbrev get_entry : Bytes → VersionEntry × Bytes
get_entry b =
    let (id, r1) = get_text b in
    let (seq, r2) = get_int r1 in
    let (at, r3) = get_number r2 in
    let (size, r4) = get_int r3 in
    let (message, r5) = get_text r4 in
    (
      record { version_id = id; seq = seq; created_at = at; size_bytes = size; message = message },
      r5,
    )

abbrev put_entries : List VersionEntry → Bytes
put_entries [] = []
put_entries (v ∷ vs) = put_entry v (put_entries vs)

abbrev get_entries : ℕ → Bytes → List VersionEntry
get_entries zero b = []
get_entries (suc n) b = let (v, r) = get_entry b in v ∷ get_entries n r

abbrev put_index : VersionIndex → Bytes
put_index idx =
    put_text idx.key (put_text idx.latest (length idx.versions ∷ put_entries idx.versions))

abbrev get_index : Bytes → VersionIndex
get_index b =
    let (key, r1) = get_text b in
    let (latest, r2) = get_text r1 in
    let (n, r3) = get_number r2 in
    record { key = key; latest = latest; versions = get_entries n r3 }

get_text-put_text : (t : Text) (r : Bytes) → get_text (put_text t r) ≡ (t, r)
get_text-put_text t r = rw (take-append t r, drop-append t r)

pub get_int-put_int : (z : ℤ) (r : Bytes) → get_int (put_int z r) ≡ (z, r)
get_int-put_int (pos n) r = refl
get_int-put_int (negsuc n) r = refl

get_entry-put_entry : (v : VersionEntry) (r : Bytes) → get_entry (put_entry v r) ≡ (v, r)
get_entry-put_entry v r =
    let end = put_text v.message r in
    let sized = v.created_at ∷ put_int v.size_bytes end in
    let numbered = put_int v.seq sized in
    rw (
      take-append v.version_id numbered,
      drop-append v.version_id numbered,
      get_int-put_int v.seq sized,
      get_int-put_int v.size_bytes end,
      take-append v.message r,
      drop-append v.message r,
    )

get_entries-put_entries : (vs : List VersionEntry) → get_entries (length vs) (put_entries vs) ≡ vs
get_entries-put_entries [] = refl
get_entries-put_entries (v ∷ vs) =
    ap (λ x. x.0 ∷ get_entries (length vs) x.1) (get_entry-put_entry v (put_entries vs))
    ∙ ap (λ l. v ∷ l) (get_entries-put_entries vs)

get_index-put_index : (idx : VersionIndex) → get_index (put_index idx) ≡ idx
get_index-put_index idx =
    let end = length idx.versions ∷ put_entries idx.versions in
    let rest = put_text idx.latest end in
    rw (
      take-append idx.key rest,
      drop-append idx.key rest,
      take-append idx.latest end,
      drop-append idx.latest end,
      get_entries-put_entries idx.versions,
    )

abbrev pub small_lib : Library
small_lib = record {
  sha1 = λ t. digest (checksum 0 t);
  json = record { marshal = λ idx. some (put_index idx); unmarshal = λ b. some (get_index b) };
}

-- A key stream that depends on the IV and the position.
abbrev pub small_aes : AesCipher
small_aes = record { block = λ iv i. (length iv + i * 7) % 256 }

abbrev pub small_store : Store
small_store = record {
  root = codes "data";
  path_transform = cas_path_transform small_lib;
  max_versions = pos 2;
  cipher = some (aes_cipher small_aes);
}

pub small_store-IsSound : IsSound small_lib small_store
small_store-IsSound = record {
  sha = record { length-sha1 = λ t. refl; sha1-AreBytes = λ t. omega arith };
  json = record { unmarshal-marshal = λ idx b e. cc (get_index-put_index idx, e) };
  cas = λ k. refl;
  cipher = aes_cipher-IsLawful small_aes;
}

abbrev sixteen : ℕ → Bytes
sixteen n = n ∷ 1 ∷ 2 ∷ 3 ∷ 4 ∷ 5 ∷ 6 ∷ 7 ∷ 8 ∷ 9 ∷ 10 ∷ 11 ∷ 12 ∷ 13 ∷ 14 ∷ 15 ∷ []

-- An empty disk, with 96 random bytes to come.
abbrev pub small_world : World
small_world = record {
  files = λ q. none;
  faults = [];
  entropy = sixteen 20 ++ sixteen 30 ++ sixteen 40 ++ sixteen 50 ++ sixteen 60 ++ sixteen 70;
  now = 1000;
}
