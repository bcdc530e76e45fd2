-- ===== src/Store/Version.antt =====
-- internal/store/version.go: the version index of a key, and its file.
use Prim.Native.Nat.{bit_and, bit_or}
use weave_fs.Base.{
  ℕ, ℤ, pos, add_one, Bool, true, false, Option, none, some, List, [], ◌∷◌, ◌++◌, Bytes, Text,
  codes, take, drop, if◌then◌else◌, ◌≡◌,
}
use weave_fs.Strings.{slash}
use weave_fs.Hex
use weave_fs.Exec.{
  Error, not_exist, corrupt_json, marshal_failed, panicked, Result, ok, err, Exec, ignore, pure,
  raise, ◌>>=◌, ◌>>◌,
}
use weave_fs.Disk.{dir, mkdir_all, read_file, write_file, rename, remove, on_error, read_random}
use weave_fs.Fsutil.{tmp_path}

-- Times are numbers that the program only stores.
pub record VersionEntry : Type 0 where
  pub version_id : Text
  pub seq : ℤ
  pub created_at : ℕ
  pub size_bytes : ℤ
  pub message : Text

pub record VersionIndex : Type 0 where
  pub key : Text
  pub latest : Text
  pub versions : List VersionEntry

-- `encoding/json` at one type. Either call can fail.
pub record Json (A : Type 0) : Type 0 where
  pub marshal : A → Option Bytes
  pub unmarshal : Bytes → Option A

-- What it documents: a value that it could print reads back.
pub record IsRoundTrip {A : Type 0} (j : Json A) : Type 0 where
  pub unmarshal-marshal : (a : A) (b : Bytes) → j.marshal a ≡ some b → j.unmarshal b ≡ some a

-- What the store uses of Go's libraries: `crypto/sha1`, and `encoding/json` on an index.
pub record Library : Type 0 where
  pub sha1 : Text → Bytes
  pub json : Json VersionIndex

unfoldable pub versioned_key : Text → Text → Text
versioned_key key version_id = key ++ codes "@" ++ version_id

unfoldable pub index_name : Library → Text → Text
index_name lib key = Hex.encode (lib.sha1 key) ++ codes ".json"

-- <root>/<nodeID>/.vindex/<sha1(key)>.json
unfoldable pub index_path : Library → Text → Text → Text → Text
unfolding index_name
index_path lib root node_id key =
    (root ++ (slash ∷ node_id)) ++ (slash ∷ (codes ".vindex" ++ (slash ∷ index_name lib key)))

abbrev pub empty_index : Text → VersionIndex
empty_index key = record { key = key; latest = []; versions = [] }

-- `os.IsNotExist`.
abbrev pub is_not_exist : Error → Bool
is_not_exist not_exist = true
is_not_exist _ = false

-- What was read from the index file, as an index.
decoded : Json VersionIndex → Text → Result Bytes → Result VersionIndex
decoded json key (err e) = if is_not_exist e then ok (empty_index key) else err e
decoded json key (ok b) = elim (json.unmarshal b) [ none ↦ err corrupt_json | some idx ↦ ok idx ]

unfoldable pub load_index : Library → Text → Text → Exec VersionIndex
unfolding decoded
load_index lib path key w = let (r, w') = read_file path w in (decoded lib.json key r, w')

-- `json.MarshalIndent`.
marshalled : Option Bytes → Exec Bytes
marshalled none = raise marshal_failed
marshalled (some b) = pure b

unfoldable pub save_index : Library → Text → VersionIndex → Exec (Unit {0})
unfolding marshalled
save_index lib path idx = do
  b ← marshalled (lib.json.marshal idx)
  mkdir_all (dir path)
  write_file (tmp_path path) b
  on_error (rename (tmp_path path) path) (ignore (remove (tmp_path path)))

-- The bits that make 16 random bytes a UUID of version 4.
set_bits : Bytes → Bytes
set_bits (b0 ∷ b1 ∷ b2 ∷ b3 ∷ b4 ∷ b5 ∷ b6 ∷ b7 ∷ b8 ∷ rest) =
    b0
    ∷ b1
    ∷ b2
    ∷ b3
    ∷ b4
    ∷ b5
    ∷ bit_or (bit_and b6 0x0f) 0x40
    ∷ b7
    ∷ bit_or (bit_and b8 0x3f) 0x80
    ∷ rest
set_bits short = short

-- The hex digits of b[from:to].
abbrev hex_between : Bytes → ℕ → ℕ → Text
hex_between b from count = Hex.encode (take count (drop from b))

unfoldable pub format_uuid : Bytes → Text
unfolding set_bits
format_uuid bytes =
    let b = set_bits bytes in
    hex_between b 0 4
    ++ (b'-'
        ∷ (hex_between b 4 2
            ++ (b'-'
                ∷ (hex_between b 6 2
                    ++ (b'-' ∷ (hex_between b 8 2 ++ (b'-' ∷ hex_between b 10 6)))))))

-- A failing random source is a panic.
unfoldable pub new_uuid : Exec Text
unfolding format_uuid
new_uuid w =
    let (r, w') = read_random 16 w in
    elim r [ ok b ↦ (ok (format_uuid b), w') | err e ↦ (err panicked, w') ]

-- The sequence number of the last entry of a list, if it has one.
last_seq : List VersionEntry → Option ℤ
last_seq [] = none
last_seq (v ∷ []) = some v.seq
last_seq (v ∷ u ∷ vs) = last_seq (u ∷ vs)

unfoldable pub next_seq : VersionIndex → ℤ
unfolding last_seq
next_seq idx = elim (last_seq idx.versions) [ none ↦ pos 1 | some s ↦ add_one s ]
