-- ===== src/Proto/Codec.antt =====
-- internal/proto/codec.go: one JSON message behind its length, as four big-endian bytes.
pub mod Laws
use weave_fs.Base.{
  ℕ, ◌+◌, ◌*◌, ◌/◌, ◌%◌, ◌^◌, Option, none, some, List, [], ◌∷◌, ◌++◌, Bytes, length, ltb,
  if◌then◌else◌,
}
use weave_fs.Exec.{
  Error, marshal_failed, corrupt_json, message_too_long, header_too_long, Result, ok, err, Exec,
  raise, ◌>>=◌, lift,
}
use weave_fs.Disk.{Reader, Writer, read_full}
use weave_fs.Store.Version.{Json}

abbrev pub length_prefix_size : ℕ
length_prefix_size = 4

-- 1 << 20
abbrev pub max_header_bytes : ℕ
max_header_bytes = 2 ^ 20

-- `binary.BigEndian.PutUint32`.
unfoldable pub put_uint32 : ℕ → Bytes
put_uint32 n = (n / 2 ^ 24 % 2 ^ 8) ∷ (n / 2 ^ 16 % 2 ^ 8) ∷ (n / 2 ^ 8 % 2 ^ 8) ∷ (n % 2 ^ 8) ∷ []

-- `binary.BigEndian.Uint32`, of four bytes.
unfoldable pub get_uint32 : Bytes → ℕ
get_uint32 (a ∷ b ∷ c ∷ d ∷ []) = a * 2 ^ 24 + b * 2 ^ 16 + c * 2 ^ 8 + d
get_uint32 other = 0

-- The frame of a payload; the length is converted to uint32.
frame_of : Option Bytes → Result Bytes
unfolding put_uint32
frame_of none = err marshal_failed
frame_of (some payload) =
    if ltb max_header_bytes (length payload)
    then err message_too_long
    else ok (put_uint32 (length payload % 2 ^ 32) ++ payload)

module _ {A : Type 0} (json : Json A) where
  -- What `WriteMessage` writes, in one write.
  unfoldable pub frame : A → Result Bytes
  unfolding frame_of
  frame v = frame_of (json.marshal v)

  unfoldable pub write_message : Writer → A → Exec (Unit {0})
  unfolding frame
  write_message w v = do b ← lift (frame v); w b

  -- The message in a payload that was read, with the reader behind it.
  decoded : Bytes × Reader → Result (A × Reader)
  decoded (payload, r) = elim (json.unmarshal payload) [
    | none ↦ err corrupt_json
    | some v ↦ ok (v, r)
  ]

  payload_read : Result (Bytes × Reader) → Result (A × Reader)
  payload_read (err e) = err e
  payload_read (ok p) = decoded p

  -- What follows the length prefix.
  after_prefix : Result (Bytes × Reader) → Result (A × Reader)
  unfolding get_uint32
  after_prefix (err e) = err e
  after_prefix (ok (prefix, r)) =
      if ltb max_header_bytes (get_uint32 prefix)
      then err header_too_long
      else payload_read (read_full (get_uint32 prefix) r)

  unfoldable pub read_message : Reader → Result (A × Reader)
  unfolding after_prefix payload_read decoded
  read_message r = after_prefix (read_full length_prefix_size r)
