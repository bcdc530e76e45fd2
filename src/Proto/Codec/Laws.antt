-- ===== src/Proto/Codec/Laws.antt =====
-- Frames read back, truncated frames do not, and no header is longer than the limit.
use weave_fs.Base.{
  ℕ, zero, suc, ◌+◌, ◌≤◌, ◌<◌, ◌^◌, ◌%◌, true, false, some, [], ◌++◌, Bytes, take, length, ltb, ◌≡◌,
  refl, arith, ap, ◌∙◌, sym, take-append, drop-append, length-append, length-take, Option-cases,
  Bool-cases, inl, inr,
}
use weave_fs.Exec.Laws.{ok-injective}
use weave_fs.Exec.{ok, err, short_read, header_too_long}
use weave_fs.Disk.{Reader, read_full}
use weave_fs.Store.Version.{Json, IsRoundTrip}
use weave_fs.Proto.Codec.{
  max_header_bytes, put_uint32, get_uint32, frame_of, frame, decoded, payload_read, after_prefix,
  read_message,
}

length-put_uint32 : (n : ℕ) → length (put_uint32 n) ≡ 4
unfolding put_uint32
length-put_uint32 n = refl

get_uint32-put_uint32 : (n : ℕ) → n < 2 ^ 32 → get_uint32 (put_uint32 n) ≡ n
unfolding get_uint32 put_uint32
get_uint32-put_uint32 n h = omega arith

not_less : (n m : ℕ) → n ≤ m → ltb m n ≡ false
not_less n m h = ground arith

-- Bytes in front of a reader are read in full.
pub read_full-append :
    (h : Bytes) (r : Reader) → read_full (length h) (record r { bytes = h ++ r.bytes }) ≡ ok (h, r)
unfolding read_full
read_full-append h r = rw (
  not_less (length h) (length (h ++ r.bytes)) (omega (arith, length-append {0} h r.bytes)),
  take-append h r.bytes,
  drop-append h r.bytes,
)

less : (n m : ℕ) → m < n → ltb m n ≡ true
less n m h = ground arith

le_of_not_less : (n m : ℕ) → ltb m n ≡ false → n ≤ m
le_of_not_less n m h = ground arith

read_full_short : (n : ℕ) (r : Reader) → length r.bytes < n → read_full n r ≡ err short_read
unfolding read_full
read_full_short n r h = ground arith

same_length : (n : ℕ) → n ≤ max_header_bytes → n % 2 ^ 32 ≡ n
same_length n h = omega arith

framed :
    (payload b : Bytes)
    → frame_of (some payload) ≡ ok b
    → (length payload ≤ max_header_bytes) × (b ≡ put_uint32 (length payload) ++ payload)
unfolding frame_of
framed payload b h = elim (Bool-cases (ltb max_header_bytes (length payload))) [
  | inl long ↦ absurd (cc (rw long at h))
  | inr fits ↦
      let bound = le_of_not_less (length payload) max_header_bytes fits in
      (bound, ok-injective (sym (rw (fits, same_length (length payload) bound) at h)))
]

module _ {A : Type 0} (json : Json A) where
  frame_parts :
      (v : A) (b : Bytes)
      → frame json v ≡ ok b
      → (payload : Bytes) × (json.marshal v ≡ some payload)
        × (length payload ≤ max_header_bytes)
        × (b ≡ put_uint32 (length payload) ++ payload)
  unfolding frame
  frame_parts v b h = elim (Option-cases (json.marshal v)) [
    | inl e ↦ absurd (cc (rw e at h))
    | inr (payload, e) ↦ let parts = framed payload b (rw e at h) in (payload, e, parts.0, parts.1)
  ]

  -- A frame is never longer than the prefix and the limit.
  pub length-frame : (v : A) (b : Bytes) → frame json v ≡ ok b → length b ≤ 4 + max_header_bytes
  length-frame v b h =
      let (payload, e, fits, shape) = frame_parts v b h in
      omega (
        arith,
        ap length shape,
        length-append {0} (put_uint32 (length payload)) payload,
        length-put_uint32 (length payload),
      )

  after_prefix_ok :
      (n : ℕ) (r : Reader)
      → n ≤ max_header_bytes
      → after_prefix json (ok (put_uint32 n, r)) ≡ payload_read json (read_full n r)
  unfolding after_prefix
  after_prefix_ok n r h = rw (get_uint32-put_uint32 n (omega arith), not_less n max_header_bytes h)

  payload_read_lem :
      (v : A) (payload : Bytes) (r : Reader)
      → json.unmarshal payload ≡ some v
      → payload_read json (ok (payload, r)) ≡ ok (v, r)
  unfolding payload_read decoded
  payload_read_lem v payload r e = ground (arith, e)

  read_framed :
      (v : A) (payload : Bytes) (r : Reader)
      → json.unmarshal payload ≡ some v
      → length payload ≤ max_header_bytes
      → read_message json (record r { bytes = (put_uint32 (length payload) ++ payload) ++ r.bytes })
        ≡ ok (v, r)
  unfolding read_message put_uint32
  read_framed v payload r e fits =
      let n = length payload in
      let behind : Reader = record r { bytes = payload ++ r.bytes } in
      ap (after_prefix json) (read_full-append (put_uint32 n) behind)
      ∙ after_prefix_ok n behind fits
      ∙ ap (payload_read json) (read_full-append payload r)
      ∙ payload_read_lem v payload r e

  after_prefix_long :
      (n : ℕ) (r : Reader)
      → n < 2 ^ 32
      → max_header_bytes < n
      → after_prefix json (ok (put_uint32 n, r)) ≡ err header_too_long
  unfolding after_prefix
  after_prefix_long n r small big = rw (get_uint32-put_uint32 n small, less n max_header_bytes big)

  -- A written message reads back, and the reader stands behind it: whatever follows on the stream
  -- is left to be read. A value that JSON printed reads back.
  pub read_message-frame :
      IsRoundTrip json
      → (v : A) (b : Bytes) (r : Reader) → frame json v ≡ ok b
      → read_message json (record r { bytes = b ++ r.bytes }) ≡ ok (v, r)
  read_message-frame trip v b r h =
      let (payload, e, fits, shape) = frame_parts v b h in
      rw shape (read_framed v payload r (trip.unmarshal-marshal v payload e) fits)

  cut_frame :
      (payload : Bytes) (n : ℕ) (r : Reader)
      → length payload ≤ max_header_bytes
      → n < 4 + length payload
      → read_message json (record r { bytes = take n (put_uint32 (length payload) ++ payload) })
        ≡ err short_read
  unfolding read_message put_uint32 after_prefix payload_read
  cut_frame payload zero r fits h = rw (read_full_short 4 (record r { bytes = [] }) (omega arith))
  cut_frame payload (suc zero) r fits h = ap (after_prefix json) (read_full_short 4 _ (omega arith))
  cut_frame payload (suc (suc zero)) r fits h =
      ap (after_prefix json) (read_full_short 4 _ (omega arith))
  cut_frame payload (suc (suc (suc zero))) r fits h =
      ap (after_prefix json) (read_full_short 4 _ (omega arith))
  cut_frame payload (suc (suc (suc (suc n)))) r fits h =
      let behind : Reader = record r { bytes = take n payload } in
      ap (after_prefix json) (read_full-append (put_uint32 (length payload)) behind)
      ∙ after_prefix_ok (length payload) behind fits
      ∙ ap (payload_read json)
          (read_full_short (length payload) behind (omega (arith, length-take {0} n payload)))

  -- A frame that was cut short, wherever it was cut, is refused: no part of it is taken for the
  -- whole message.
  pub read_message_truncated :
      (v : A) (b : Bytes) (n : ℕ) (r : Reader)
      → frame json v ≡ ok b
      → n < length b
      → read_message json (record r { bytes = take n b }) ≡ err short_read
  read_message_truncated v b n r h short =
      let (payload, e, fits, shape) = frame_parts v b h in
      rw shape (
        cut_frame payload n r fits (
          omega (
            arith,
            ap length shape,
            length-append {0} (put_uint32 (length payload)) payload,
            length-put_uint32 (length payload),
          )))

  -- A length above the limit, announced in four bytes, is refused, whatever follows it.
  pub read_message_too_long :
      (n : ℕ) (r : Reader)
      → n < 2 ^ 32
      → max_header_bytes < n
      → read_message json (record r { bytes = put_uint32 n ++ r.bytes }) ≡ err header_too_long
  unfolding read_message put_uint32
  read_message_too_long n r small big =
      ap (after_prefix json) (read_full-append (put_uint32 n) r) ∙ after_prefix_long n r small big

  -- An empty stream holds no message.
  pub read_message_empty :
      (r : Reader) → read_message json (record r { bytes = [] }) ≡ err short_read
  unfolding read_message after_prefix
  read_message_empty r =
      ap (after_prefix json) (read_full_short 4 (record r { bytes = [] }) (omega arith))
