-- ===== src/Hex/Laws.antt =====
-- Hex text reads back as the bytes that it spells, and holds hex digits only.
use weave_fs.Base.{
  ℕ, ◌*◌, ◌/◌, ◌%◌, ◌≤◌, ◌<◌, some, [], ◌∷◌, Bytes, All, length, ◌≡◌, ◌⊎◌, refl, arith,
}
use weave_fs.Hex.{digit, encode, from_digit, decode}

-- Every number is one byte.
abbrev pub AreBytes : Bytes → Type 0
AreBytes = All (λ b. b < 256)

-- A lower-case hex digit.
abbrev pub IsHexDigit : ℕ → Type 0
IsHexDigit c = ((b'0' ≤ c) × (c ≤ b'9')) ⊎ ((b'a' ≤ c) × (c ≤ b'f'))

digit-IsHexDigit : (n : ℕ) → n < 16 → IsHexDigit (digit n)
unfolding digit
digit-IsHexDigit n h = ground arith

from_digit-digit : (n : ℕ) → n < 16 → from_digit (digit n) ≡ some n
unfolding from_digit digit
from_digit-digit n h = ground arith

pub decode-encode : (b : Bytes) → AreBytes b → decode (encode b) ≡ some b
unfolding decode encode
decode-encode [] h = refl
decode-encode (b ∷ bs) h =
    rw
      (
        from_digit-digit (b / 16) (omega arith),
        from_digit-digit (b % 16) (omega arith),
        decode-encode bs h.1,
      )
      (ground arith)

pub encode-IsHexDigit : (b : Bytes) → AreBytes b → All IsHexDigit (encode b)
unfolding encode
encode-IsHexDigit [] h = tt
encode-IsHexDigit (b ∷ bs) h = (
  digit-IsHexDigit (b / 16) (omega arith),
  (digit-IsHexDigit (b % 16) (omega arith), encode-IsHexDigit bs h.1),
)

pub length-encode : (b : Bytes) → length (encode b) ≡ 2 * length b
unfolding encode
length-encode [] = refl
length-encode (b ∷ bs) = omega (arith, length-encode bs)
