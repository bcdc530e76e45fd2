-- ===== src/Hex.antt =====
-- Go's `encoding/hex`: two lower-case digits for each byte, and back.
pub mod Laws
use weave_fs.Base.{
  ℕ, ◌+◌, ◌-◌, ◌*◌, ◌/◌, ◌%◌, Bool, ◌&&◌, Option, none, some, List, [], ◌∷◌, Bytes, Text, ltb, leb,
  if◌then◌else◌,
}

unfoldable pub digit : ℕ → ℕ
digit n = if ltb n 10 then b'0' + n else b'a' + (n - 10)

-- `hex.EncodeToString`, and the verb %x on a byte slice.
unfoldable pub encode : Bytes → Text
unfolding digit
encode [] = []
encode (b ∷ bs) = digit (b / 16) ∷ digit (b % 16) ∷ encode bs

-- A digit in either case.
unfoldable pub from_digit : ℕ → Option ℕ
from_digit c =
    if leb b'0' c && leb c b'9'
    then some (c - b'0')
    else if leb b'a' c && leb c b'f'
    then some (c - b'a' + 10)
    else if leb b'A' c && leb c b'F'
    then some (c - b'A' + 10)
    else none

infixl 5 ◌>>=◌
abbrev ◌>>=◌ : {A B : Type 0} → Option A → (A → Option B) → Option B
none >>= f = none
some a >>= f = f a

-- `hex.DecodeString`: an odd length and a character that is no digit are refused.
unfoldable pub decode : Text → Option Bytes
unfolding from_digit
decode [] = some []
decode (c ∷ []) = none
decode (c ∷ d ∷ s) = do
  high ← from_digit c
  low ← from_digit d
  rest ← decode s
  some ((high * 16 + low) ∷ rest)
