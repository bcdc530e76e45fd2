-- ===== src/Strings/Atoi.antt =====
-- Go's `strconv.Atoi`: decimal digits behind an optional sign, within int64.
use weave_fs.Base.{
  ℕ, ◌+◌, ◌-◌, ◌*◌, ℤ, pos, negsuc, Bool, ◌&&◌, Option, none, some, [], ◌∷◌, Text, leb, nat_beq,
  ◌==◌, nat_eq, if◌then◌else◌, max_i64,
}

abbrev pub is_digit : ℕ → Bool
is_digit c = leb b'0' c && leb c b'9'

-- The number that the digits add to what was read before.
unfoldable pub digits : ℕ → Text → Option ℕ
digits n [] = some n
digits n (c ∷ s) = let rest = digits (n * 10 + (c - b'0')) s in if is_digit c then rest else none

-- At least one digit.
unfoldable pub natural : Text → Option ℕ
unfolding digits
natural [] = none
natural (c ∷ s) = digits 0 (c ∷ s)

unfoldable pub positive : Option ℕ → Option ℤ
positive none = none
positive (some n) = if leb n max_i64 then some (pos n) else none

-- The smallest int64 is one more than the largest below zero.
negative : Option ℕ → Option ℤ
negative none = none
negative (some n) =
    if nat_beq n 0
    then some (pos 0)
    else if leb n (max_i64 + 1)
    then some (negsuc (n - 1))
    else none

unfoldable pub atoi : Text → Option ℤ
unfolding natural positive negative
atoi [] = none
atoi (c ∷ s) =
    if c == b'-'
    then negative (natural s)
    else if c == b'+'
    then positive (natural s)
    else positive (natural (c ∷ s))
