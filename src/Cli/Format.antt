-- ===== src/Cli/Format.antt =====
-- cmd/weavefs/commands.go and main.go: how the command line shows sizes, counts, peers and bytes.
use weave_fs.Base.{
  ℕ, zero, suc, ◌+◌, ◌-◌, ◌*◌, ◌/◌, ◌^◌, ◌≤◌, ◌<◌, ℤ, pos, negsuc, Bool, false, ◌&&◌, Option, none,
  some, List, [], ◌∷◌, ◌++◌, Bytes, Text, codes, map, length, drop, All, leb, ltb, int_beq, ◌==◌,
  nat_eq, list_eq, if◌then◌else◌, ◌≡◌, refl, arith, ap, sym, subst, Bool-cases, inl, inr,
}

abbrev pub unit : ℕ
unit = 1024

-- The loop of `humanBytes`: the size that is left, the divisor and the exponent.
unfoldable pub scaled : ℕ → ℕ → ℕ → ℕ → ℕ × ℕ × ℕ
scaled zero size div exp = (size, div, exp)
scaled (suc fuel) size div exp =
    let rest = scaled fuel (size / unit) (div * unit) (exp + 1) in
    if ltb size unit then (size, div, exp) else rest

-- What `humanBytes` shows: a count of bytes, or a count over a divisor with the letter of a unit.
pub data Shown : Type 0 where
  in_bytes : ℤ → Shown
  over : ℕ → ℕ → Option ℕ → Shown

-- The character of a string at an index, if it has one; Go panics else.
char_at : Text → ℕ → Option ℕ
char_at [] i = none
char_at (c ∷ s) zero = some c
char_at (c ∷ s) (suc i) = char_at s i

shown_over : ℕ → ℕ × ℕ × ℕ → Shown
unfolding char_at
shown_over n (size, div, exp) = over n div (char_at (codes "KMGTPE") exp)

-- Six rounds are more than an int64 takes.
unfoldable pub human_bytes : ℤ → Shown
unfolding scaled shown_over
human_bytes (negsuc n) = in_bytes (negsuc n)
human_bytes (pos n) =
    if ltb n unit then in_bytes (pos n) else shown_over n (scaled 6 (n / unit) unit 0)

scaled_lem :
    (n : ℕ)
    → 1024 ≤ n
    → n < 2 ^ 63
    → let (size, div, exp) = scaled 6 (n / unit) unit 0 in
      (size < unit) × (exp ≤ 5) × (div ≤ n) × (n < div * unit)
unfolding scaled
scaled_lem n big fits = ground arith

scaled-power :
    (fuel size div exp : ℕ)
    → div ≡ 1024 ^ suc exp
    → (scaled fuel size div exp).1 ≡ 1024 ^ suc (scaled fuel size div exp).2
unfolding scaled
scaled-power zero size div exp h = h
scaled-power (suc fuel) size div exp h = elim (Bool-cases (ltb size unit)) [
  | inl b ↦ rw b h
  | inr b ↦ rw b (scaled-power fuel (size / unit) (div * unit) (exp + 1) (rw h (ground arith)))
]

-- The units that a size is shown in, each with its letter: the powers of 1024 from the first.
pub data IsUnit : ℕ → ℕ → Type 0 where
  kibi : IsUnit (1024 ^ 1) b'K'
  mebi : IsUnit (1024 ^ 2) b'M'
  gibi : IsUnit (1024 ^ 3) b'G'
  tebi : IsUnit (1024 ^ 4) b'T'
  pebi : IsUnit (1024 ^ 5) b'P'
  exbi : IsUnit (1024 ^ 6) b'E'

letter_at :
    (exp : ℕ)
    → exp ≤ 5
    → (c : ℕ) × (char_at (codes "KMGTPE") exp ≡ some c) × IsUnit (1024 ^ suc exp) c
unfolding char_at
letter_at zero h = (b'K', refl, kibi)
letter_at (suc zero) h = (b'M', refl, mebi)
letter_at (suc (suc zero)) h = (b'G', refl, gibi)
letter_at (suc (suc (suc zero))) h = (b'T', refl, tebi)
letter_at (suc (suc (suc (suc zero)))) h = (b'P', refl, pebi)
letter_at (suc (suc (suc (suc (suc zero))))) h = (b'E', refl, exbi)
letter_at (suc (suc (suc (suc (suc (suc n)))))) h = absurd (omega arith)

-- The loop that finds the unit of a size ends within six rounds for every int64 from 1024 on, and
-- its index into the letters of the units is in range; the size is shown over the largest power of
-- 1024 that is not above it, with the letter of that power.
pub human_bytes_fits :
    (n : ℕ)
    → 1024 ≤ n
    → n < 2 ^ 63
    → ((scaled 6 (n / unit) unit 0).0 < unit)
      × ((div : ℕ) × (c : ℕ) × (human_bytes (pos n) ≡ over n div (some c))
          × IsUnit div c
          × (div ≤ n)
          × (n < div * unit))
unfolding human_bytes shown_over
human_bytes_fits n big fits =
    let (ended, exp, low, high) = scaled_lem n big fits in
    let (c, at, letter) = letter_at (scaled 6 (n / unit) unit 0).2 exp in
    (
      ended,
      (
        (scaled 6 (n / unit) unit 0).1,
        c,
        rw (no_bytes) (ap (over n (scaled 6 (n / unit) unit 0).1) at),
        subst (λ d. IsUnit d c) (sym (scaled-power 6 (n / unit) unit 0 refl)) letter,
        low,
        high,
      ),
    )
  where
    no_bytes : ltb n unit ≡ false
    no_bytes = ground arith

-- A count with its noun; a count that is not one takes an "s". The digits are left to `fmt`.
unfoldable pub plural : ℤ → Text → ℤ × Text
plural n noun = if int_beq n (pos 1) then (n, noun) else (n, noun ++ codes "s")

-- `strings.ToLower` of ASCII text.
lower : ℕ → ℕ
lower c = if leb b'A' c && leb c b'Z' then c + 32 else c

-- A long ID is shown by its last eight characters, behind an ellipsis.
unfoldable pub short : Text → Text
unfolding lower
short id = if leb (length id) 12 then id else 0x2026 ∷ map lower (drop (length id - 8) id)

unfoldable pub format_peer : Text → List (Text × Text) → Text
unfolding short
format_peer id [] = short id
format_peer id ((k, name) ∷ rest) =
    let other = format_peer id rest in if k == id then name else other

is_printable : ℕ → Bool
is_printable c = leb 0x20 c && ltb c 0x7f

-- Bytes that are not printable ASCII become dots.
unfoldable pub sanitise : Bytes → Text
unfolding is_printable
sanitise [] = []
sanitise (c ∷ b) = let rest = sanitise b in (if is_printable c then c else b'.') ∷ rest

-- What is shown of bytes is as long as they are, printable throughout, and shown again unchanged.
pub sanitise_lem :
    (b : Bytes)
    → (length (sanitise b) ≡ length b)
      × All (λ c. (0x20 ≤ c) × (c < 0x7f)) (sanitise b)
      × (sanitise (sanitise b) ≡ sanitise b)
unfolding sanitise is_printable
sanitise_lem [] = (refl, tt, refl)
sanitise_lem (c ∷ b) =
    let (size, printable, again) = sanitise_lem b in
    (ap suc size, (ground arith, printable), ground (arith, again))
