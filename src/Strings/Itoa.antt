-- ===== src/Strings/Itoa.antt =====
-- Go's `strconv.Itoa` of a count, and that `strconv.Atoi` reads it back.
use weave_fs.Base.{
  ℕ, zero, suc, ◌+◌, ◌*◌, ◌/◌, ◌%◌, ◌^◌, ◌≤◌, ◌<◌, pos, some, [], ◌∷◌, Text, ltb, nat_beq_iff,
  nat_eq, Bool-cases, if◌then◌else◌, max_i64, ◌≡◌, ◌≢◌, refl, arith, ap, ◌∙◌, inl, inr,
}
use weave_fs.Strings.Atoi.{digits, natural, positive, atoi}

-- The digits of a number in front of what follows; each round takes the last one.
unfoldable pub show : ℕ → ℕ → Text → Text
show zero n acc = acc
show (suc fuel) n acc =
    let rest = show fuel (n / 10) ((b'0' + n % 10) ∷ acc) in
    if ltb n 10 then (b'0' + n) ∷ acc else rest

-- Twenty digits are enough for an int64.
unfoldable pub itoa : ℕ → Text
unfolding show
itoa n = show 20 n []

digits_digit : (a d : ℕ) (s : Text) → d < 10 → digits a ((b'0' + d) ∷ s) ≡ digits (a * 10 + d) s
unfolding digits
digits_digit a d s h = ground (arith)

digits-show : (fuel n : ℕ) (acc : Text) → n < 10 ^ fuel → digits 0 (show fuel n acc) ≡ digits n acc
unfolding show
digits-show zero n acc h = ap (λ k. digits k acc) (omega arith)
digits-show (suc fuel) n acc h = elim (Bool-cases (ltb n 10)) [
  | inl small ↦
      rw small (digits_digit 0 n acc (ground arith) ∙ ap (λ k. digits k acc) (omega arith))
  | inr big ↦ rw big (
      digits-show fuel (n / 10) ((b'0' + n % 10) ∷ acc) (omega arith)
      ∙ digits_digit (n / 10) (n % 10) acc (omega arith)
      ∙ ap (λ k. digits k acc) (omega arith))
]

-- The text starts with a digit.
IsHeaded : Text → Type 0
IsHeaded t = (d : ℕ) × (s : Text) × (t ≡ (b'0' + d) ∷ s) × (d < 10)

show-IsHeaded : (fuel n : ℕ) (acc : Text) → IsHeaded acc → IsHeaded (show fuel n acc)
unfolding show IsHeaded
show-IsHeaded zero n acc h = h
show-IsHeaded (suc fuel) n acc h = elim (Bool-cases (ltb n 10)) [
  | inl small ↦ (n, acc, rw small, ground arith)
  | inr big ↦
      rw big (show-IsHeaded fuel (n / 10) ((b'0' + n % 10) ∷ acc) (n % 10, acc, refl, omega arith))
]

show-suc-IsHeaded : (fuel n : ℕ) (acc : Text) → IsHeaded (show (suc fuel) n acc)
unfolding show IsHeaded
show-suc-IsHeaded fuel n acc = elim (Bool-cases (ltb n 10)) [
  | inl small ↦ (n, acc, rw small, ground arith)
  | inr big ↦
      rw big (show-IsHeaded fuel (n / 10) ((b'0' + n % 10) ∷ acc) (n % 10, acc, refl, omega arith))
]

atoi_digit :
    (d : ℕ) (s : Text) → d < 10 → atoi ((b'0' + d) ∷ s) ≡ positive (digits 0 ((b'0' + d) ∷ s))
unfolding atoi natural
atoi_digit d s h = ground (arith, nat_beq_iff (b'0' + d) b'-', nat_beq_iff (b'0' + d) b'+')

-- A text that starts with a digit is read as a number without a sign.
atoi-IsHeaded : (t : Text) → IsHeaded t → atoi t ≡ positive (digits 0 t)
unfolding IsHeaded
atoi-IsHeaded t (d, s, e, h) = rw e (atoi_digit d s h)

positive_fits : (n : ℕ) → n ≤ max_i64 → positive (some n) ≡ some (pos n)
unfolding positive
positive_fits n h = ground arith

digits_nil : (n : ℕ) → digits n [] ≡ some n
unfolding digits
digits_nil n = refl

-- A count that fits into int64 is read back from its digits.
pub atoi-itoa : (n : ℕ) → n ≤ max_i64 → atoi (itoa n) ≡ some (pos n)
unfolding itoa
atoi-itoa n fits =
    atoi-IsHeaded (show 20 n []) (show-suc-IsHeaded 19 n [])
    ∙ ap positive (digits-show 20 n [] (omega arith) ∙ digits_nil n)
    ∙ positive_fits n fits

pub itoa-ne-nil : (n : ℕ) → itoa n ≢ []
unfolding itoa IsHeaded
itoa-ne-nil n e = let (d, s, shape, small) = show-suc-IsHeaded 19 n [] in absurd (cc (e, shape))
