-- ===== src/Base/Equality.antt =====
-- `==` of Go on strings and on lists of strings: one operator for every type with an instance.
use mathlib.Core.Path.{◌≡◌, refl}
use mathlib.Core.Logic.{◌↔◌}
use mathlib.Core.Bool.{Bool, true, false, ◌&&◌}
use mathlib.Core.List.{List, [], ◌∷◌}
use Prim.Native.Nat.{ℕ}
use native.Mathlib.Omega.{arith}
use weave_fs.Base.Tests.{nat_beq, nat_beq_iff}

pub record Comparable {ℓ} (A : Type ℓ) : Type ℓ where
  pub is_same : A → A → Bool
  pub is_same_iff : (a b : A) → (is_same a b ≡ true) ↔ (a ≡ b)

infix 50 ◌==◌
abbrev pub ◌==◌ {ℓ} : {A : Type ℓ} ⦃same : Comparable A⦄ → A → A → Bool
◌==◌ ⦃same⦄ = same.is_same

instance abbrev pub nat_eq : Comparable ℕ
nat_eq = record { is_same = nat_beq; is_same_iff = nat_beq_iff }

module _ {ℓ} {A : Type ℓ} ⦃same : Comparable A⦄ where
  pub eq_iff : (a b : A) → ((a == b) ≡ true) ↔ (a ≡ b)
  eq_iff a b = same.is_same_iff a b

  pub eq_refl : (a : A) → (a == a) ≡ true
  eq_refl a = (same.is_same_iff a a).1 refl

  pub eq_false : (a b : A) → ¬ (a ≡ b) → (a == b) ≡ false
  eq_false a b h = ground (arith, same.is_same_iff a b)

  unfoldable pub list_beq : List A → List A → Bool
  list_beq [] [] = true
  list_beq [] (y ∷ ys) = false
  list_beq (x ∷ xs) [] = false
  list_beq (x ∷ xs) (y ∷ ys) = x == y && list_beq xs ys

  pub list_beq_iff : (xs ys : List A) → (list_beq xs ys ≡ true) ↔ (xs ≡ ys)
  unfolding list_beq
  list_beq_iff [] [] = ground arith
  list_beq_iff [] (y ∷ ys) = ground arith
  list_beq_iff (x ∷ xs) [] = ground arith
  list_beq_iff (x ∷ xs) (y ∷ ys) = ground (arith, same.is_same_iff x y, list_beq_iff xs ys)

  instance abbrev pub list_eq : Comparable (List A)
  list_eq = record { is_same = list_beq; is_same_iff = list_beq_iff }
