-- ===== src/Base/Bits.antt =====
-- `bit_xor` at variables: an exclusive or with the same number twice gives the first number back.
use Prim.Native.Nat.{
  ℕ, zero, suc, ◌+◌, ◌*◌, ◌/◌, ◌%◌, ◌≤◌, bit_xor, digits, differ, bit_xor-bitwise,
}
use mathlib.Core.Path.{◌≡◌, refl, ◌∙◌}
use native.Mathlib.Omega.{arith}

abbrev xor_digits : ℕ → ℕ → ℕ → ℕ
xor_digits n a b = digits (λ b. b) differ n a b

xor_digits_fuel : (n m a b : ℕ) → a ≤ n → a ≤ m → xor_digits n a b ≡ xor_digits m a b
xor_digits_fuel zero zero a b p q = refl
xor_digits_fuel zero (suc m) zero b p q = refl
xor_digits_fuel zero (suc m) (suc a) b p q = absurd (omega arith)
xor_digits_fuel (suc n) zero zero b p q = refl
xor_digits_fuel (suc n) zero (suc a) b p q = absurd (omega arith)
xor_digits_fuel (suc n) (suc m) zero b p q = refl
xor_digits_fuel (suc n) (suc m) (suc a) b p q =
    omega (arith, xor_digits_fuel n m (suc a / 2) (b / 2) (omega arith) (omega arith))

zero-bit_xor : (b : ℕ) → bit_xor 0 b ≡ b
zero-bit_xor b = bit_xor-bitwise 0 b

differ_bits : (x y : ℕ) → x ≤ 1 → y ≤ 1 → (differ x y ≤ 1) × (differ (differ x y) y ≡ x)
differ_bits zero zero h g = omega arith
differ_bits zero (suc zero) h g = omega arith
differ_bits zero (suc (suc y)) h g = absurd (omega arith)
differ_bits (suc zero) zero h g = omega arith
differ_bits (suc zero) (suc zero) h g = omega arith
differ_bits (suc zero) (suc (suc y)) h g = absurd (omega arith)
differ_bits (suc (suc x)) y h g = absurd (omega arith)

bit_xor_step : (a b : ℕ) → bit_xor a b ≡ bit_xor (a / 2) (b / 2) * 2 + differ (a % 2) (b % 2)
bit_xor_step zero b = omega (arith, zero-bit_xor b, zero-bit_xor (b / 2))
bit_xor_step (suc a) b = omega (
  arith,
  bit_xor-bitwise (suc a) b,
  bit_xor-bitwise (suc a / 2) (b / 2),
  xor_digits_fuel a (suc a / 2) (suc a / 2) (b / 2) (omega arith) (omega arith),
)

differ_self : (x : ℕ) → differ x x ≡ 0
differ_self zero = refl
differ_self (suc x) = differ_self x

bit_xor_digits :
    (a b : ℕ)
    → (bit_xor a b / 2 ≡ bit_xor (a / 2) (b / 2)) × (bit_xor a b % 2 ≡ differ (a % 2) (b % 2))
bit_xor_digits a b =
    let d = differ_bits (a % 2) (b % 2) (omega arith) (omega arith) in
    omega (arith, bit_xor_step a b, d.0)

bit_xor_self_fuel : (n b : ℕ) → b ≤ n → bit_xor b b ≡ 0
bit_xor_self_fuel zero zero h = refl
bit_xor_self_fuel zero (suc b) h = absurd (omega arith)
bit_xor_self_fuel (suc n) zero h = refl
bit_xor_self_fuel (suc n) (suc b) h = ground (
  arith,
  bit_xor_step (suc b) (suc b),
  bit_xor_self_fuel n (suc b / 2) (omega arith),
  differ_self (suc b % 2),
)

bit_xor_twice_fuel : (n a b : ℕ) → a ≤ n → bit_xor (bit_xor a b) b ≡ a
bit_xor_twice_fuel n zero b h = rw (zero-bit_xor b) (bit_xor_self_fuel b b (omega arith))
bit_xor_twice_fuel zero (suc a) b h = absurd (omega arith)
bit_xor_twice_fuel (suc n) (suc a) b h =
    let d = bit_xor_digits (suc a) b in
    let e = differ_bits (suc a % 2) (b % 2) (omega arith) (omega arith) in
    bit_xor_step (bit_xor (suc a) b) b
    ∙ rw (d.0, d.1, bit_xor_twice_fuel n (suc a / 2) (b / 2) (omega arith), e.1) (omega arith)

pub bit_xor_twice : (a b : ℕ) → bit_xor (bit_xor a b) b ≡ a
bit_xor_twice a b = bit_xor_twice_fuel a a b (omega arith)
