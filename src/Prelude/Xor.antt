-- ===== src/Prelude/Xor.antt =====
-- `bit_xor` at variables: its law for the lowest digit, and that a mask applied twice cancels.
use Prim.Native.Nat.{
  ℕ, zero, suc, ◌+◌, ◌*◌, ◌/◌, ◌%◌, ◌≤◌, ◌<◌, bit_xor, digits, bit_xor-bitwise, differ,
}
use mathlib.Core.Path.{◌≡◌, refl, sym, ap, ◌∙◌}
use native.Mathlib.Omega.{arith}

abbrev xor_digits : ℕ → ℕ → ℕ → ℕ
xor_digits n a b = digits (λ b. b) differ n a b

xor_digits_fuel : (n m a b : ℕ) → a ≤ n → a ≤ m → xor_digits n a b ≡ xor_digits m a b
xor_digits_fuel zero zero a b p q = refl
xor_digits_fuel zero (suc m) zero b p q = refl
xor_digits_fuel zero (suc m) (suc a) b p q = absurd (omega arith)
xor_digits_fuel (suc n) zero zero b p q = refl
xor_digits_fuel (suc n) zero (suc a) b p q = absurd (omega arith)
xor_digits_fuel (suc n) (suc m) zero b p q = refl
xor_digits_fuel (suc n) (suc m) (suc a) b p q =
    omega (arith, xor_digits_fuel n m (suc a / 2) (b / 2) (omega arith) (omega arith))

-- Two digits differ where their sum is odd.
differ_digits : (x y : ℕ) → x < 2 → y < 2 → differ x y ≡ (x + y) % 2
differ_digits zero y p q = omega arith
differ_digits (suc zero) zero p q = refl
differ_digits (suc zero) (suc zero) p q = refl
differ_digits (suc zero) (suc (suc y)) p q = absurd (omega arith)
differ_digits (suc (suc x)) y p q = absurd (omega arith)

zero-bit_xor : (b : ℕ) → bit_xor 0 b ≡ b
zero-bit_xor b = bit_xor-bitwise 0 b

pub bit_xor_step : (a b : ℕ) → bit_xor a b ≡ bit_xor (a / 2) (b / 2) * 2 + (a % 2 + b % 2) % 2
bit_xor_step zero b = omega (arith, zero-bit_xor b, zero-bit_xor (b / 2))
bit_xor_step (suc a) b = omega (
  arith,
  bit_xor-bitwise (suc a) b,
  bit_xor-bitwise (suc a / 2) (b / 2),
  differ_digits (suc a % 2) (b % 2) (omega arith) (omega arith),
  xor_digits_fuel a (suc a / 2) (suc a / 2) (b / 2) (omega arith) (omega arith),
)

bit_xor-zero_fuel : (n a : ℕ) → a ≤ n → bit_xor a 0 ≡ a
bit_xor-zero_fuel n zero h = zero-bit_xor 0
bit_xor-zero_fuel zero (suc a) h = absurd (omega arith)
bit_xor-zero_fuel (suc n) (suc a) h =
    omega (arith, bit_xor_step (suc a) 0, bit_xor-zero_fuel n (suc a / 2) (omega arith))

xor_halves : (a b x : ℕ) → bit_xor a b ≡ x → bit_xor (a / 2) (b / 2) ≡ x / 2
xor_halves a b x e = omega (arith, bit_xor_step a b)

-- The number of digits is counted for both operands.
bit_xor_twice_fuel : (n a m : ℕ) → a ≤ n → m ≤ n → bit_xor (bit_xor a m) m ≡ a
bit_xor_twice_fuel zero zero zero h k = ap (λ x. bit_xor x 0) (zero-bit_xor 0) ∙ zero-bit_xor 0
bit_xor_twice_fuel zero (suc a) m h k = absurd (omega arith)
bit_xor_twice_fuel zero zero (suc m) h k = absurd (omega arith)
bit_xor_twice_fuel (suc n) a m h k =
    let rest = bit_xor_twice_fuel n (a / 2) (m / 2) (omega arith) (omega arith) in
    let half = xor_halves a m (bit_xor a m) refl in
    let step = bit_xor_step (bit_xor a m) m in
    let half_again = ap (λ x. bit_xor x (m / 2)) (sym half) ∙ rest in
    omega (arith, bit_xor_step a m, step, half_again)

pub bit_xor_twice : (a m : ℕ) → bit_xor (bit_xor a m) m ≡ a
bit_xor_twice a m = bit_xor_twice_fuel (a + m) a m (omega arith) (omega arith)

-- A mask sends different values to different values.
pub bit_xor_cancel : (a b m : ℕ) → bit_xor a m ≡ bit_xor b m → a ≡ b
bit_xor_cancel a b m e = sym (bit_xor_twice a m) ∙ ap (λ x. bit_xor x m) e ∙ bit_xor_twice b m
