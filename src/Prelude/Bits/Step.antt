-- ===== src/Prelude/Bits/Step.antt =====
-- One equation for the lowest digit of each native bit operation, with the fuel of its
-- definition dropped.
use Prim.Native.Nat.{
  min, max, differ, digits, bitwise, bit_and-bitwise, bit_or-bitwise, bit_xor-bitwise,
}
use Prim.Native.Nat.{ℕ, zero, suc, ◌+◌, ◌-◌, ◌*◌, ◌/◌, ◌%◌, ◌≤◌, bit_and, bit_or, bit_xor}
use mathlib.Core.Path.{◌≡◌, refl, ◌∙◌}
use native.Mathlib.Omega.{arith}

module _ (left : ℕ → ℕ) (op : ℕ → ℕ → ℕ) where
  -- One unit of fuel beyond the first operand changes nothing.
  digits_spare : (fuel x y : ℕ) → x ≤ fuel → digits left op (suc fuel) x y ≡ digits left op fuel x y
  digits_spare zero zero y h = refl
  digits_spare zero (suc x) y h = absurd (omega arith)
  digits_spare (suc fuel) zero y h = refl
  digits_spare (suc fuel) (suc x) y h = rw (digits_spare fuel (suc x / 2) (y / 2) (omega arith))

  -- So the fuel may be cut down to the operand itself.
  digits_trim :
      (spare fuel x y : ℕ) → fuel ≡ x + spare → digits left op fuel x y ≡ digits left op x x y
  digits_trim zero fuel x y e = let same : fuel ≡ x = omega arith in rw same
  digits_trim (suc spare) zero x y e = absurd (omega arith)
  digits_trim (suc spare) (suc fuel) x y e =
      digits_spare fuel x y (omega arith) ∙ digits_trim spare fuel x y (omega arith)

  pub bitwise_lowest :
      (x y : ℕ)
      → bitwise left op (suc x) y ≡ bitwise left op (suc x / 2) (y / 2) * 2 + op (suc x % 2) (y % 2)
  bitwise_lowest x y =
      omega (arith, digits_trim (x - suc x / 2) x (suc x / 2) (y / 2) (omega arith))

pub bit_or_step : (x y : ℕ) → bit_or x y ≡ bit_or (x / 2) (y / 2) * 2 + max (x % 2) (y % 2)
bit_or_step zero y = simp bit_or-bitwise (omega arith)
bit_or_step (suc x) y = simp bit_or-bitwise (bitwise_lowest (λ b. b) max x y)

pub bit_and_step : (x y : ℕ) → bit_and x y ≡ bit_and (x / 2) (y / 2) * 2 + min (x % 2) (y % 2)
bit_and_step zero y = simp bit_and-bitwise (omega arith)
bit_and_step (suc x) y = simp bit_and-bitwise (bitwise_lowest (λ b. zero) min x y)

differ_digits : (p q : ℕ) → p ≤ 1 → q ≤ 1 → differ p q ≡ (p + q) % 2
differ_digits zero q hp hq = omega arith
differ_digits (suc p) zero hp hq = omega arith
differ_digits (suc zero) (suc zero) hp hq = refl
differ_digits (suc zero) (suc (suc q)) hp hq = absurd (omega arith)
differ_digits (suc (suc p)) (suc q) hp hq = absurd (omega arith)

pub bit_xor_step : (x y : ℕ) → bit_xor x y ≡ bit_xor (x / 2) (y / 2) * 2 + (x + y) % 2
bit_xor_step zero y = simp bit_xor-bitwise (omega arith)
bit_xor_step (suc x) y = simp bit_xor-bitwise (
    omega (
      arith,
      bitwise_lowest (λ b. b) differ x y,
      differ_digits (suc x % 2) (y % 2) (omega arith) (omega arith),
    ))
