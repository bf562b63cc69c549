-- ===== src/Prelude/Int.antt =====
-- Python's signed integers over the native numbers, as far as the flag computations use them.
use Prim.Native.Nat.{ℕ, suc, ◌+◌, ◌-◌, ◌<◌, bit_and, bit_xor}
use mathlib.Core.Path.{◌≡◌}
use mathlib.Core.Bool.{Bool, true, false}
use native.Mathlib.Omega.{arith}
use dos_re.Prelude.Tests.{leb, ltb, if◌then◌else◌}

-- `negsuc n` is -(n + 1).
pub data ℤ : Type 0 where
  pos : ℕ → ℤ
  negsuc : ℕ → ℤ

-- a - b, as an integer.
abbrev pub sub_ℕ : ℕ → ℕ → ℤ
sub_ℕ a b = if leb b a then pos (a - b) else negsuc (b - a - 1)

abbrev pub is_negative : ℤ → Bool
is_negative (pos n) = false
is_negative (negsuc n) = true

-- `x & m` for a mask m ≥ 0: `~n & m` for a negative x = ~n.
abbrev pub and_mask : ℤ → ℕ → ℕ
and_mask (pos n) m = bit_and n m
and_mask (negsuc n) m = bit_xor m (bit_and n m)

abbrev pub pos_part : ℤ → ℕ
pos_part (pos n) = n
pos_part (negsuc _) = 0

abbrev pub neg_part : ℤ → ℕ
neg_part (pos _) = 0
neg_part (negsuc n) = suc n

infixl 65 ◌+ℤ◌ ◌-ℤ◌
unfoldable pub ◌+ℤ◌ : ℤ → ℤ → ℤ
a +ℤ b = sub_ℕ (pos_part a + pos_part b) (neg_part a + neg_part b)

unfoldable pub ◌-ℤ◌ : ℤ → ℤ → ℤ
a -ℤ b = sub_ℕ (pos_part a + neg_part b) (neg_part a + pos_part b)

infix 50 ◌<ℤ◌
abbrev pub ◌<ℤ◌ : ℤ → ℤ → Type 0
a <ℤ b = pos_part a + neg_part b < pos_part b + neg_part a

abbrev pub ltb_ℤ : ℤ → ℤ → Bool
ltb_ℤ a b = ltb (pos_part a + neg_part b) (pos_part b + neg_part a)

pub pos_part-+ℤ :
    (a b : ℤ) → pos_part (a +ℤ b) ≡ pos_part a + pos_part b - (neg_part a + neg_part b)
unfolding ◌+ℤ◌
pos_part-+ℤ a b = ground arith

pub neg_part-+ℤ :
    (a b : ℤ) → neg_part (a +ℤ b) ≡ neg_part a + neg_part b - (pos_part a + pos_part b)
unfolding ◌+ℤ◌
neg_part-+ℤ a b = ground arith

pub pos_part--ℤ :
    (a b : ℤ) → pos_part (a -ℤ b) ≡ pos_part a + neg_part b - (neg_part a + pos_part b)
unfolding ◌-ℤ◌
pos_part--ℤ a b = ground arith

pub neg_part--ℤ :
    (a b : ℤ) → neg_part (a -ℤ b) ≡ neg_part a + pos_part b - (pos_part a + neg_part b)
unfolding ◌-ℤ◌
neg_part--ℤ a b = ground arith

abbrev pub leb_ℤ : ℤ → ℤ → Bool
leb_ℤ a b = leb (pos_part a + neg_part b) (pos_part b + neg_part a)
