-- ===== src/Cpu/Alu/Word.antt =====
-- Words of `suc n` bits as numbers: the masks and sign tests of cpu.py's flag helpers, read as
-- remainders and comparisons.
use dos_re.Prelude.{
  ℕ, suc, ◌+◌, ◌-◌, ◌*◌, ◌%◌, ◌^◌, ◌≤◌, ◌<◌, bit_and, bit_xor, ◌≡◌, ◌∙◌, ap, arith, truthy, ◌⊎◌,
  ltb, ltb→lt, lt→ltb, le→ltb, leb, leb→le, Bool-cases, inl, inr, if◌then◌else◌, ◌&&◌, not,
}
use native.Mathlib.Nat.{one-le-pow, add-mod_right, mod-eq_of_lt, mod-eq-sub-mod}
use dos_re.Prelude.Int.{ℤ, pos, negsuc, sub_ℕ, and_mask}
use dos_re.Prelude.Bits.{
  bit_clear, bit-xor, bit-and, bit-clear, bit_and_pow, bit_and_mask, bit_top, mask_xor,
}
use dos_re.Cpu.Flags.Chain.{truthy_scaled}

-- The integer that a word of `suc n` bits stands for in two's complement.
unfoldable pub signed : (n x : ℕ) → ℤ
signed n x = if ltb x (2 ^ n) then pos x else negsuc (2 ^ suc n - x - 1)

-- Its two parts, by the sign bit.
pub signed_low : (n x : ℕ) → x < 2 ^ n → signed n x ≡ pos x
unfolding signed
signed_low n x h = rw (lt→ltb x (2 ^ n) h)

pub signed_high : (n x : ℕ) → 2 ^ n ≤ x → signed n x ≡ negsuc (2 ^ suc n - x - 1)
unfolding signed
signed_high n x h = rw (le→ltb x (2 ^ n) h)

pub and_mask-sub :
    (k a b : ℕ) → a < 2 ^ k → b ≤ 2 ^ k → and_mask (sub_ℕ a b) (2 ^ k - 1) ≡ (a + 2 ^ k - b) % 2 ^ k
and_mask-sub k a b ha hb = elim (Bool-cases (leb b a)) [
  | inl above ↦
      let le : b ≤ a = leb→le b a above in
      let wrap : a + 2 ^ k - b ≡ a - b + 2 ^ k = omega arith in
      rw (above, wrap, add-mod_right (a - b) (2 ^ k)) (bit_and_mask k (a - b))
  | inr below ↦
      let lt : a < b = ground arith in
      let small : (b - a - 1) % 2 ^ k ≡ b - a - 1 = mod-eq_of_lt (omega arith) in
      let inverted = mask_xor k (b - a - 1) (omega arith) in
      rw
        (
          below,
          bit_and_mask k (b - a - 1),
          small,
          inverted,
          mod-eq_of_lt {n = a + 2 ^ k - b} {m = 2 ^ k} (omega arith),
        )
        (omega arith)
]

module _ (n : ℕ) where
  -- The sign test on words of `suc n` bits.
  pub truthy_sign : (x : ℕ) → x < 2 ^ suc n → truthy (bit_and x (2 ^ n)) ≡ leb (2 ^ n) x
  truthy_sign x h =
      ap truthy (bit_and_pow n x ∙ ap (λ t. t * 2 ^ n) (bit_top n x h)) ∙ truthy_scaled n _

  -- `(~(a ^ b) & (a ^ r)) & sign`: the operands agree in sign, and the result does not.
  pub truthy_add_overflow :
      (a b r : ℕ)
      → a < 2 ^ suc n
      → b < 2 ^ suc n
      → r < 2 ^ suc n
      → truthy (bit_and (bit_clear (bit_xor a r) (bit_xor a b)) (2 ^ n)) ≡ (
          if leb (2 ^ n) a
          then leb (2 ^ n) b && not (leb (2 ^ n) r)
          else not (leb (2 ^ n) b) && leb (2 ^ n) r)
  truthy_add_overflow a b r ha hb hr = ground (
    arith,
    bit_and_pow n (bit_clear (bit_xor a r) (bit_xor a b)),
    bit-clear n (bit_xor a r) (bit_xor a b),
    bit-xor n a r,
    bit-xor n a b,
    bit_top n a ha,
    bit_top n b hb,
    bit_top n r hr,
    one-le-pow n 2,
  )

  -- `(a ^ b) & (a ^ r) & sign`: the operands differ in sign, and the result follows the second.
  pub truthy_sub_overflow :
      (a b r : ℕ)
      → a < 2 ^ suc n
      → b < 2 ^ suc n
      → r < 2 ^ suc n
      → truthy (bit_and (bit_and (bit_xor a b) (bit_xor a r)) (2 ^ n)) ≡ (
          if leb (2 ^ n) a
          then not (leb (2 ^ n) b) && not (leb (2 ^ n) r)
          else leb (2 ^ n) b && leb (2 ^ n) r)
  truthy_sub_overflow a b r ha hb hr = ground (
    arith,
    bit_and_pow n (bit_and (bit_xor a b) (bit_xor a r)),
    bit-and n (bit_xor a b) (bit_xor a r),
    bit-xor n a r,
    bit-xor n a b,
    bit_top n a ha,
    bit_top n b hb,
    bit_top n r hr,
    one-le-pow n 2,
  )

-- A remainder of less than twice the modulus.
pub wrap_once : (x m : ℕ) → x < m + m → (x < m) × (x % m ≡ x) ⊎ (m ≤ x) × (x % m + m ≡ x)
wrap_once x m h = elim (Bool-cases (ltb x m)) [
  | inl low ↦ let lt : x < m = ltb→lt x m low in inl (lt, mod-eq_of_lt lt)
  | inr high ↦
      let le : m ≤ x = ground arith in
      let drop = mod-eq-sub-mod le in
      let small : (x - m) % m ≡ x - m = mod-eq_of_lt (omega arith) in inr (le, omega arith)
]
