-- ===== src/Cpu/Alu/IncDec.antt =====
-- INC and DEC of dos_re/cpu.py: `set_incdec_flags` against ADD and SUB of one.
use dos_re.Prelude.{
  ℕ, zero, suc, ◌+◌, ◌-◌, ◌*◌, ◌%◌, ◌^◌, ◌<◌, min, max, bit_and, ◌≡◌, ◌∙◌, ap, sym, arith, Bool,
  true, false, ◌==◌, leb, ltb, from_bool,
}
use native.Mathlib.Nat.{pow-suc, one-le-pow, mod-lt, zero-max, min-zero, max-zero, sub-zero}
use dos_re.Prelude.Int.{pos, sub_ℕ, ◌+ℤ◌, ◌-ℤ◌, pos_part-+ℤ, neg_part-+ℤ, pos_part--ℤ, neg_part--ℤ}
use dos_re.Prelude.Bits.{
  bit, bit-le, bit-and, bit-clear, bit-zero, bit_and_pow, bit_and_mask, bit_ext, bit_clear,
}
use dos_re.X86.{cf, pf, af, zf, sf, of}
use dos_re.Cpu.Flags.{
  or_if, finish, set_flag, get_flag, set_add_flags, set_sub_flags, set_incdec_flags,
}
use dos_re.Cpu.Flags.Chain.{bit-finish, bit-or_if, bit-set_flag, from_bool-le}
use dos_re.Cpu.Alu.Word.{signed, truthy_sign, wrap_once}
use dos_re.Cpu.Alu.Arith.{overflows, set_add_flags-add_chain, set_sub_flags-sub_chain}

-- CF is the lowest bit of the word.
low_bit : (old : ℕ) → bit_and old 1 ≡ from_bool (get_flag cf old)
unfolding get_flag
low_bit old = ground (arith, bit_and_pow 0 old, bit-le 0 old)

scaled : (k : ℕ) (v : Bool) → bit k (from_bool v) ≡ min (from_bool v) (bit k 1)
scaled k true = omega (arith, bit-le k 1)
scaled k false = omega (arith, bit-zero k)

carry_bit : (k old : ℕ) → min (bit k old) (bit k 1) ≡ min (from_bool (get_flag cf old)) (bit k 1)
carry_bit k old = sym (bit-and k old 1) ∙ ap (bit k) (low_bit old) ∙ scaled k (get_flag cf old)

finish_again : (x t m : ℕ) → min (max (min (max x t) m) t) m ≡ min (max x t) m
finish_again x t m = omega arith

max_assoc : (x y w : ℕ) → max (max x y) w ≡ max x (max y w)
max_assoc x y w = omega arith

module _ (p a z s o : Bool) where
  -- The five flags that both chains write.
  nest : ℕ → ℕ
  nest f = or_if o of (or_if a af (or_if p pf (or_if s sf (or_if z zf f))))

  nest_bit : ℕ → ℕ
  nest_bit k = bit k (nest 0)

  bit-nest : (k f : ℕ) → bit k (nest f) ≡ max (bit k f) (nest_bit k)
  unfolding nest nest_bit
  bit-nest k f = simp (bit-or_if, bit-zero, zero-max, max_assoc)

  -- None of them is the carry.
  nest_low : bit_and (nest 0) 1 ≡ 0
  unfolding nest bit
  nest_low = bit_and_pow 0 (nest 0) ∙ simp bit-or_if (omega (arith, from_bool-le))

  nest_apart : (k : ℕ) → min (nest_bit k) (bit k 1) ≡ 0
  unfolding nest_bit
  nest_apart k = sym (bit-and k (nest 0) 1) ∙ ap (bit k) nest_low ∙ bit-zero k

  restore_bit :
      (c : Bool) (old k : ℕ)
      → bit k (set_flag cf (get_flag cf old) (finish (nest (or_if c cf (bit_clear old 0x08d5)))))
        ≡ bit k (finish (nest (bit_clear old 0x08d4)))
  unfolding bit
  restore_bit c old zero =
      simp (bit-set_flag, bit-finish, bit-nest, bit-or_if, bit-clear)
        (omega (arith, carry_bit 0 old, nest_apart 0, from_bool-le c))
  restore_bit c old (suc k) =
      let above : bit k 0 ≡ 0 = bit-zero k in
      simp
        (
          bit-set_flag, bit-finish, bit-nest, bit-or_if, bit-clear, above, min-zero, max-zero,
          sub-zero,
        )
        (finish_again _ _ _)

  -- Writing the old carry over the chain of ADD leaves the chain of INC.
  restore_carry :
      (c : Bool) (old : ℕ)
      → set_flag cf (get_flag cf old) (finish (nest (or_if c cf (bit_clear old 0x08d5))))
        ≡ finish (nest (bit_clear old 0x08d4))
  restore_carry c old = bit_ext _ _ (restore_bit c old)

one-lt-pow : (n : ℕ) → 0 < n → 1 < 2 ^ n
one-lt-pow zero h = absurd (omega arith)
one-lt-pow (suc n) h = omega (arith, pow-suc 2 n, one-le-pow n 2 (omega arith))

module _ (n old : ℕ) (fits : old < 2 ^ suc n) (wide : 0 < n) where
  -- The signed overflow of adding one, and of taking one away.
  inc_overflow :
      ((old + 1 + 0) % 2 ^ suc n == 2 ^ n) ≡ overflows n (signed n old +ℤ signed n 1 +ℤ pos 0)
  unfolding overflows signed
  inc_overflow =
      let twice : 2 ^ suc n ≡ 2 ^ n * 2 = pow-suc 2 n in
      let room = one-lt-pow n wide in
      let wrap = wrap_once (old + 1 + 0) (2 ^ suc n) (omega arith) in
      simp (pos_part-+ℤ, neg_part-+ℤ) (ground arith)

  dec_overflow : (old == 2 ^ n) ≡ overflows n (signed n old -ℤ signed n 1 -ℤ pos 0)
  unfolding overflows signed
  dec_overflow =
      let twice : 2 ^ suc n ≡ 2 ^ n * 2 = pow-suc 2 n in
      let room = one-lt-pow n wide in simp (pos_part--ℤ, neg_part--ℤ) (ground arith)

  inc_word :
      (flags : ℕ)
      → set_incdec_flags old ((old + 1 + 0) % 2 ^ suc n) (suc n) false flags
        ≡ set_flag cf (get_flag cf flags) (set_add_flags old 1 (old + 1 + 0) (suc n) 0 flags)
  unfolding set_incdec_flags nest
  inc_word flags =
      let positive : 0 < 2 ^ suc n = one-le-pow (suc n) 2 (omega arith) in
      let low : suc n - 1 ≡ n = omega arith in
      let r = (old + 1 + 0) % 2 ^ suc n in
      let hr : r < 2 ^ suc n = mod-lt (old + 1 + 0) positive in
      let adjust : (old % 16 == 15) ≡ leb 16 (old % 16 + 1 + 0) = ground arith in
      let one_fits : 1 < 2 ^ suc n = one-lt-pow (suc n) (omega arith) in
      rw
        (
          set_add_flags-add_chain n old 1 0 fits one_fits (omega arith) flags,
          low,
          bit_and_mask 8 r,
          bit_and_mask 4 old,
          truthy_sign n r hr,
          adjust,
          inc_overflow,
        )
        (sym (restore_carry _ _ _ _ _ _ flags))

  dec_word :
      (flags : ℕ)
      → set_incdec_flags old ((old + 2 ^ suc n - (1 + 0)) % 2 ^ suc n) (suc n) true flags
        ≡ set_flag cf (get_flag cf flags) (set_sub_flags old 1 (sub_ℕ old (1 + 0)) (suc n) 0 flags)
  unfolding set_incdec_flags nest
  dec_word flags =
      let positive : 0 < 2 ^ suc n = one-le-pow (suc n) 2 (omega arith) in
      let low : suc n - 1 ≡ n = omega arith in
      let r = (old + 2 ^ suc n - (1 + 0)) % 2 ^ suc n in
      let hr : r < 2 ^ suc n = mod-lt (old + 2 ^ suc n - (1 + 0)) positive in
      let adjust : (old % 16 == 0) ≡ ltb (old % 16) (1 + 0) = ground arith in
      let one_fits : 1 < 2 ^ suc n = one-lt-pow (suc n) (omega arith) in
      rw
        (
          set_sub_flags-sub_chain n old 1 0 fits one_fits (omega arith) flags,
          low,
          bit_and_mask 8 r,
          bit_and_mask 4 old,
          truthy_sign n r hr,
          adjust,
          dec_overflow,
        )
        (sym (restore_carry _ _ _ _ _ _ flags))

-- INC and DEC write the flags that ADD and SUB of one would, and then put the old CF back: the
-- whole word agrees, at every width of more than one bit and for every operand that fits it.
pub set_incdec_flags-restores_carry :
    (n old flags : ℕ)
    → old < 2 ^ suc n
    → 0 < n
    → (set_incdec_flags old ((old + 1) % 2 ^ suc n) (suc n) false flags
        ≡ set_flag cf (get_flag cf flags) (set_add_flags old 1 (old + 1) (suc n) 0 flags))
      × (set_incdec_flags old ((old + 2 ^ suc n - 1) % 2 ^ suc n) (suc n) true flags
          ≡ set_flag cf (get_flag cf flags) (set_sub_flags old 1 (sub_ℕ old 1) (suc n) 0 flags))
set_incdec_flags-restores_carry n old flags h wide =
    let plain : old + 1 + 0 ≡ old + 1 = omega arith in
    (rw plain at (inc_word n old h wide flags), dec_word n old h wide flags)
