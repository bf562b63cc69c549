-- ===== src/Cpu/Alu/Arith.antt =====
-- set_add_flags and set_sub_flags of dos_re/cpu.py against the arithmetic that they report, at
-- every word width.
use dos_re.Prelude.{
  ℕ, suc, ◌+◌, ◌-◌, ◌*◌, ◌%◌, ◌^◌, ◌≤◌, ◌<◌, ◌≡◌, arith, Bool, not, ◌&&◌, ◌||◌, ◌==◌, ltb, leb,
  if◌then◌else◌,
}
use native.Mathlib.Nat.{pow-suc, one-le-pow, mod-lt}
use dos_re.Prelude.Int.{
  ℤ, pos, sub_ℕ, is_negative, ◌+ℤ◌, ◌-ℤ◌, pos_part-+ℤ, neg_part-+ℤ, pos_part--ℤ, neg_part--ℤ,
  pos_part, neg_part,
}
use dos_re.Prelude.Bits.{bit_and_mask}
use dos_re.X86.{parity}
use dos_re.Cpu.Flags.{set_add_flags, set_sub_flags}
use dos_re.Cpu.Flags.Chain.{arith_chain}
use dos_re.Cpu.Alu.Word.{
  signed, wrap_once, and_mask-sub, truthy_sign, truthy_add_overflow, truthy_sub_overflow,
}

-- Whether an integer lies outside the two's complement range of `suc n` bits.
unfoldable pub overflows : ℕ → ℤ → Bool
overflows n v = leb (2 ^ n) (pos_part v) || ltb (2 ^ n) (neg_part v)

module _ (n a b carry : ℕ) (ha : a < 2 ^ suc n) (hb : b < 2 ^ suc n) (hc : carry ≤ 1) where
  -- The four sign cases of a sum.
  add_overflow :
      (if leb (2 ^ n) a
        then leb (2 ^ n) b && not (leb (2 ^ n) ((a + b + carry) % 2 ^ suc n))
        else not (leb (2 ^ n) b) && leb (2 ^ n) ((a + b + carry) % 2 ^ suc n))
      ≡ overflows n (signed n a +ℤ signed n b +ℤ pos carry)
  unfolding overflows signed
  add_overflow =
      let twice : 2 ^ suc n ≡ 2 ^ n * 2 = pow-suc 2 n in
      let positive : 0 < 2 ^ n = one-le-pow n 2 (omega arith) in
      let wrap = wrap_once (a + b + carry) (2 ^ suc n) (omega arith) in
      simp (pos_part-+ℤ, neg_part-+ℤ) (ground arith)

  abbrev add_chain : ℕ → ℕ
  add_chain flags =
      let r = (a + b + carry) % 2 ^ suc n in
      arith_chain (leb (2 ^ suc n) (a + b + carry)) (parity (r % 256))
        (leb 16 (a % 16 + b % 16 + carry)) (r == 0) (leb (2 ^ n) r)
        (overflows n (signed n a +ℤ signed n b +ℤ pos carry)) flags

  pub set_add_flags-add_chain :
      (flags : ℕ) → set_add_flags a b (a + b + carry) (suc n) carry flags ≡ add_chain flags
  unfolding set_add_flags
  set_add_flags-add_chain flags =
      let positive : 0 < 2 ^ suc n = one-le-pow (suc n) 2 (omega arith) in
      let low : suc n - 1 ≡ n = omega arith in
      let r = (a + b + carry) % 2 ^ suc n in
      let hr : r < 2 ^ suc n = mod-lt (a + b + carry) positive in
      let carry_out : ltb (2 ^ suc n - 1) (a + b + carry) ≡ leb (2 ^ suc n) (a + b + carry) =
        ground arith in
      let adjust : ltb 15 (a % 16 + b % 16 + carry) ≡ leb 16 (a % 16 + b % 16 + carry) =
        ground arith in
      rw (
        low,
        bit_and_mask (suc n) (a + b + carry),
        bit_and_mask 8 r,
        bit_and_mask 4 a,
        bit_and_mask 4 b,
        truthy_sign n r hr,
        truthy_add_overflow n a b r ha hb hr,
        carry_out,
        adjust,
        add_overflow,
      )

  -- The four sign cases of a difference.
  sub_overflow :
      (if leb (2 ^ n) a
        then not (leb (2 ^ n) b) && not (leb (2 ^ n) ((a + 2 ^ suc n - (b + carry)) % 2 ^ suc n))
        else leb (2 ^ n) b && leb (2 ^ n) ((a + 2 ^ suc n - (b + carry)) % 2 ^ suc n))
      ≡ overflows n (signed n a -ℤ signed n b -ℤ pos carry)
  unfolding overflows signed
  sub_overflow =
      let twice : 2 ^ suc n ≡ 2 ^ n * 2 = pow-suc 2 n in
      let positive : 0 < 2 ^ n = one-le-pow n 2 (omega arith) in
      let wrap = wrap_once (a + 2 ^ suc n - (b + carry)) (2 ^ suc n) (omega arith) in
      simp (pos_part--ℤ, neg_part--ℤ) (ground arith)

  abbrev sub_chain : ℕ → ℕ
  sub_chain flags =
      let r = (a + 2 ^ suc n - (b + carry)) % 2 ^ suc n in
      arith_chain (ltb a (b + carry)) (parity (r % 256)) (ltb (a % 16) (b % 16 + carry)) (r == 0)
        (leb (2 ^ n) r) (overflows n (signed n a -ℤ signed n b -ℤ pos carry)) flags

  pub set_sub_flags-sub_chain :
      (flags : ℕ) → set_sub_flags a b (sub_ℕ a (b + carry)) (suc n) carry flags ≡ sub_chain flags
  unfolding set_sub_flags
  set_sub_flags-sub_chain flags =
      let positive : 0 < 2 ^ suc n = one-le-pow (suc n) 2 (omega arith) in
      let low : suc n - 1 ≡ n = omega arith in
      let r = (a + 2 ^ suc n - (b + carry)) % 2 ^ suc n in
      let hr : r < 2 ^ suc n = mod-lt (a + 2 ^ suc n - (b + carry)) positive in
      let borrow : is_negative (sub_ℕ a (b + carry)) ≡ ltb a (b + carry) = ground arith in
      rw (
        low,
        and_mask-sub (suc n) a (b + carry) ha (omega arith),
        bit_and_mask 8 r,
        bit_and_mask 4 a,
        bit_and_mask 4 b,
        truthy_sign n r hr,
        truthy_sub_overflow n a b r ha hb hr,
        borrow,
        sub_overflow,
      )
