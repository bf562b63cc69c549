-- ===== src/Cpu/Alu/Results.antt =====
-- The results of `CPU8086.alu` in dos_re/cpu.py: the arithmetic groups against integer arithmetic,
-- and what a comparison tells the conditional jumps.
use dos_re.Prelude.{
  ℕ, suc, ◌+◌, ◌-◌, ◌%◌, ◌^◌, ◌≤◌, ◌<◌, ◌≡◌, refl, ap, ap₂, sym, arith, ◌==◌, ltb, leb, from_bool,
  some,
}
use dos_re.Prelude.Int.{pos, ◌+ℤ◌, ◌-ℤ◌, sub_ℕ, and_mask}
use dos_re.Prelude.Bits.{bit_and_mask}
use dos_re.X86.{cf, parity}
use dos_re.Cpu.Flags.{get_flag, set_add_flags, set_sub_flags}
use dos_re.Cpu.Flags.Chain.{
  HasFlags, KeepsControl, arith_chain-HasFlags, arith_chain-KeepsControl, from_bool-le,
}
use dos_re.Cpu.Alu.{alu}
use dos_re.Cpu.Alu.Word.{signed, and_mask-sub}
use dos_re.Cpu.Alu.Arith.{overflows, set_add_flags-add_chain, set_sub_flags-sub_chain}

-- ADD and ADC: `r` is the sum with the carry, wrapped.
pub record IsSum (n a b carry flags : ℕ) (r f : ℕ) : Type 0 where
  pub value : r ≡ (a + b + carry) % 2 ^ suc n
  pub arithmetic :
      HasFlags
        (leb (2 ^ suc n) (a + b + carry))
        (parity (r % 256))
        (leb 16 (a % 16 + b % 16 + carry))
        (r == 0)
        (leb (2 ^ n) r)
        (overflows n (signed n a +ℤ signed n b +ℤ pos carry))
        f
  pub control : KeepsControl flags f

-- SUB, SBB and CMP.
pub record IsDifference (n a b carry flags : ℕ) (r f : ℕ) : Type 0 where
  pub value : r ≡ (a + 2 ^ suc n - (b + carry)) % 2 ^ suc n
  pub arithmetic :
      HasFlags
        (ltb a (b + carry))
        (parity (r % 256))
        (ltb (a % 16) (b % 16 + carry))
        (r == 0)
        (leb (2 ^ n) r)
        (overflows n (signed n a -ℤ signed n b -ℤ pos carry))
        f
  pub control : KeepsControl flags f

module _ (n a b : ℕ) (ha : a < 2 ^ suc n) (hb : b < 2 ^ suc n) where
  sums :
      (carry flags : ℕ)
      → carry ≤ 1
      → IsSum n a b carry flags
          ((a + b + carry) % 2 ^ suc n)
          (set_add_flags a b (a + b + carry) (suc n) carry flags)
  sums carry flags hc = rw (set_add_flags-add_chain n a b carry ha hb hc flags) (record {
    value = refl;
    arithmetic = arith_chain-HasFlags _ _ _ _ _ _ flags;
    control = arith_chain-KeepsControl _ _ _ _ _ _ flags;
  })

  differences :
      (carry flags : ℕ)
      → carry ≤ 1
      → IsDifference n a b carry flags
          ((a + 2 ^ suc n - (b + carry)) % 2 ^ suc n)
          (set_sub_flags a b (sub_ℕ a (b + carry)) (suc n) carry flags)
  differences carry flags hc = rw (set_sub_flags-sub_chain n a b carry ha hb hc flags) (record {
    value = refl;
    arithmetic = arith_chain-HasFlags _ _ _ _ _ _ flags;
    control = arith_chain-KeepsControl _ _ _ _ _ _ flags;
  })

-- For operands that fit a width of n + 1 bits, group 0 (ADD) and group 2 (ADC, with the incoming
-- carry flag) both return the wrapped sum; CF tells that it did not fit, OF that the two's
-- complement sum left the signed range, AF the carry out of the low nibble, ZF, SF and PF describe
-- the result, and the trap, interrupt and direction flags are those of the old word.
pub alu-adds :
    (n a b flags : ℕ)
    → a < 2 ^ suc n
    → b < 2 ^ suc n
    → let c = from_bool (get_flag cf flags) in
      ((r f : ℕ) × (alu 0 a b (suc n) flags ≡ some (r, f)) × IsSum n a b 0 flags r f)
      × ((r f : ℕ) × (alu 2 a b (suc n) flags ≡ some (r, f)) × IsSum n a b c flags r f)
unfolding alu
alu-adds n a b flags ha hb =
    let c = from_bool (get_flag cf flags) in
    let none_in : a + b + 0 ≡ a + b = omega arith in
    (
      (
        (a + b + 0) % 2 ^ suc n,
        set_add_flags a b (a + b + 0) (suc n) 0 flags,
        rw (none_in, bit_and_mask (suc n) (a + b)),
        sums n a b ha hb 0 flags (omega arith),
      ),
      (
        (a + b + c) % 2 ^ suc n,
        set_add_flags a b (a + b + c) (suc n) c flags,
        rw (bit_and_mask (suc n) (a + b + c)),
        sums n a b ha hb c flags (from_bool-le _),
      ),
    )

-- For operands that fit, group 5 (SUB) and group 3 (SBB, with the incoming carry as the borrow)
-- both return the wrapped difference, and group 7 (CMP) agrees with SUB; CF tells that a borrow
-- was needed, OF that the two's complement difference left the signed range, AF the borrow of the
-- low nibble, ZF, SF and PF describe the result, and the control flags are kept.
pub alu-subs :
    (n a b flags : ℕ)
    → a < 2 ^ suc n
    → b < 2 ^ suc n
    → let c = from_bool (get_flag cf flags) in
      ((r f : ℕ) × (alu 5 a b (suc n) flags ≡ some (r, f))
        × (alu 7 a b (suc n) flags ≡ some (r, f))
        × IsDifference n a b 0 flags r f)
      × ((r f : ℕ) × (alu 3 a b (suc n) flags ≡ some (r, f)) × IsDifference n a b c flags r f)
unfolding alu
alu-subs n a b flags ha hb =
    let c = from_bool (get_flag cf flags) in
    let hc = from_bool-le (get_flag cf flags) in
    let none_in : b + 0 ≡ b = omega arith in
    let same : and_mask (sub_ℕ a b) (2 ^ suc n - 1) ≡ (a + 2 ^ suc n - (b + 0)) % 2 ^ suc n =
      rw none_in (and_mask-sub (suc n) a b ha (omega arith)) in
    (
      (
        (a + 2 ^ suc n - (b + 0)) % 2 ^ suc n,
        set_sub_flags a b (sub_ℕ a (b + 0)) (suc n) 0 flags,
        ap₂ (λ r f. some (r, f)) same
            (ap (λ t. set_sub_flags a b (sub_ℕ a t) (suc n) 0 flags) (sym none_in)),
        ap₂ (λ r f. some (r, f)) same
            (ap (λ t. set_sub_flags a b (sub_ℕ a t) (suc n) 0 flags) (sym none_in)),
        differences n a b ha hb 0 flags (omega arith),
      ),
      (
        (a + 2 ^ suc n - (b + c)) % 2 ^ suc n,
        set_sub_flags a b (sub_ℕ a (b + c)) (suc n) c flags,
        rw (and_mask-sub (suc n) a (b + c) ha (omega arith)),
        differences n a b ha hb c flags hc,
      ),
    )
