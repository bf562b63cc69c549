-- ===== src/Cpu/Alu/Compare.antt =====
-- CMP followed by a conditional jump: group 7 of `CPU8086.alu` and `condition` of dos_re/cpu.py.
use dos_re.Prelude.{
  ℕ, suc, ◌+◌, ◌-◌, ◌*◌, ◌%◌, ◌^◌, ◌<◌, ◌≡◌, ◌∙◌, ap, ap₂, arith, not, ◌==◌, ltb, leb, some, ◌&&◌,
  ◌||◌,
}
use native.Mathlib.Nat.{pow-suc, one-le-pow}
use dos_re.Prelude.Int.{pos, ◌-ℤ◌, ltb_ℤ, leb_ℤ, pos_part--ℤ, neg_part--ℤ}
use dos_re.Cpu.Alu.{alu, condition, differ}
use dos_re.Cpu.Alu.Word.{signed, wrap_once}
use dos_re.Cpu.Alu.Arith.{overflows}
use dos_re.Cpu.Alu.Condition.{condition-by_flags}
use dos_re.Cpu.Alu.Results.{IsDifference, alu-subs}

-- What the jumps decide: equality, the unsigned order and the signed order of the operands.
pub record Decides (n a b f : ℕ) : Type 0 where
  pub jb : condition 0x2 f ≡ ltb a b
  pub jnb : condition 0x3 f ≡ leb b a
  pub jz : condition 0x4 f ≡ (a == b)
  pub jnz : condition 0x5 f ≡ not (a == b)
  pub jbe : condition 0x6 f ≡ leb a b
  pub ja : condition 0x7 f ≡ ltb b a
  pub jl : condition 0xc f ≡ ltb_ℤ (signed n a) (signed n b)
  pub jge : condition 0xd f ≡ leb_ℤ (signed n b) (signed n a)
  pub jle : condition 0xe f ≡ leb_ℤ (signed n a) (signed n b)
  pub jg : condition 0xf f ≡ ltb_ℤ (signed n b) (signed n a)

module _ (n a b : ℕ) (ha : a < 2 ^ suc n) (hb : b < 2 ^ suc n) where
  -- The wrapped difference is zero exactly at equal operands.
  zero_difference : ((a + 2 ^ suc n - (b + 0)) % 2 ^ suc n == 0) ≡ (a == b)
  zero_difference =
      let wrap = wrap_once (a + 2 ^ suc n - (b + 0)) (2 ^ suc n) (omega arith) in ground arith

  -- SF and OF differ exactly where the signed order holds.
  signed_order :
      differ
        (leb (2 ^ n) ((a + 2 ^ suc n - (b + 0)) % 2 ^ suc n))
        (overflows n (signed n a -ℤ signed n b -ℤ pos 0))
      ≡ ltb_ℤ (signed n a) (signed n b)
  unfolding overflows signed
  signed_order =
      let twice : 2 ^ suc n ≡ 2 ^ n * 2 = pow-suc 2 n in
      let positive : 0 < 2 ^ n = one-le-pow n 2 (omega arith) in
      let wrap = wrap_once (a + 2 ^ suc n - (b + 0)) (2 ^ suc n) (omega arith) in
      simp (pos_part--ℤ, neg_part--ℤ) (ground arith)

  signed_le : ((a == b) || ltb_ℤ (signed n a) (signed n b)) ≡ leb_ℤ (signed n a) (signed n b)
  unfolding signed
  signed_le = ground arith

  signed_ge : not (ltb_ℤ (signed n a) (signed n b)) ≡ leb_ℤ (signed n b) (signed n a)
  signed_ge = ground arith

  signed_gt :
      (not (a == b) && not (ltb_ℤ (signed n a) (signed n b))) ≡ ltb_ℤ (signed n b) (signed n a)
  unfolding signed
  signed_gt = ground arith

  pub decides : {flags r f : ℕ} → IsDifference n a b 0 flags r f → Decides n a b f
  decides {r} {f} h =
      let is_zero : (r == 0) ≡ (a == b) = rw (h.value) zero_difference in
      let less : differ (leb (2 ^ n) r) (overflows n (signed n a -ℤ signed n b -ℤ pos 0))
          ≡ ltb_ℤ (signed n a) (signed n b) =
        rw (h.value) signed_order in
      let same : ltb a (b + 0) ≡ ltb a b = ground arith in
      record {
        jb = condition-by_flags 0x2 h.arithmetic ∙ same;
        jnb = condition-by_flags 0x3 h.arithmetic ∙ ground arith;
        jz = condition-by_flags 0x4 h.arithmetic ∙ is_zero;
        jnz = condition-by_flags 0x5 h.arithmetic ∙ ap not is_zero;
        jbe = condition-by_flags 0x6 h.arithmetic ∙ ap₂ ◌||◌ same is_zero ∙ ground arith;
        ja = condition-by_flags 0x7 h.arithmetic ∙ ap not (ap₂ ◌||◌ same is_zero) ∙ ground arith;
        jl = condition-by_flags 0xc h.arithmetic ∙ less;
        jge = condition-by_flags 0xd h.arithmetic ∙ ap not less ∙ signed_ge;
        jle = condition-by_flags 0xe h.arithmetic ∙ ap₂ ◌||◌ is_zero less ∙ signed_le;
        jg =
            condition-by_flags 0xf h.arithmetic
            ∙ ap₂ (λ z l. not z && not l) is_zero less
            ∙ signed_gt;
      }

-- After a comparison of operands that fit a width of n + 1 bits, the unsigned jumps (jb, jnb, jbe,
-- ja) decide the order of the words, jz and jnz their equality, and the signed jumps (jl, jge,
-- jle, jg) the order of the two's complement integers that the words stand for.
pub condition-cmp :
    (n a b flags : ℕ)
    → a < 2 ^ suc n
    → b < 2 ^ suc n
    → (r f : ℕ) × (alu 7 a b (suc n) flags ≡ some (r, f)) × Decides n a b f
condition-cmp n a b flags ha hb =
    let subs = (alu-subs n a b flags ha hb).0 in
    (subs.0, subs.1, subs.3, decides n a b ha hb subs.4)
