-- ===== src/Cpu/Regs/Bytes.antt =====
-- The byte registers of dos_re/cpu.py as the two halves of a word register.
use dos_re.Prelude.{ℕ, ◌+◌, ◌*◌, ◌/◌, ◌%◌, ◌^◌, bit_and, bit_or, ◌≡◌, ◌≢◌, refl, ap, arith}
use dos_re.Prelude.Bits.{bit_and_mask, or_fields, or_comm, and_high}
use dos_re.X86.{CpuState}
use dos_re.Cpu.Regs.{Reg8, al, cl, dl, bl, ah, ch, dh, bh, get_reg8, set_reg8}

-- Writing the low byte, and the high byte, of a word.
low_written :
    (old v : ℕ)
    → bit_and (bit_or (bit_and old 0xff00) (v % 256)) 0xffff ≡ old / 256 % 256 * 256 + v % 256
low_written old v = omega (
  arith,
  bit_and_mask 16 (bit_or (bit_and old 0xff00) (v % 256)),
  bit_and_mask 8 (old / 256),
  ap (λ (t : ℕ). bit_or t (v % 256)) (and_high 8 old 0xff),
  or_fields 8 (bit_and (old / 256) 0xff) (v % 256) (omega arith),
)

high_written :
    (old v : ℕ) → bit_and (bit_or (old % 256) (v % 256 * 2 ^ 8)) 0xffff ≡ v % 256 * 256 + old % 256
high_written old v = omega (
  arith,
  bit_and_mask 16 (bit_or (old % 256) (v % 256 * 2 ^ 8)),
  or_comm (old % 256) (v % 256 * 2 ^ 8),
  or_fields 8 (v % 256) (old % 256) (omega arith),
)

low_read : (x : ℕ) → bit_and x 0xff ≡ x % 256
low_read x = bit_and_mask 8 x

ruleset halves = (low_written, high_written, low_read)

same : (r : Reg8) (v : ℕ) (s : CpuState) → get_reg8 r (set_reg8 r v s) ≡ v % 256
unfolding get_reg8 set_reg8
same al v s = simp halves (omega arith)
same cl v s = simp halves (omega arith)
same dl v s = simp halves (omega arith)
same bl v s = simp halves (omega arith)
same ah v s = simp halves (omega arith)
same ch v s = simp halves (omega arith)
same dh v s = simp halves (omega arith)
same bh v s = simp halves (omega arith)

other : (i j : Reg8) (v : ℕ) (s : CpuState) → i ≢ j → get_reg8 j (set_reg8 i v s) ≡ get_reg8 j s
unfolding get_reg8 set_reg8
other al al v s h = absurd (h refl)
other cl cl v s h = absurd (h refl)
other dl dl v s h = absurd (h refl)
other bl bl v s h = absurd (h refl)
other ah ah v s h = absurd (h refl)
other ch ch v s h = absurd (h refl)
other dh dh v s h = absurd (h refl)
other bh bh v s h = absurd (h refl)
other al ah v s h = simp halves (omega arith)
other cl ch v s h = simp halves (omega arith)
other dl dh v s h = simp halves (omega arith)
other bl bh v s h = simp halves (omega arith)
other ah al v s h = simp halves (omega arith)
other ch cl v s h = simp halves (omega arith)
other dh dl v s h = simp halves (omega arith)
other bh bl v s h = simp halves (omega arith)
other _ _ v s h = refl

-- A byte register reads back what was last written to it, cut to a byte, and a write to any
-- other byte register, the other half of the same word included, does not change it.
pub get_reg8-set_reg8 :
    (i j : Reg8) (v : ℕ) (s : CpuState)
    → (get_reg8 i (set_reg8 i v s) ≡ v % 256) × (i ≢ j → get_reg8 j (set_reg8 i v s) ≡ get_reg8 j s)
get_reg8-set_reg8 i j v s = (same i v s, other i j v s)
