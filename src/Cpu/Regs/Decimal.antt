-- ===== src/Cpu/Regs/Decimal.antt =====
-- DAA after ADD and ADC: packed decimal addition in dos_re/cpu.py.
use dos_re.Prelude.{
  ℕ, ◌+◌, ◌*◌, ◌/◌, ◌%◌, ◌<◌, ◌≤◌, bit_and, ◌≡◌, refl, ◌∙◌, ap, subst, arith, Bool, leb, some,
  from_bool, truthy, ◌==◌,
}
use native.Mathlib.Nat.{mod-eq_of_lt}
use dos_re.Prelude.Bits.{bit, bit-le, bit_and_mask}
use dos_re.X86.{CpuState, cf, af, zf, sf, pf, parity}
use dos_re.Cpu.Flags.{get_flag, set_flag}
use dos_re.Cpu.Flags.Chain.{bit-set_flag, get_flag-bit, truthy_scaled, from_bool-le}
use dos_re.Cpu.Alu.Results.{IsSum, alu-adds}
use dos_re.Cpu.Regs.Bytes.{get_reg8-set_reg8}
use dos_re.Cpu.Alu.{alu}
use dos_re.Cpu.Regs.{daa, daa_adjust, daa_flags, al, get_reg8, set_reg8}

-- Two decimal digits in one byte.
abbrev pub packed : ℕ → ℕ
packed d = d / 10 * 16 + d % 10

-- The adjustment of the wrapped sum of two packed numbers and a carry, with the flags that the
-- addition leaves, is the packed decimal sum and its decimal carry.
daa_adjust_sum :
    (x y c : ℕ)
    → x < 100
    → y < 100
    → c ≤ 1
    → let sum = packed x + packed y + c in
      let r = daa_adjust (sum % 256) (leb 16 (packed x % 16 + packed y % 16 + c)) (leb 256 sum) in
      (r.0 ≡ packed ((x + y + c) % 100)) × (r.2 ≡ leb 100 (x + y + c))
unfolding daa_adjust
daa_adjust_sum x y c hx hy hc =
    let sum = packed x + packed y + c in
    (
      ground (
        arith,
        bit_and_mask 4 (sum % 256),
        bit_and_mask 8 (sum % 256 + 0x06),
        bit_and_mask 8 (sum % 256 + 0x60),
        bit_and_mask 8 (bit_and (sum % 256 + 0x06) 0xff + 0x60),
      ),
      ground arith,
    )

-- The carry flag after the five `set_flag` calls.
keeps_low : (flag : ℕ) (v : Bool) (f : ℕ) → bit 0 flag ≡ 0 → bit 0 (set_flag flag v f) ≡ bit 0 f
unfolding bit
keeps_low flag v f e = omega (arith, bit-set_flag 0 flag f v, bit-le 0 f, from_bool-le v)

sets_low : (v : Bool) (f : ℕ) → bit 0 (set_flag cf v f) ≡ from_bool v
unfolding bit
sets_low v f = omega (arith, bit-set_flag 0 cf f v, from_bool-le v)

daa_flags-carry :
    (v : ℕ) (low high : Bool) (flags : ℕ) → get_flag cf (daa_flags v low high flags) ≡ high
unfolding daa_flags bit
daa_flags-carry v low high flags =
    let f2 = set_flag cf high (set_flag af low flags) in
    let f3 = set_flag zf (v == 0) f2 in
    let f4 = set_flag sf (truthy (bit_and v 0x80)) f3 in
    get_flag-bit 0 _
    ∙ ap (λ t. truthy (t * 1))
        (keeps_low pf (parity (bit_and v 0xff)) f4 refl
          ∙ keeps_low sf (truthy (bit_and v 0x80)) f3 refl
          ∙ keeps_low zf (v == 0) f2 refl
          ∙ sets_low high (set_flag af low flags))
    ∙ truthy_scaled 0 high

packed-lt : (x : ℕ) → x < 100 → packed x < 256
packed-lt x h = omega arith

-- AL and CF hold the packed decimal sum and its carry after `daa`.
abbrev pub HoldsDecimal : (d : ℕ) → CpuState → Type 0
HoldsDecimal d s = (get_reg8 al s ≡ packed (d % 100)) × (get_flag cf s.flags ≡ leb 100 d)

al_apart : (s : CpuState) (f : ℕ) → get_reg8 al (record s { flags = f }) ≡ get_reg8 al s
unfolding get_reg8
al_apart s f = refl

-- What `daa` leaves in AL and in CF.
daa_reads :
    (s : CpuState) (v : ℕ) (high : Bool)
    → let r = daa_adjust (get_reg8 al s) (get_flag af s.flags) (get_flag cf s.flags) in
      r.0 ≡ v → r.2 ≡ high → (get_reg8 al (daa s) ≡ v % 256) × (get_flag cf (daa s).flags ≡ high)
unfolding daa
daa_reads s v high ev eh =
    let r = daa_adjust (get_reg8 al s) (get_flag af s.flags) (get_flag cf s.flags) in
    (
      al_apart (set_reg8 al r.0 s) _ ∙ (get_reg8-set_reg8 al al r.0 s).0 ∙ ap (λ t. t % 256) ev,
      daa_flags-carry r.0 r.1 r.2 _ ∙ eh,
    )

daa_sum :
    (x y c flags r f : ℕ) (s : CpuState)
    → x < 100
    → y < 100
    → c ≤ 1
    → IsSum 7 (packed x) (packed y) c flags r f
    → get_reg8 al s ≡ r
    → s.flags ≡ f
    → HoldsDecimal (x + y + c) (daa s)
unfolding daa
daa_sum x y c flags r f s hx hy hc h e ef =
    let sum = packed x + packed y + c in
    let in_al : get_reg8 al s ≡ sum % 256 = e ∙ h.value in
    let in_af : get_flag af s.flags ≡ leb 16 (packed x % 16 + packed y % 16 + c) =
      ap (get_flag af) ef ∙ h.arithmetic.adjust in
    let in_cf : get_flag cf s.flags ≡ leb 256 sum = ap (get_flag cf) ef ∙ h.arithmetic.carry in
    let (value, carry) = daa_adjust_sum x y c hx hy hc in
    let reads =
      daa_reads s (packed ((x + y + c) % 100)) (leb 100 (x + y + c))
        (rw (in_al, in_af, in_cf) value) (rw (in_al, in_af, in_cf) carry) in
    (reads.0 ∙ mod-eq_of_lt (packed-lt ((x + y + c) % 100) (omega arith)), reads.1)

-- DAA completes decimal addition: for two packed decimal bytes, if AL and FLAGS hold what ADD, or
-- ADC with the carry flag, of the two has produced, then after `daa` AL holds the packed decimal
-- sum modulo 100, and CF tells whether the sum reached 100.
pub daa-adds :
    (x y flags : ℕ)
    → x < 100
    → y < 100
    → let c = from_bool (get_flag cf flags) in
      ((r f : ℕ) × (alu 0 (packed x) (packed y) 8 flags ≡ some (r, f))
        × ((s : CpuState) → get_reg8 al s ≡ r → s.flags ≡ f → HoldsDecimal (x + y) (daa s)))
      × ((r f : ℕ) × (alu 2 (packed x) (packed y) 8 flags ≡ some (r, f))
          × ((s : CpuState) → get_reg8 al s ≡ r → s.flags ≡ f → HoldsDecimal (x + y + c) (daa s)))
daa-adds x y flags hx hy =
    let c = from_bool (get_flag cf flags) in
    let ((r, f, e, h), (r', f', e', h')) =
      alu-adds 7 (packed x) (packed y) flags (packed-lt x hx) (packed-lt y hy) in
    let plain : x + y + 0 ≡ x + y = omega arith in
    (
      (
        r,
        f,
        e,
        λ s p q.
            subst (λ d. HoldsDecimal d (daa s)) plain
              (daa_sum x y 0 flags r f s hx hy (omega arith) h p q),
      ),
      (r', f', e', λ s p q. daa_sum x y c flags r' f' s hx hy (from_bool-le _) h' p q),
    )
