-- ===== src/Cpu/Regs.antt =====
-- The register accessors of `CPU8086` in dos_re/cpu.py: get_reg16 and set_reg16, get_reg8 and
-- set_reg8 over REG16, REG8 and _REG8_BASE, the segment registers over SREG, and `daa`.
pub mod Bytes
pub mod Decimal
use dos_re.Prelude.{
  ℕ, ◌+◌, ◌*◌, ◌/◌, ◌^◌, bit_and, bit_or, Bool, true, false, Option, some, none, ◌==◌, ltb, truthy,
  if◌then◌else◌, ◌||◌, List, [], ◌∷◌, get_elem?,
}
use dos_re.X86.{cf, pf, af, zf, sf, parity, CpuState}
use dos_re.Cpu.Flags.{set_flag, get_flag}

pub data Reg16 : Type 0 where
  ax cx dx bx sp bp si di : Reg16

pub data Reg8 : Type 0 where
  al cl dl bl ah ch dh bh : Reg8

pub data SegReg : Type 0 where
  es cs ss ds : SegReg

-- The tables, by the index of an instruction's field.
abbrev pub reg16_table : List Reg16
reg16_table = ax ∷ cx ∷ dx ∷ bx ∷ sp ∷ bp ∷ si ∷ di ∷ []

abbrev pub reg8_table : List Reg8
reg8_table = al ∷ cl ∷ dl ∷ bl ∷ ah ∷ ch ∷ dh ∷ bh ∷ []

abbrev pub sreg_table : List SegReg
sreg_table = es ∷ cs ∷ ss ∷ ds ∷ []

-- `getattr(self.s, name)` and `setattr`.
unfoldable pub read16 : Reg16 → CpuState → ℕ
read16 ax s = s.ax
read16 cx s = s.cx
read16 dx s = s.dx
read16 bx s = s.bx
read16 sp s = s.sp
read16 bp s = s.bp
read16 si s = s.si
read16 di s = s.di

unfoldable pub write16 : Reg16 → ℕ → CpuState → CpuState
write16 ax v s = record s { ax = v }
write16 cx v s = record s { cx = v }
write16 dx v s = record s { dx = v }
write16 bx v s = record s { bx = v }
write16 sp v s = record s { sp = v }
write16 bp v s = record s { bp = v }
write16 si v s = record s { si = v }
write16 di v s = record s { di = v }

unfoldable pub get_reg16 : Reg16 → CpuState → ℕ
unfolding read16
get_reg16 r s = bit_and (read16 r s) 0xffff

unfoldable pub set_reg16 : Reg16 → ℕ → CpuState → CpuState
unfolding write16
set_reg16 r value s = write16 r (bit_and value 0xffff) s

-- _REG8_BASE, and `idx >= 4`.
unfoldable pub reg8_base : Reg8 → Reg16
reg8_base al = ax
reg8_base cl = cx
reg8_base dl = dx
reg8_base bl = bx
reg8_base ah = ax
reg8_base ch = cx
reg8_base dh = dx
reg8_base bh = bx

unfoldable pub is_high : Reg8 → Bool
is_high al = false
is_high cl = false
is_high dl = false
is_high bl = false
is_high _ = true

unfoldable pub get_reg8 : Reg8 → CpuState → ℕ
unfolding reg8_base is_high read16
get_reg8 r s =
    let v = read16 (reg8_base r) s in if is_high r then bit_and (v / 2 ^ 8) 0xff else bit_and v 0xff

unfoldable pub set_reg8 : Reg8 → ℕ → CpuState → CpuState
unfolding reg8_base is_high read16 write16
set_reg8 r value s =
    let old = read16 (reg8_base r) s in
    let cur =
      if is_high r
      then bit_or (bit_and old 0x00ff) (bit_and value 0xff * 2 ^ 8)
      else bit_or (bit_and old 0xff00) (bit_and value 0xff) in
    write16 (reg8_base r) (bit_and cur 0xffff) s

unfoldable pub get_sreg : SegReg → CpuState → ℕ
get_sreg es s = bit_and s.es 0xffff
get_sreg cs s = bit_and s.cs 0xffff
get_sreg ss s = bit_and s.ss 0xffff
get_sreg ds s = bit_and s.ds 0xffff

unfoldable pub set_sreg : SegReg → ℕ → CpuState → CpuState
set_sreg es v s = record s { es = bit_and v 0xffff }
set_sreg cs v s = record s { cs = bit_and v 0xffff }
set_sreg ss v s = record s { ss = bit_and v 0xffff }
set_sreg ds v s = record s { ds = bit_and v 0xffff }

-- The adjusted AL with the two tests.
unfoldable pub daa_adjust : (old_al : ℕ) (old_af old_cf : Bool) → ℕ × Bool × Bool
daa_adjust old_al old_af old_cf =
    let adjust_low = ltb 9 (bit_and old_al 0x0f) || old_af in
    let al1 = if adjust_low then bit_and (old_al + 0x06) 0xff else old_al in
    let adjust_high = ltb 0x99 old_al || old_cf in
    let al2 = if adjust_high then bit_and (al1 + 0x60) 0xff else al1 in
    (al2, adjust_low, adjust_high)

-- The five `set_flag` calls, in their order.
unfoldable pub daa_flags : (al : ℕ) (low high : Bool) → ℕ → ℕ
daa_flags v low high flags =
    let f1 = set_flag af low flags in
    let f2 = set_flag cf high f1 in
    let f3 = set_flag zf (v == 0) f2 in
    let f4 = set_flag sf (truthy (bit_and v 0x80)) f3 in set_flag pf (parity (bit_and v 0xff)) f4

unfoldable pub daa : CpuState → CpuState
daa s =
    let (v, low, high) = daa_adjust (get_reg8 al s) (get_flag af s.flags) (get_flag cf s.flags) in
    let s1 = set_reg8 al v s in record s1 { flags = daa_flags v low high s1.flags }
