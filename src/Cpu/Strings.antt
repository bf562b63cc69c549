-- ===== src/Cpu/Strings.antt =====
-- `string_op` of dos_re/cpu.py: the string instructions with their repetition and the bulk path. The
-- text that it returns for traces is left out; the host gives the limit and the port handlers.
pub mod Step
pub mod Ends
pub mod Bulk
pub mod Loop
pub mod Fast
pub mod Same
mod Tests
use dos_re.Prelude.{
  ℕ, zero, suc, ◌+◌, ◌*◌, ◌/◌, ◌^◌, bit_and, Bool, true, false, not, ◌&&◌, ◌||◌, ◌==◌, ltb, Option,
  some, none, List, [], ◌∷◌, if◌then◌else◌,
}
use dos_re.Prelude.Int.{ℤ, pos, negsuc, sub_ℕ}
use dos_re.X86.{CpuState, df, zf}
use dos_re.Cpu.Flags.{get_flag, set_sub_flags}
use dos_re.Cpu.Regs.{SegReg, es, cs, ss, ds, al, get_reg8, set_reg8}
use dos_re.Memory.State.{M, Result, ok, err, rep_too_large}
use dos_re.Memory.Access.{rb, wb, ww}
use dos_re.Memory.Access
use dos_re.Memory.Block.{try_forward_bulk_fill, try_forward_bulk_copy}
use dos_re.Cpu.Machine.{Machine, Exec, return, ◌>=>◌, on_mem}
use dos_re.Cpu.Machine.Address.{displaced}

-- What the host sets on the interpreter.
pub record Host : Type 0 where
  pub max_rep_count : ℕ
  pub port_reader : Option ((port bits : ℕ) → Exec ℕ)
  pub port_writer : Option ((port value bits : ℕ) → Exec (Unit {0}))

unfoldable pub width_of : ℕ → ℕ
width_of op =
    if op == 0x6d
      || op == 0x6f
      || op == 0xa5
      || op == 0xa7
      || op == 0xab
      || op == 0xad
      || op == 0xaf
    then 2
    else 1

-- `8 if width == 1 else 16`
unfoldable pub bits_of : ℕ → ℕ
bits_of width = if width == 1 then 8 else 16

-- `-width if self.get_flag(DF) else width`
unfoldable pub delta_of : ℕ → CpuState → ℤ
delta_of width s = if get_flag df s.flags then sub_ℕ 0 width else pos width

-- `getattr(s, seg_override or "ds")`
unfoldable pub source_segment : Option SegReg → CpuState → ℕ
source_segment (some es) s = s.es
source_segment (some cs) s = s.cs
source_segment (some ss) s = s.ss
source_segment (some ds) s = s.ds
source_segment none s = s.ds

-- A byte or a word at an address.
unfoldable pub get : ℕ → ℕ → ℕ → M ℕ
get width seg off = if width == 1 then rb seg off else Access.rw seg off

unfoldable pub put : ℕ → ℕ → ℕ → ℕ → M (Unit {0})
put width seg off value = if width == 1 then wb seg off value else ww seg off value

abbrev pub on_regs : (CpuState → CpuState) → Machine → Machine
on_regs f m = record m { regs = f m.regs }

unfoldable pub move_si : ℤ → Machine → Machine
move_si delta = on_regs (λ s. record s { si = displaced s.si delta })

unfoldable pub move_di : ℤ → Machine → Machine
move_di delta = on_regs (λ s. record s { di = displaced s.di delta })

-- INS: without a handler the port reads as 0.
unfoldable pub ins : Host → ℕ → ℤ → Exec (Unit {0})
unfolding put move_di bits_of
ins host width delta =
    (λ m. elim host.port_reader [
      | none ↦ ok (0, m)
      | some read ↦ read (bit_and m.regs.dx 0xffff) (bits_of width) m
    ])
    >=> λ value.
        (λ m. on_mem (put width m.regs.es m.regs.di value) m) >=> λ _ m. ok (tt, move_di delta m)

unfoldable pub outs : Host → Option SegReg → ℕ → ℤ → Exec (Unit {0})
unfolding get source_segment move_si bits_of
outs host seg_override width delta =
    (λ m. on_mem (get width (source_segment seg_override m.regs) m.regs.si) m) >=> λ value.
    (λ m. elim host.port_writer [
      | none ↦ ok (tt, m)
      | some write ↦ write (bit_and m.regs.dx 0xffff) value (bits_of width) m
    ])
    >=> λ _ m. ok (tt, move_si delta m)

unfoldable pub movs : Option SegReg → ℕ → ℤ → Exec (Unit {0})
unfolding get put source_segment move_si move_di
movs seg_override width delta =
    (λ m. on_mem (get width (source_segment seg_override m.regs) m.regs.si) m) >=> λ value.
    (λ m. on_mem (put width m.regs.es m.regs.di value) m) >=> λ _ m.
    ok (tt, move_di delta (move_si delta m))

-- The flags of `a - b`.
unfoldable pub compare_values : ℕ → ℕ → ℕ → Machine → Machine
unfolding bits_of
compare_values width a b =
    on_regs (λ s. record s { flags = set_sub_flags a b (sub_ℕ a b) (bits_of width) 0 s.flags })

unfoldable pub cmps : Option SegReg → ℕ → ℤ → Exec (Unit {0})
unfolding get source_segment compare_values move_si move_di
cmps seg_override width delta =
    (λ m. on_mem (get width (source_segment seg_override m.regs) m.regs.si) m) >=> λ left.
    (λ m. on_mem (get width m.regs.es m.regs.di) m) >=> λ right m.
    ok (tt, move_di delta (move_si delta (compare_values width left right m)))

unfoldable pub stos : ℕ → ℤ → Exec (Unit {0})
unfolding put move_di
stos width delta =
    (λ m. on_mem (put width m.regs.es m.regs.di m.regs.ax) m) >=> λ _ m. ok (tt, move_di delta m)

unfoldable pub lods : Option SegReg → ℕ → ℤ → Exec (Unit {0})
unfolding get source_segment move_si
lods seg_override width delta =
    (λ m. on_mem (get width (source_segment seg_override m.regs) m.regs.si) m) >=> λ value m. ok (
      tt,
      move_si delta
          (on_regs (λ s. if width == 1 then set_reg8 al value s else record s { ax = value }) m),
    )

unfoldable pub scas : ℕ → ℤ → Exec (Unit {0})
unfolding get compare_values move_di
scas width delta = (λ m. on_mem (get width m.regs.es m.regs.di) m) >=> λ value m. ok (
  tt,
  move_di delta
      (compare_values width (if width == 1 then get_reg8 al m.regs else m.regs.ax) value m),
)

unfoldable pub is_cmps : ℕ → Bool
is_cmps op = op == 0xa6 || op == 0xa7

unfoldable pub is_scas : ℕ → Bool
is_scas op = op == 0xae || op == 0xaf

-- The body of the loop up to the count, by the opcode. For an opcode that is no string instruction,
-- which no caller passes, the source fails behind the loop, where it looks up the name.
unfoldable pub element : Host → ℕ → Option SegReg → ℕ → ℤ → Exec (Unit {0})
unfolding ins outs movs cmps stos lods scas is_cmps is_scas
element host op seg_override width delta =
    if op == 0x6c || op == 0x6d
    then ins host width delta
    else if op == 0x6e || op == 0x6f
    then outs host seg_override width delta
    else if op == 0xa4 || op == 0xa5
    then movs seg_override width delta
    else if is_cmps op
    then cmps seg_override width delta
    else if op == 0xaa || op == 0xab
    then stos width delta
    else if op == 0xac || op == 0xad
    then lods seg_override width delta
    else if is_scas op
    then scas width delta
    else return tt

-- `s.cx = (s.cx - 1) & 0xFFFF` under a prefix
unfoldable pub count_down : Option ℕ → Machine → Machine
count_down none m = m
count_down (some prefix) m = on_regs (λ s. record s { cx = displaced s.cx (negsuc 0) }) m

-- Whether the loop ends before its count: without a prefix, or on the zero flag of a comparison.
unfoldable pub stops : ℕ → Option ℕ → CpuState → Bool
unfolding is_cmps is_scas
stops op none s = true
stops op (some prefix) s =
    (is_cmps op || is_scas op)
    && ((prefix == 0xf3 && not (get_flag zf s.flags)) || (prefix == 0xf2 && get_flag zf s.flags))

unfoldable pub loop : Host → ℕ → Option ℕ → Option SegReg → ℕ → ℤ → ℕ → Exec (Unit {0})
unfolding element count_down stops
loop host op rep seg_override width delta zero = return tt
loop host op rep seg_override width delta (suc count) =
    let rest = loop host op rep seg_override width delta count in
    element host op seg_override width delta >=> λ _ m.
    let n = count_down rep m in if stops op rep n.regs then ok (tt, n) else rest n

-- `bytes((s.ax & 0xFF,))`, or both bytes of AX
unfoldable pub fill_pattern : ℕ → ℕ → List ℕ
fill_pattern width v =
    if width == 1 then bit_and v 0xff ∷ [] else bit_and v 0xff ∷ bit_and (v / 2 ^ 8) 0xff ∷ []

-- `(r + n) & 0xFFFF`, with CX cleared.
unfoldable pub filled : ℕ → Machine → Machine
filled n = on_regs (λ s. record s { di = bit_and (s.di + n) 0xffff; cx = 0 })

unfoldable pub copied : ℕ → Machine → Machine
copied n =
    on_regs
      (λ s. record s { si = bit_and (s.si + n) 0xffff; di = bit_and (s.di + n) 0xffff; cx = 0 })

-- The bulk path, where it applies: whether it has done the work.
unfoldable pub bulk : ℕ → Option SegReg → ℕ → ℕ → Exec Bool
unfolding fill_pattern source_segment filled copied
bulk op seg_override width count m =
    let s = m.regs in
    let n = count * width in
    if op == 0xaa || op == 0xab
    then (on_mem (try_forward_bulk_fill s.es s.di (fill_pattern width s.ax) count) >=> λ done k.
          ok (done, if done then filled n k else k))
        m
    else if op == 0xa4 || op == 0xa5
    then (on_mem (try_forward_bulk_copy (source_segment seg_override s) s.si s.es s.di n)
          >=> λ done k. ok (done, if done then copied n k else k))
        m
    else ok (false, m)

-- `s.cx if rep is not None else 1`
unfoldable pub count_of : Option ℕ → CpuState → ℕ
count_of none s = 1
count_of (some prefix) s = s.cx

unfoldable pub is_rep : Option ℕ → Bool
is_rep none = false
is_rep (some prefix) = true

unfoldable pub string_op : Host → ℕ → Option ℕ → Option SegReg → Exec (Unit {0})
unfolding width_of delta_of count_of is_rep loop bulk
string_op host op rep seg_override m =
    let width = width_of op in
    let delta = delta_of width m.regs in
    let count = count_of rep m.regs in
    let whole = loop host op rep seg_override width delta count in
    if ltb host.max_rep_count count
    then err rep_too_large
    else if is_rep rep && ltb 8 count && not (get_flag df m.regs.flags)
    then (bulk op seg_override width count >=> λ done n. if done then ok (tt, n) else whole n) m
    else whole m
