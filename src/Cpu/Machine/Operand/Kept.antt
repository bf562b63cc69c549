-- ===== src/Cpu/Machine/Operand/Kept.antt =====
-- Values written to the r/m operands of dos_re/cpu.py are read back.
use dos_re.Prelude.{
  ℕ, zero, suc, ◌%◌, ◌<◌, bit_and, some, List, [], ◌∷◌, length, ◌==◌, get_elem?, if◌then◌else◌, ◌≡◌,
  refl, ap, ◌∙◌, inl, inr, Bool-cases, arith,
}
use dos_re.Prelude.Bits.{bit_and_mask}
use dos_re.X86.{CpuState}
use dos_re.Memory.State.{Memory, Result, ok, err, update}
use dos_re.Memory.State.Steps.{update-same}
use dos_re.Memory.Access.{rb, wb, ww}
use dos_re.Memory.Access
use dos_re.Memory.Access.Plain.{rb-plain, wb-masked}
use dos_re.Memory.Access.Word.{PlainWord, rw-ww}
use dos_re.Cpu.Regs.{
  Reg16, ax, cx, dx, bx, sp, bp, si, di, reg8_table, reg16_table, set_reg8, get_reg16, set_reg16,
}
use dos_re.Cpu.Regs.Bytes.{get_reg8-set_reg8}
use dos_re.Cpu.Machine.{Machine, on_mem}
use dos_re.Cpu.Machine.Operand.{
  Operand, reg_operand, mem_operand, item, read_reg, write_reg, read_mem, write_mem, read_operand,
  write_operand,
}

-- A register by a three-bit number, or a place in ordinary RAM.
unfoldable pub Usable : Operand → Machine → Type 0
Usable (reg_operand rm bits) m = rm < 8
Usable (mem_operand segv offset bits) m = (a : ℕ) × PlainWord m.mem segv offset a

unfoldable pub size_of : Operand → ℕ
size_of (reg_operand rm bits) = if bits == 8 then 256 else 65536
size_of (mem_operand segv offset bits) = if bits == 8 then 256 else 65536

present : {A : Type 0} (xs : List A) (i : ℕ) → i < length xs → (x : A) × (get_elem? xs i ≡ some x)
present [] i h = absurd (omega arith)
present (x ∷ xs) zero h = (x, refl)
present (x ∷ xs) (suc i) h = present xs i (omega arith)

masked_twice : (v : ℕ) → bit_and (bit_and v 0xffff) 0xffff ≡ v % 65536
masked_twice v = omega (arith, bit_and_mask 16 (bit_and v 0xffff), bit_and_mask 16 v)

get_reg16-set_reg16 : (r : Reg16) (v : ℕ) (s : CpuState) → get_reg16 r (set_reg16 r v s) ≡ v % 65536
unfolding get_reg16 set_reg16
get_reg16-set_reg16 ax v s = masked_twice v
get_reg16-set_reg16 cx v s = masked_twice v
get_reg16-set_reg16 dx v s = masked_twice v
get_reg16-set_reg16 bx v s = masked_twice v
get_reg16-set_reg16 sp v s = masked_twice v
get_reg16-set_reg16 bp v s = masked_twice v
get_reg16-set_reg16 si v s = masked_twice v
get_reg16-set_reg16 di v s = masked_twice v

abbrev Back : Operand → ℕ → Machine → Type 0
Back o v m =
    (n : Machine) × (write_operand o v m ≡ ok (tt, n)) × (read_operand o n ≡ ok (v % size_of o, n))

register-Back : (rm bits v : ℕ) (m : Machine) → rm < 8 → Back (reg_operand rm bits) v m
unfolding write_operand read_operand read_reg write_reg item size_of
register-Back rm bits v m small = elim (Bool-cases (bits == 8)) [
  | inl e ↦
      let (r, h) = present reg8_table rm (small) in
      let s = set_reg8 r v m.regs in
      (
        record m { regs = s },
        rw (e, h) refl,
        rw (e, h) (ap (λ x. ok (x, record m { regs = s })) ((get_reg8-set_reg8 r r v m.regs).0)),
      )
  | inr e ↦
      let (r, h) = present reg16_table rm (small) in
      let s = set_reg16 r v m.regs in
      (
        record m { regs = s },
        rw (e, h) refl,
        rw (e, h) (ap (λ x. ok (x, record m { regs = s })) (get_reg16-set_reg16 r v m.regs)),
      )
]

abbrev with_mem : {A : Type 0} → Machine → Result (A × Memory) → Result (A × Machine)
with_mem m r = elim r [ ok (x, n) ↦ ok (x, record m { mem = n }) | err e ↦ err e ]

memory-Back :
    (segv offset bits v a : ℕ) (m : Machine)
    → PlainWord m.mem segv offset a
    → Back (mem_operand segv offset bits) v m
unfolding write_operand read_operand read_mem write_mem on_mem size_of Access.in_aperture
memory-Back segv offset bits v a m p = elim (Bool-cases (bits == 8)) [
  | inl e ↦
      let n = record (m.mem) { cells = update m.mem.cells a (bit_and v 0xff) } in
      (
        record m { mem = n },
        rw e (
            ap (with_mem m) (
              wb-masked m.mem segv offset a v p.real p.quiet p.at p.writable (omega (arith, p.room))
                p.outside)),
        rw e (
            ap (with_mem m) (
              rb-plain n segv offset a p.real p.at (omega (arith, p.room)) p.outside
              ∙ ap (λ x. ok (x, n))
                  (update-same m.mem.cells a (bit_and v 0xff) ∙ bit_and_mask 8 v))),
      )
  | inr e ↦
      let (n, wrote, read, _) = rw-ww m.mem segv offset a v p in
      (record m { mem = n }, rw e (ap (with_mem m) wrote), rw e (ap (with_mem m) read))
]

-- What is written to a register or to ordinary RAM as an r/m operand is read back from it, modulo
-- 2^8 or 2^16 by the width of the operand.
pub read_operand-write_operand :
    (o : Operand) (v : ℕ) (m : Machine)
    → Usable o m
    → (n : Machine) × (write_operand o v m ≡ ok (tt, n))
      × (read_operand o n ≡ ok (v % size_of o, n))
unfolding Usable
read_operand-write_operand (reg_operand rm bits) v m small = register-Back rm bits v m small
read_operand-write_operand (mem_operand segv offset bits) v m (a, p) =
    memory-Back segv offset bits v a m p
