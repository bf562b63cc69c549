-- ===== src/Cpu/Machine/Operand.antt =====
-- The r/m operands of dos_re/cpu.py: _RegOperand, _MemOperand, decode_rm_operand, read_rm and
-- write_rm. Their texts serve traces and are left out, except that a register without a name is an
-- IndexError.
pub mod Kept
pub mod Same
use dos_re.Prelude.{ℕ, ◌+◌, bit_and, Option, some, none, List, ◌==◌, get_elem?, if◌then◌else◌}
use dos_re.X86.{CpuState}
use dos_re.Memory.State.{Result, ok, err, index_error}
use dos_re.Memory.Access.{rb, wb, ww}
use dos_re.Memory.Access
use dos_re.Cpu.Regs.{
  SegReg, es, cs, ss, ds, reg8_table, reg16_table, get_reg8, set_reg8, get_reg16, set_reg16,
}
use dos_re.Cpu.Machine.{Machine, Exec, return, ◌>=>◌, on_mem}
use dos_re.Cpu.Machine.Address.{decode_ea}

pub data Operand : Type 0 where
  reg_operand : (rm bits : ℕ) → Operand
  mem_operand : (segv offset bits : ℕ) → Operand

-- `table[i]`
unfoldable pub item : {A : Type 0} → List A → ℕ → Exec A
item table i m = elim (get_elem? table i) [ some x ↦ ok (x, m) | none ↦ err index_error ]

-- `getattr(self.s, ea.segment)`
unfoldable pub segment_value : SegReg → CpuState → ℕ
segment_value es s = s.es
segment_value cs s = s.cs
segment_value ss s = s.ss
segment_value ds s = s.ds

unfoldable pub read_reg : (rm bits : ℕ) → Exec ℕ
unfolding item get_reg8 get_reg16
read_reg rm bits =
    if bits == 8
    then (item reg8_table rm >=> λ r m. ok (get_reg8 r m.regs, m))
    else item reg16_table rm >=> λ r m. ok (get_reg16 r m.regs, m)

unfoldable pub write_reg : (rm bits value : ℕ) → Exec (Unit {0})
unfolding item set_reg8 set_reg16
write_reg rm bits value =
    if bits == 8
    then (item reg8_table rm >=> λ r m. ok (tt, record m { regs = set_reg8 r value m.regs }))
    else item reg16_table rm >=> λ r m. ok (tt, record m { regs = set_reg16 r value m.regs })

unfoldable pub read_mem : (segv offset bits : ℕ) → Exec ℕ
unfolding on_mem
read_mem segv offset bits =
    if bits == 8 then on_mem (rb segv offset) else on_mem (Access.rw segv offset)

unfoldable pub write_mem : (segv offset bits value : ℕ) → Exec (Unit {0})
unfolding on_mem
write_mem segv offset bits value =
    if bits == 8 then on_mem (wb segv offset value) else on_mem (ww segv offset value)

unfoldable pub read_operand : Operand → Exec ℕ
unfolding read_reg read_mem
read_operand (reg_operand rm bits) = read_reg rm bits
read_operand (mem_operand segv offset bits) = read_mem segv offset bits

unfoldable pub write_operand : Operand → ℕ → Exec (Unit {0})
unfolding write_reg write_mem
write_operand (reg_operand rm bits) value = write_reg rm bits value
write_operand (mem_operand segv offset bits) value = write_mem segv offset bits value

unfoldable pub read_far : (segv offset : ℕ) → Exec (ℕ × ℕ)
unfolding on_mem
read_far segv offset = on_mem (Access.rw segv offset) >=> λ low.
    on_mem (Access.rw segv (bit_and (offset + 2) 0xffff)) >=> λ high. return (low, high)

-- The register is named when the operand is built.
unfoldable pub new_reg_operand : (rm bits : ℕ) → Exec Operand
unfolding item
new_reg_operand rm bits =
    if bits == 8
    then (item reg8_table rm >=> λ _. return (reg_operand rm bits))
    else item reg16_table rm >=> λ _. return (reg_operand rm bits)

-- The segment register is read when the operand is built.
unfoldable pub new_mem_operand : (bits : ℕ) → SegReg × ℕ → Exec Operand
unfolding segment_value
new_mem_operand bits (seg, offset) m = ok (mem_operand (segment_value seg m.regs) offset bits, m)

unfoldable pub decode_rm_operand : (mode rm bits : ℕ) → Option SegReg → Exec Operand
unfolding new_reg_operand new_mem_operand decode_ea
decode_rm_operand mode rm bits seg_override =
    if mode == 3
    then new_reg_operand rm bits
    else decode_ea mode rm seg_override >=> λ ea. new_mem_operand bits ea

-- `REG8[rm] if bits == 8 else REG16[rm]`
unfoldable pub register_name : (rm bits : ℕ) → Exec (Unit {0})
unfolding item
register_name rm bits =
    if bits == 8
    then (item reg8_table rm >=> λ _. return tt)
    else item reg16_table rm >=> λ _. return tt

-- The three parts of `read_rm`, which has its own code for them.
unfoldable pub read_rm_register : (rm bits : ℕ) → Exec ℕ
unfolding item get_reg8 get_reg16 register_name
read_rm_register rm bits =
    (if bits == 8
      then (item reg8_table rm >=> λ r m. ok (get_reg8 r m.regs, m))
      else item reg16_table rm >=> λ r m. ok (get_reg16 r m.regs, m))
    >=> λ v. register_name rm bits >=> λ _. return v

unfoldable pub read_rm_memory : (bits : ℕ) → SegReg × ℕ → Exec ℕ
unfolding segment_value on_mem
read_rm_memory bits (seg, offset) m =
    let segv = segment_value seg m.regs in
    (if bits == 8 then on_mem (rb segv offset) else on_mem (Access.rw segv offset)) m

unfoldable pub read_rm : (mode rm bits : ℕ) → Option SegReg → Exec ℕ
unfolding read_rm_register read_rm_memory decode_ea
read_rm mode rm bits seg_override =
    if mode == 3
    then read_rm_register rm bits
    else decode_ea mode rm seg_override >=> λ ea. read_rm_memory bits ea

-- And those of `write_rm`.
unfoldable pub write_rm_register : (rm bits value : ℕ) → Exec (Unit {0})
unfolding item set_reg8 set_reg16
write_rm_register rm bits value =
    if bits == 8
    then (item reg8_table rm >=> λ r m.
        (item reg8_table rm >=> λ _. return tt) (record m { regs = set_reg8 r value m.regs }))
    else item reg16_table rm >=> λ r m.
        (item reg16_table rm >=> λ _. return tt) (record m { regs = set_reg16 r value m.regs })

unfoldable pub write_rm_memory : (bits value : ℕ) → SegReg × ℕ → Exec (Unit {0})
unfolding segment_value on_mem
write_rm_memory bits value (seg, offset) m =
    let segv = segment_value seg m.regs in
    (if bits == 8 then on_mem (wb segv offset value) else on_mem (ww segv offset value)) m

unfoldable pub write_rm : (mode rm bits value : ℕ) → Option SegReg → Exec (Unit {0})
unfolding write_rm_register write_rm_memory decode_ea
write_rm mode rm bits value seg_override =
    if mode == 3
    then write_rm_register rm bits value
    else decode_ea mode rm seg_override >=> λ ea. write_rm_memory bits value ea
