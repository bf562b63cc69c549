-- ===== src/Cpu/Machine.antt =====
-- The interpreter of dos_re/cpu.py at work on registers and memory together: `fetch8`, `fetch16`,
-- `push`, `pop` and `_enter_hardware_interrupt`.
pub mod Fetch
pub mod Stack
pub mod Interrupt
pub mod Address
pub mod Modrm
pub mod Operand
mod Tests
use dos_re.Prelude.{
  ℕ, ◌+◌, ◌-◌, ◌*◌, ◌/◌, ◌%◌, ◌^◌, bit_and, bit_or, Bool, true, false, not, ◌&&◌, ◌||◌, Option,
  some, none, ltb, leb, if◌then◌else◌,
}
use dos_re.X86.{CpuState, if_flag, tf}
use dos_re.Cpu.Flags.{set_flag}
use dos_re.Memory.State.{
  Memory, M, Result, ok, err, peek, lookup, ega_cpu_aperture, ega_plane_window,
}
use dos_re.Memory.Access.{rb, ww}
use dos_re.Memory.Access

pub record Machine : Type 0 where
  pub regs : CpuState
  pub mem : Memory

-- A method of the interpreter: it may fail, and changes the machine.
abbrev pub Exec : Type 0 → Type 0
Exec A = Machine → Result (A × Machine)

abbrev pub return : {A : Type 0} → A → Exec A
return a m = ok (a, m)

infixl 5 ◌>=>◌
abbrev pub ◌>=>◌ : {A B : Type 0} → Exec A → (A → Exec B) → Exec B
◌>=>◌ f k m = elim (f m) [ ok (a, n) ↦ k a n | err e ↦ err e ]

-- A method of `self.mem`.
unfoldable pub on_mem : {A : Type 0} → M A → Exec A
on_mem f m = elim (f m.mem) [ ok (a, n) ↦ ok (a, record m { mem = n }) | err e ↦ err e ]

unfoldable pub set_ip : ℕ → Machine → Machine
set_ip v m = record m { regs = record (m.regs) { ip = v } }

unfoldable pub set_sp : ℕ → Machine → Machine
set_sp v m = record m { regs = record (m.regs) { sp = v } }

-- `a < EGA_CPU_APERTURE or a >= _EGA_WINDOW_END`
unfoldable pub outside_window : ℕ → Bool
outside_window a = ltb a ega_cpu_aperture || leb (ega_cpu_aperture + ega_plane_window) a

-- `not mem.ega_planar or a < EGA_CPU_APERTURE or a >= _EGA_WINDOW_END`
unfoldable pub direct : Memory → ℕ → Bool
unfolding outside_window
direct mem a = not mem.ega_planar || outside_window a

-- The byte at cs:off by the paths of `fetch8`, which looks the whole selector up.
unfoldable pub code_byte : CpuState → ℕ → M ℕ
unfolding direct
code_byte s off mem =
    let seg = bit_and s.cs 0xffff in
    let a = bit_and (seg * 2 ^ 4 + off) 0xfffff in
    elim mem.sel_base [
      | some sb ↦ elim (if leb mem.sel_min seg then lookup seg sb else none) [
        | some base ↦ peek (base + off) mem
        | none ↦ peek (seg * 2 ^ 4 + off) mem
      ]
      | none ↦ if direct mem a then peek a mem else rb s.cs off mem
    ]

unfoldable pub fetch8 : Exec ℕ
unfolding code_byte on_mem set_ip
fetch8 m =
    let off = bit_and m.regs.ip 0xffff in
    (on_mem (code_byte m.regs off) >=> λ v n. ok (v, set_ip (bit_and (off + 1) 0xffff) n)) m

-- Two fetches, the general path of `fetch16`.
unfoldable pub fetch8_pair : Exec ℕ
unfolding fetch8
fetch8_pair = fetch8 >=> λ lo. fetch8 >=> λ hi. return (bit_or lo (hi * 2 ^ 8))

unfoldable pub fetch16 : Exec ℕ
unfolding fetch8_pair outside_window set_ip on_mem
fetch16 m =
    let mem = m.mem in
    let base = bit_and (bit_and m.regs.cs 0xffff * 2 ^ 4) 0xfffff in
    let ip = bit_and m.regs.ip 0xffff in
    let a0 = bit_and (base + ip) 0xfffff in
    let a1 = bit_and (base + bit_and (ip + 1) 0xffff) 0xfffff in
    elim mem.sel_base [
      | some sb ↦ fetch8_pair m
      | none ↦
          if not mem.ega_planar || (outside_window a0 && outside_window a1)
          then (on_mem (peek a0) >=> λ lo. on_mem (peek a1) >=> λ hi n.
                ok (bit_or lo (hi * 2 ^ 8), set_ip (bit_and (ip + 2) 0xffff) n))
              m
          else fetch8_pair m
    ]

-- `(sp - 2) & 0xFFFF`, which is the same as adding 0xFFFE on every natural number.
unfoldable pub push : ℕ → Exec (Unit {0})
unfolding on_mem set_sp
push value m =
    let sp = bit_and (m.regs.sp + 0xfffe) 0xffff in on_mem (ww m.regs.ss sp value) (set_sp sp m)

unfoldable pub pop : Exec ℕ
unfolding on_mem set_sp
pop m =
    (on_mem (Access.rw m.regs.ss m.regs.sp) >=> λ v n.
    ok (v, set_sp (bit_and (n.regs.sp + 2) 0xffff) n))
      m

-- IF and TF cleared, and control at the handler.
unfoldable pub enter_handler : (seg off : ℕ) → Machine → Machine
enter_handler seg off m = record m {
  regs = record (m.regs) {
    flags = set_flag tf false (set_flag if_flag false m.regs.flags);
    cs = bit_and seg 0xffff;
    ip = bit_and off 0xffff;
  };
}

unfoldable pub enter_hardware_interrupt : ℕ → Exec (Unit {0})
unfolding push on_mem enter_handler
enter_hardware_interrupt irq =
    let vec = if ltb irq 8 then 0x08 + irq else 0x70 + irq - 8 in
    on_mem (Access.rw 0 (vec * 4)) >=> λ off. on_mem (Access.rw 0 (vec * 4 + 2)) >=> λ seg.
    (λ m. push m.regs.flags m) >=> λ _. (λ m. push (bit_and m.regs.cs 0xffff) m) >=> λ _.
    (λ m. push (bit_and m.regs.ip 0xffff) m) >=> λ _ m. ok (tt, enter_handler seg off m)

-- The state part of opcode 0xCF; the depth of calls, which only traces read, is left out.
unfoldable pub iret : Exec (Unit {0})
unfolding pop
iret = pop >=> λ target_ip. pop >=> λ target_cs. pop >=> λ popped m. ok (
  tt,
  record m {
    regs = record (m.regs) { flags = bit_or popped 0x0002; ip = target_ip; cs = target_cs };
  },
)
