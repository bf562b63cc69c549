-- ===== src/Interrupts.antt =====
-- Synchronous interrupt delivery of dos_re/interrupts.py. The step of the interpreter, which reaches
-- the devices too, and the BIOS keystroke of the device model are given as an interface on the whole
-- runtime. The call depth, which only traces read, is left out; the effect sink, where there is one, is
-- the list of what was recorded, last first.
pub mod Delivered
pub mod Outcome
mod Tests
use dos_re.Prelude.{
  ℕ, zero, suc, ◌+◌, ◌*◌, bit_and, bit_or, Bool, true, false, not, ◌&&◌, ◌==◌, Option, some, none,
  List, [], ◌∷◌, if◌then◌else◌,
}
use dos_re.Memory.State.{Result, ok, err, handler_did_not_return}
use dos_re.Memory.Access
use dos_re.Cpu.Machine.{Machine, Exec, return, ◌>=>◌, on_mem, push, enter_handler}

-- What a sink records: hardware interrupts, and the effects that the devices report.
pub data Effect (E : Type 0) : Type 0 where
  hardware_interrupt : ℕ → Effect E
  other_effect : E → Effect E

-- D is the rest of the devices.
pub record Runtime (D E : Type 0) : Type 0 where
  pub machine : Machine
  pub sink : Option (List (Effect E))
  pub current_scancode : ℕ
  pub kbd_output_buffer_full : Bool
  pub devices : D

-- What delivery calls of the rest of the runtime.
pub record Parts : Type 1 where
  pub Devices : Type 0
  pub Other : Type 0
  pub step : Runtime Devices Other → Result (Unit {0} × Runtime Devices Other)
  pub note_bios_keystroke : ℕ → Runtime Devices Other → Result (Unit {0} × Runtime Devices Other)

abbrev pub Act : Parts → Type 0 → Type 0
Act P A = Runtime P.Devices P.Other → Result (A × Runtime P.Devices P.Other)

infixl 5 ◌>>=◌
abbrev pub ◌>>=◌ :
    {S A B : Type 0} → (S → Result (A × S)) → (A → S → Result (B × S)) → S → Result (B × S)
◌>>=◌ f k s = elim (f s) [ ok (a, t) ↦ k a t | err e ↦ err e ]

-- `BIOS_INT9_ENTRY`
abbrev pub bios_int9_entry : ℕ × ℕ
bios_int9_entry = (0xf000, 0xe987)

unfoldable pub read_vector : ℕ → Exec (ℕ × ℕ)
unfolding on_mem
read_vector num = on_mem (Access.rw 0 (bit_and (num * 4) 0xfffff)) >=> λ off.
    on_mem (Access.rw 0 (bit_and (num * 4 + 2) 0xfffff)) >=> λ seg. return (seg, off)

-- Where the interrupted program stands: sp, cs and ip.
pub record Origin : Type 0 where
  pub sp : ℕ
  pub cs : ℕ
  pub ip : ℕ

unfoldable pub origin : Machine → Origin
origin m = record {
  sp = bit_and m.regs.sp 0xffff;
  cs = bit_and m.regs.cs 0xffff;
  ip = bit_and m.regs.ip 0xffff;
}

-- `cpu.s.sp == sp0 and cpu.addr() == (ret_cs, ret_ip)`
unfoldable pub is_back : Origin → Machine → Bool
is_back o m =
    m.regs.sp == o.sp && (bit_and m.regs.cs 0xffff == o.cs && bit_and m.regs.ip 0xffff == o.ip)

-- The hardware interrupt entry sequence.
unfoldable pub enter_vector : (seg off : ℕ) → Exec (Unit {0})
unfolding push enter_handler
enter_vector seg off m =
    ((λ m. push m.regs.flags m) >=> λ _. push (bit_and m.regs.cs 0xffff) >=> λ _.
    push (bit_and m.regs.ip 0xffff) >=> λ _ n. ok (tt, enter_handler seg off n))
      m

-- The loop with `left` steps to go before the one that is too many.
unfoldable pub run_handler : (P : Parts) → Origin → ℕ → Act P (Unit {0})
unfolding is_back
run_handler P o zero rt =
    if is_back o rt.machine then ok (tt, rt) else (P.step >>= λ _ n. err handler_did_not_return) rt
run_handler P o (suc left) rt =
    let rest = run_handler P o left in
    if is_back o rt.machine then ok (tt, rt) else (P.step >>= λ _ n. rest n) rt

-- `sink.record(HARDWARE_INTERRUPT, num & 0xFF)`
unfoldable pub record_interrupt :
    {E : Type 0} → ℕ → Option (List (Effect E)) → Option (List (Effect E))
record_interrupt num none = none
record_interrupt num (some log) = some (hardware_interrupt (bit_and num 0xff) ∷ log)

-- A method of the interpreter that no device sees, on the runtime.
unfoldable pub on_machine : {D E A : Type 0} → Exec A → Runtime D E → Result (A × Runtime D E)
on_machine f rt = elim (f rt.machine) [
  | ok (a, m) ↦ ok (a, record rt { machine = m })
  | err e ↦ err e
]

-- What follows the read of the vector.
unfoldable pub deliver_to : (P : Parts) → (num max_steps : ℕ) → (seg off : ℕ) → Act P Bool
unfolding on_machine record_interrupt enter_vector run_handler origin
deliver_to P num max_steps seg off rt =
    if seg == 0 && off == 0
    then ok (false, rt)
    else (on_machine (enter_vector seg off) >>= λ _.
          run_handler P (origin rt.machine) max_steps >>= λ _ n. ok (true, n))
        (record rt { sink = record_interrupt num rt.sink })

unfoldable pub deliver_interrupt : (P : Parts) → (num max_steps : ℕ) → Act P Bool
unfolding read_vector on_machine deliver_to
deliver_interrupt P num max_steps =
    on_machine (read_vector num) >>= λ v. deliver_to P num max_steps v.0 v.1

unfoldable pub deliver_scancode : (P : Parts) → (scancode max_steps : ℕ) → Act P Bool
unfolding read_vector on_machine deliver_interrupt
deliver_scancode P scancode max_steps rt =
    (on_machine (read_vector 0x09) >>= λ v.
    (if v.0 == 0xf000 && v.1 == 0xe987 then (λ n. ok (tt, n)) else P.note_bios_keystroke scancode)
    >>= λ _. deliver_interrupt P 0x09 max_steps)
      (record rt { current_scancode = bit_and scancode 0xff; kbd_output_buffer_full = true })
