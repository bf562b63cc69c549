-- ===== src/Cpu/Machine/Stack.antt =====
-- The stack of dos_re/cpu.py: `push`, `pop`, hardware interrupt entry and IRET.
use dos_re.Prelude.{ℕ, ◌+◌, ◌%◌, ◌<◌, bit_and, ◌≡◌, ◌≢◌, ap, ◌∙◌, arith}
use dos_re.Prelude.Bits.{bit_and_mask}
use dos_re.Memory.State.{Memory, Failure, M, Result, ok, err}
use dos_re.Memory.Access.{ww}
use dos_re.Memory.Access
use dos_re.Memory.Access.Word.{PlainWord, PlainWord-stored, HoldsWord, rw-HoldsWord, ww-HoldsWord}
use dos_re.Cpu.Machine.{Machine, Exec, ◌>=>◌, on_mem, set_sp, push, pop}

carried : {A : Type 0} → Machine → Result (A × Memory) → Result (A × Machine)
carried m r = elim r [ ok (v, n) ↦ ok (v, record m { mem = n }) | err e ↦ err e ]

pub on_mem-ok :
    {A : Type 0} {a : A} {n : Memory} (f : M A) (m : Machine)
    → f m.mem ≡ ok (a, n)
    → on_mem f m ≡ ok (a, record m { mem = n })
unfolding on_mem carried
on_mem-ok f m e = ap (carried m) e

passed : {A B : Type 0} → (A → Exec B) → Result (A × Machine) → Result (B × Machine)
passed k r = elim r [ ok (a, n) ↦ k a n | err e ↦ err e ]

pub then-ok :
    {A B : Type 0} {a : A} {n : Machine} (f : Exec A) (k : A → Exec B) (m : Machine)
    → f m ≡ ok (a, n)
    → (f >=> k) m ≡ k a n
unfolding passed
then-ok f k m e = ap (passed k) e

pub on_mem-err :
    {A : Type 0} {e : Failure} (f : M A) (m : Machine) → f m.mem ≡ err e → on_mem f m ≡ err e
unfolding on_mem carried
on_mem-err f m h = ap (carried m) h

pub then-err :
    {A B : Type 0} {e : Failure} (f : Exec A) (k : A → Exec B) (m : Machine)
    → f m ≡ err e
    → (f >=> k) m ≡ err e
unfolding passed
then-err f k m h = ap (passed k) h

-- Where a push writes.
abbrev pub below : ℕ → ℕ
below sp = bit_and (sp + 0xfffe) 0xffff

pub push-HoldsWord :
    (m : Machine) (a value : ℕ)
    → PlainWord m.mem m.regs.ss (below m.regs.sp) a
    → (cells : ℕ → ℕ) × (push value m
        ≡ ok (
          tt,
          record m {
            regs = record (m.regs) { sp = below m.regs.sp };
            mem = record (m.mem) { cells = cells };
          },
        ))
      × HoldsWord (record (m.mem) { cells = cells }) a (value % 65536)
      × ((x : ℕ) → x ≢ a → x ≢ a + 1 → cells x ≡ m.mem.cells x)
unfolding push set_sp
push-HoldsWord m a value c =
    let w = ww-HoldsWord m.mem m.regs.ss (below m.regs.sp) a value c in
    (
      w.0,
      on_mem-ok (ww m.regs.ss (below m.regs.sp) value) (set_sp (below m.regs.sp) m) w.1,
      w.2,
      w.3,
    )

pub pop-HoldsWord :
    (m : Machine) (a v : ℕ)
    → PlainWord m.mem m.regs.ss m.regs.sp a
    → HoldsWord m.mem a v
    → pop m ≡ ok (v, record m { regs = record (m.regs) { sp = bit_and (m.regs.sp + 2) 0xffff } })
unfolding pop set_sp
pop-HoldsWord m a v c h =
    then-ok (on_mem (Access.rw m.regs.ss m.regs.sp))
      (λ v n. ok (v, set_sp (bit_and (n.regs.sp + 2) 0xffff) n)) m
      (on_mem-ok (Access.rw m.regs.ss m.regs.sp) m (rw-HoldsWord m.mem m.regs.ss m.regs.sp a v c h))

pub below-above : (sp : ℕ) → sp < 65536 → bit_and (below sp + 2) 0xffff ≡ sp
below-above sp h = omega (arith, bit_and_mask 16 (sp + 0xfffe), bit_and_mask 16 (below sp + 2))

-- A word pushed onto a stack in ordinary RAM is popped again, cut to 16 bits, with every register
-- as it was and no cell changed but the word's two.
pub pop-push :
    (m : Machine) (a value : ℕ)
    → m.regs.sp < 65536
    → PlainWord m.mem m.regs.ss (below m.regs.sp) a
    → (n : Machine) × ((push value >=> λ _. pop) m ≡ ok (value % 65536, n))
      × (n.regs ≡ m.regs)
      × ((x : ℕ) → x ≢ a → x ≢ a + 1 → n.mem.cells x ≡ m.mem.cells x)
pop-push m a value small c =
    let w = push-HoldsWord m a value c in
    let pushed = record m {
      regs = record (m.regs) { sp = below m.regs.sp };
      mem = record (m.mem) { cells = w.0 };
    } in
    (
      record pushed { regs = record (m.regs) { sp = bit_and (below m.regs.sp + 2) 0xffff } },
      then-ok (push value) (λ _. pop) m w.1
          ∙ pop-HoldsWord pushed a (value % 65536) (PlainWord-stored w.0 c) w.2,
      ap (λ sp. record (m.regs) { sp = sp }) (below-above m.regs.sp small),
      w.3,
    )
