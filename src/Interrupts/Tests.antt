-- ===== src/Interrupts/Tests.antt =====
-- Deliveries to a handler that returns at once.
use dos_re.Prelude.{
  ℕ, Bool, true, false, Option, some, List, [], ◌∷◌, if◌then◌else◌, ◌==◌, ◌≡◌, refl,
}
use dos_re.Memory.State.{Result, ok, err, new_memory, peek, handler_did_not_return}
use dos_re.Memory.Access
use dos_re.Cpu.Machine.{Exec, return, iret}
use dos_re.Interrupts.{
  Parts, Runtime, Effect, hardware_interrupt, on_machine, deliver_interrupt, deliver_scancode,
}
use dos_re.Interrupts.Delivered.{DeliveryOutcome, deliver_interrupt-Outcome}

-- The keyboard vector names F000:0010, and every step is an IRET that reads port 60h first, which
-- marks the output buffer as empty.
abbrev acting : Exec (Unit {0}) → Parts
acting f = record {
  Devices = Unit {0};
  Other = Unit {0};
  step = λ rt. on_machine f (record rt { kbd_output_buffer_full = false });
  note_bios_keystroke = λ scancode rt. ok (tt, rt);
}

abbrev parts : Parts
parts = acting iret

abbrev idle : Parts
idle = acting (return tt)

abbrev playing : Runtime (Unit {0}) (Unit {0})
playing = record {
  machine = record {
    regs = record {
      ax = 0;
      bx = 0;
      cx = 0;
      dx = 0;
      sp = 0x100;
      bp = 0;
      si = 0;
      di = 0;
      cs = 0x1000;
      ds = 0x1000;
      es = 0x1000;
      ss = 0x2000;
      ip = 0x20;
      flags = 0x0302;
    };
    mem = record new_memory {
      cells = λ a. if a == 0x24 then 0x10 else if a == 0x27 then 0xf0 else 0;
    };
  };
  sink = some (hardware_interrupt 8 ∷ []);
  current_scancode = 0;
  kbd_output_buffer_full = false;
  devices = tt;
}

abbrev view :
    Result (Bool × Runtime (Unit {0}) (Unit {0}))
    → Result (Bool × ℕ × Bool × ℕ × Option (List (Effect (Unit {0}))))
view (ok (answer, q)) =
    ok (answer, q.current_scancode, q.kbd_output_buffer_full, q.machine.regs.ip, q.sink)
view (err e) = err e

returns :
    view (deliver_interrupt parts 9 1 playing)
    ≡ ok (true, 0, false, 0x20, some (hardware_interrupt 9 ∷ hardware_interrupt 8 ∷ []))
unfolding on_machine deliver_interrupt Access.rw peek Access.ww iret
returns = refl

no_handler :
    view (deliver_interrupt parts 8 0 playing)
    ≡ ok (false, 0, false, 0x20, some (hardware_interrupt 8 ∷ []))
unfolding on_machine deliver_interrupt Access.rw peek Access.ww iret
no_handler = refl

stays_away : view (deliver_interrupt idle 9 3 playing) ≡ err handler_did_not_return
unfolding on_machine deliver_interrupt Access.rw peek Access.ww iret
stays_away = refl

key :
    view (deliver_scancode parts 0x11e 1 playing)
    ≡ ok (true, 0x1e, false, 0x20, some (hardware_interrupt 9 ∷ hardware_interrupt 8 ∷ []))
unfolding on_machine deliver_scancode Access.rw peek Access.ww iret
key = refl

deliver_interrupt-Outcome_example :
    DeliveryOutcome parts 5 9 playing (deliver_interrupt parts 9 5 playing)
deliver_interrupt-Outcome_example = deliver_interrupt-Outcome parts 5 9 playing
