-- ===== src/Cpu/Strings/Tests.antt =====
-- Repeated string instructions of dos_re/cpu.py on a small machine.
use dos_re.Prelude.{none, some, ◌≡◌, refl, arith}
use dos_re.Memory.State.{new_memory, HoldsBytes}
use dos_re.Memory.State.Safe.{WellFormed}
use dos_re.Cpu.Machine.{Machine}
use dos_re.Cpu.Strings.{Host, loop, string_op, width_of, delta_of}
use dos_re.Cpu.Strings.Step.{Portless, Runs}
use dos_re.Cpu.Strings.Ends.{Ended, string_op-Runs}
use dos_re.Cpu.Strings.Same.{string_op-loop}

-- Twelve elements from 2000:0010 to 3000:0100.
abbrev ready : Machine
ready = record {
  regs = record {
    ax = 0x4142;
    bx = 0;
    cx = 12;
    dx = 0;
    sp = 0;
    bp = 0;
    si = 0x10;
    di = 0x100;
    cs = 0x1000;
    ds = 0x2000;
    es = 0x3000;
    ss = 0;
    ip = 0;
    flags = 0x202;
  };
  mem = new_memory;
}

abbrev host : Host
host = record { max_rep_count = 1000000; port_reader = none; port_writer = none }

zero_bytes : HoldsBytes new_memory
unfolding HoldsBytes
zero_bytes a = omega arith

well_formed : WellFormed new_memory
unfolding HoldsBytes
well_formed = record {
  real = refl;
  room = omega arith;
  bytes = λ a. omega arith;
  latch_bytes = λ p. omega arith;
  mode = omega arith;
}

portless : Portless host
unfolding Portless
portless = (refl, refl)

-- `rep movsw`
string_op-loop_example :
    string_op host 0xa5 (some 0xf3) none ready
    ≡ loop host 0xa5 (some 0xf3) none (width_of 0xa5) (delta_of (width_of 0xa5) ready.regs) 12 ready
string_op-loop_example =
    string_op-loop host 0xa5 0xf3 none ready zero_bytes (omega arith) (omega arith)

-- `repne scasb`
string_op-Runs_example : Runs (Ended 0xae 12) (string_op host 0xae (some 0xf2) none ready)
string_op-Runs_example =
    string_op-Runs host 0xae 0xf2 none ready portless well_formed (omega arith) (omega arith)
