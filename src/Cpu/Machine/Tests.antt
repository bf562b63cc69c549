-- ===== src/Cpu/Machine/Tests.antt =====
-- Concrete runs of the fetches, the stack and the interrupt entry of dos_re/cpu.py.
use dos_re.Prelude.{
  ℕ, ◌+◌, ◌%◌, bit_and, false, some, [], ◌∷◌, ◌==◌, if◌then◌else◌, ◌≡◌, ◌≢◌, refl, arith, inl, inr,
}
use dos_re.X86.{if_flag, tf}
use dos_re.Cpu.Flags.{get_flag}
use dos_re.Memory.State.{new_memory, ok, linear}
use dos_re.Memory.Access.{rb, in_aperture}
use dos_re.Memory.Access.Word.{PlainWord, HoldsWord}
use dos_re.Cpu.Machine.{
  Machine, ◌>=>◌, on_mem, set_ip, fetch8, fetch8_pair, fetch16, push, pop, enter_hardware_interrupt,
  iret,
}
use dos_re.Cpu.Machine.Fetch.{PlainCode, fetch8-rb, fetch16-fetch8_pair}
use dos_re.Cpu.Machine.Stack.{below, pop-push}
use dos_re.Cpu.Regs.{es}
use dos_re.Cpu.Machine.Address.{decode_ea}
use dos_re.Cpu.Machine.Address.Paths.{plain_ea, decode_ea-fetches}
use dos_re.Cpu.Machine.Operand.{read_rm, write_rm, decode_rm_operand, read_operand, write_operand}
use dos_re.Cpu.Machine.Operand.Same.{rm-decode_rm_operand}
use dos_re.Cpu.Machine.Interrupt.{Ready, returned, enter_hardware_interrupt-iret}
use dos_re.Lift.Decode.{modrm_disp_len}
use dos_re.Lift.Decode.Consumed.{Advanced, decode_ea-Advanced}
use dos_re.Prelude.{◌/◌, ◌^◌, none, bit_and}

-- A running program whose keyboard vector names F000:0010.
abbrev running : Machine
running = record {
  regs = record {
    ax = 0;
    bx = 0;
    cx = 0;
    dx = 0;
    sp = 0x100;
    bp = 0;
    si = 0;
    di = 0;
    cs = 0x1000;
    ds = 0x1000;
    es = 0x1000;
    ss = 0x2000;
    ip = 0xffff;
    flags = 0x0302;
  };
  mem = record new_memory {
    cells = λ a. if a == 0x24 then 0x10 else if a == 0x27 then 0xf0 else 0;
  };
}

-- The same with a descriptor for the code segment.
abbrev selectors : Machine
selectors = record running {
  mem = record (running.mem) { sel_base = some ((0x1000, 0x5000) ∷ []); sel_min = 0x1000 };
}

real_code : PlainCode running
unfolding PlainCode
real_code = inl refl

selector_code : PlainCode selectors
unfolding PlainCode
selector_code = inr refl

fetch8-rb_example :
    fetch8 selectors
    ≡ (on_mem (rb 0x1000 0xffff) >=> λ v n. ok (v, set_ip (bit_and (0xffff + 1) 0xffff) n))
        selectors
fetch8-rb_example = fetch8-rb selectors selector_code

fetch16-fetch8_pair_example : fetch16 running ≡ fetch8_pair running
fetch16-fetch8_pair_example = fetch16-fetch8_pair running

top_word : PlainWord running.mem 0x2000 (below 0x100) 0x200fe
unfolding in_aperture linear
top_word = record {
  real = refl;
  quiet = refl;
  at = refl;
  writable = omega arith;
  room = omega arith;
  outside = refl;
}

second_word : PlainWord running.mem 0x2000 (below (below 0x100)) 0x200fc
unfolding in_aperture linear
second_word = record {
  real = refl;
  quiet = refl;
  at = refl;
  writable = omega arith;
  room = omega arith;
  outside = refl;
}

third_word : PlainWord running.mem 0x2000 (below (below (below 0x100))) 0x200fa
unfolding in_aperture linear
third_word = record {
  real = refl;
  quiet = refl;
  at = refl;
  writable = omega arith;
  room = omega arith;
  outside = refl;
}

vector_off : PlainWord running.mem 0 0x24 0x24
unfolding in_aperture linear
vector_off = record {
  real = refl;
  quiet = refl;
  at = refl;
  writable = omega arith;
  room = omega arith;
  outside = refl;
}

vector_seg : PlainWord running.mem 0 0x26 0x26
unfolding in_aperture linear
vector_seg = record {
  real = refl;
  quiet = refl;
  at = refl;
  writable = omega arith;
  room = omega arith;
  outside = refl;
}

pop-push_example :
    (n : Machine) × ((push 0x12345 >=> λ _. pop) running ≡ ok (0x12345 % 65536, n))
    × (n.regs ≡ running.regs)
    × ((x : ℕ) → x ≢ 0x200fe → x ≢ 0x200fe + 1 → n.mem.cells x ≡ running.mem.cells x)
pop-push_example = pop-push running 0x200fe 0x12345 (omega arith) top_word

ready : Ready running 1 0x200fe 0x200fc 0x200fa 0x24 0x26 0xf000 0x10
unfolding HoldsWord
ready = record {
  small = omega arith;
  first = top_word;
  second = second_word;
  third = third_word;
  apart = (omega arith, omega arith);
  vector = vector_off;
  vector' = vector_seg;
  handler_off = refl;
  handler_seg = refl;
}

enter_hardware_interrupt-iret_example :
    (n r : Machine) × (enter_hardware_interrupt 1 running ≡ ok (tt, n))
    × (n.regs.cs ≡ 0xf000 % 65536)
    × (n.regs.ip ≡ 0x10 % 65536)
    × (get_flag if_flag n.regs.flags ≡ false)
    × (get_flag tf n.regs.flags ≡ false)
    × (iret n ≡ ok (tt, r))
    × (r.regs ≡ returned running.regs 0x100)
enter_hardware_interrupt-iret_example =
    enter_hardware_interrupt-iret running 1 0x200fe 0x200fc 0x200fa 0x24 0x26 0xf000 0x10 ready

-- [bp+disp8] with the segment overridden.
decode_ea-fetches_example : decode_ea 1 6 (some es) running ≡ plain_ea 1 6 (some es) running
decode_ea-fetches_example = decode_ea-fetches 1 6 (some es) running

-- The byte at es:[bp+disp8].
rm-decode_rm_operand_example :
    (read_rm 1 6 8 (some es) running ≡ (decode_rm_operand 1 6 8 (some es) >=> read_operand) running)
    × (write_rm 1 6 8 0x1ff (some es) running
        ≡ (decode_rm_operand 1 6 8 (some es) >=> λ o. write_operand o 0x1ff) running)
rm-decode_rm_operand_example = rm-decode_rm_operand 1 6 8 0x1ff (some es) running

-- The displacement byte of the ModR/M byte 0x46.
decode_ea-Advanced_example :
    Advanced (modrm_disp_len 0x46) running (decode_ea (0x46 / 2 ^ 6) (bit_and 0x46 7) none running)
decode_ea-Advanced_example = decode_ea-Advanced 0x46 none running (omega arith) (omega arith)
