-- ===== src/Cpu/Tests.antt =====
-- Concrete runs of the arithmetic, the shifts and the byte registers of dos_re/cpu.py.
use dos_re.Prelude.{
  ℕ, ◌+◌, ◌-◌, ◌%◌, ◌^◌, bit_and, bit_or, bit_xor, true, false, from_bool, some, ◌≡◌, ◌≢◌, arith,
}
use dos_re.Prelude.Int.{sub_ℕ}
use dos_re.Memory.State.{ok}
use dos_re.X86.{CpuState, cf}
use dos_re.Cpu.Flags.{get_flag, set_flag, set_add_flags, set_sub_flags, set_incdec_flags}
use dos_re.Cpu.Alu.{alu}
use dos_re.Cpu.Alu.Results.{IsSum, IsDifference, alu-adds, alu-subs}
use dos_re.Cpu.Alu.Compare.{Decides, condition-cmp}
use dos_re.Cpu.Alu.IncDec.{set_incdec_flags-restores_carry}
use dos_re.Cpu.Alu.Logic.{IsLogic, alu-IsLogic}
use dos_re.Cpu.Shift.{shift}
use dos_re.Cpu.Shift.Inverse.{shift-rotates_back}
use dos_re.Cpu.Regs.{al, ah, get_reg8, set_reg8, daa}
use dos_re.Cpu.Regs.Bytes.{get_reg8-set_reg8}
use dos_re.Cpu.Regs.Decimal.{packed, HoldsDecimal, daa-adds}

abbrev registers : CpuState
registers = record {
  ax = 0x1234;
  bx = 0;
  cx = 0;
  dx = 0;
  sp = 0x100;
  bp = 0;
  si = 0;
  di = 0;
  cs = 0x1000;
  ds = 0x1000;
  es = 0x1000;
  ss = 0x2000;
  ip = 0x100;
  flags = 0x0002;
}

-- 200 + 100 as bytes, and with a carry coming in.
alu-adds_example :
    ((r f : ℕ) × (alu 0 200 100 8 0x0003 ≡ some (r, f)) × IsSum 7 200 100 0 0x0003 r f)
    × ((r f : ℕ) × (alu 2 200 100 8 0x0003 ≡ some (r, f))
        × IsSum 7 200 100 (from_bool (get_flag cf 0x0003)) 0x0003 r f)
alu-adds_example = alu-adds 7 200 100 0x0003 (omega arith) (omega arith)

-- 5 - 9 as words.
alu-subs_example :
    ((r f : ℕ) × (alu 5 5 9 16 0x0003 ≡ some (r, f))
      × (alu 7 5 9 16 0x0003 ≡ some (r, f))
      × IsDifference 15 5 9 0 0x0003 r f)
    × ((r f : ℕ) × (alu 3 5 9 16 0x0003 ≡ some (r, f))
        × IsDifference 15 5 9 (from_bool (get_flag cf 0x0003)) 0x0003 r f)
alu-subs_example = alu-subs 15 5 9 0x0003 (omega arith) (omega arith)

-- 0x80 is above 1 as an unsigned byte and below it as a signed one.
condition-cmp_example : (r f : ℕ) × (alu 7 0x80 1 8 0x0002 ≡ some (r, f)) × Decides 7 0x80 1 f
condition-cmp_example = condition-cmp 7 0x80 1 0x0002 (omega arith) (omega arith)

set_incdec_flags-restores_carry_example :
    (set_incdec_flags 255 ((255 + 1) % 2 ^ 8) 8 false 0x0003
      ≡ set_flag cf (get_flag cf 0x0003) (set_add_flags 255 1 (255 + 1) 8 0 0x0003))
    × (set_incdec_flags 255 ((255 + 2 ^ 8 - 1) % 2 ^ 8) 8 true 0x0003
        ≡ set_flag cf (get_flag cf 0x0003) (set_sub_flags 255 1 (sub_ℕ 255 1) 8 0 0x0003))
set_incdec_flags-restores_carry_example =
    set_incdec_flags-restores_carry 7 255 0x0003 (omega arith) (omega arith)

alu-IsLogic_example :
    ((r f : ℕ) × (alu 1 0xf0 0x3c 8 0x0003 ≡ some (r, f)) × IsLogic 7 (bit_or 0xf0 0x3c) 0x0003 r f)
    × ((r f : ℕ) × (alu 4 0xf0 0x3c 8 0x0003 ≡ some (r, f))
        × IsLogic 7 (bit_and 0xf0 0x3c) 0x0003 r f)
    × ((r f : ℕ) × (alu 6 0xf0 0x3c 8 0x0003 ≡ some (r, f))
        × IsLogic 7 (bit_xor 0xf0 0x3c) 0x0003 r f)
alu-IsLogic_example = alu-IsLogic 7 0xf0 0x3c 0x0003

-- A byte rotated by eleven.
shift-rotates_back_example :
    ((r f f' : ℕ) × (shift 0 0x81 11 8 0x0002 ≡ ok (r, f)) × (shift 1 r 11 8 f ≡ ok (0x81, f')))
    × ((r f f' : ℕ) × (shift 1 0x81 11 8 0x0002 ≡ ok (r, f)) × (shift 0 r 11 8 f ≡ ok (0x81, f')))
    × ((r f f' : ℕ) × (shift 2 0x81 11 8 0x0002 ≡ ok (r, f))
        × (shift 3 r 11 8 f ≡ ok (0x81, f'))
        × (bit_and f' cf ≡ bit_and 0x0002 cf))
    × ((r f f' : ℕ) × (shift 3 0x81 11 8 0x0002 ≡ ok (r, f))
        × (shift 2 r 11 8 f ≡ ok (0x81, f'))
        × (bit_and f' cf ≡ bit_and 0x0002 cf))
shift-rotates_back_example = shift-rotates_back 8 11 0x81 0x0002 (omega arith) (omega arith)

get_reg8-set_reg8_example :
    (get_reg8 ah (set_reg8 ah 0x1ff registers) ≡ 0x1ff % 256)
    × (ah ≢ al → get_reg8 al (set_reg8 ah 0x1ff registers) ≡ get_reg8 al registers)
get_reg8-set_reg8_example = get_reg8-set_reg8 ah al 0x1ff registers

-- 58 + 67 in packed decimal.
daa-adds_example :
    ((r f : ℕ) × (alu 0 (packed 58) (packed 67) 8 0x0003 ≡ some (r, f))
      × ((s : CpuState) → get_reg8 al s ≡ r → s.flags ≡ f → HoldsDecimal (58 + 67) (daa s)))
    × ((r f : ℕ) × (alu 2 (packed 58) (packed 67) 8 0x0003 ≡ some (r, f))
        × ((s : CpuState)
            → get_reg8 al s ≡ r
            → s.flags ≡ f
            → HoldsDecimal (58 + 67 + from_bool (get_flag cf 0x0003)) (daa s)))
daa-adds_example = daa-adds 58 67 0x0003 (omega arith) (omega arith)
