-- ===== src/Lib.antt =====
-- dos_re: a model of the execution core of this repository, an emulator and recovery tool for DOS
-- programs, and the theorems that make that core correct.
--
-- The interpreter (dos_re/cpu.py) executes 8086 code over a register file (dos_re/x86.py) and a
-- memory (dos_re/memory.py); devices raise interrupt requests at the controller (dos_re/pic.py),
-- which the interpreter polls between instructions. The loader (dos_re/memory.py) reads an MZ file
-- (dos_re/mz.py) into a fresh memory. The lifter decodes the same code bytes statically
-- (dos_re/lift/decode.py), and the dispatcher (dos_re/regions.py) hands control between the
-- interpreted program and the regions that replace parts of it. Which file models what:
--   X86             dos_re/x86.py: the flag bits, PARITY, CPUState (the record CpuState)
--   Cpu.Flags       dos_re/cpu.py: set_flag, get_flag, set_logic_flags, set_add_flags,
--                   set_sub_flags, set_incdec_flags
--   Cpu.Alu         dos_re/cpu.py: alu, condition
--   Cpu.Shift       dos_re/cpu.py: shift
--   Cpu.Regs        dos_re/cpu.py: the register accessors by number, daa
--   Cpu.Machine     dos_re/cpu.py: fetch8, fetch16, peek_modrm, decode_ea, push, pop,
--                   _enter_hardware_interrupt, and the IRET of execute_opcode
--                   (Cpu.Machine.Operand: _RegOperand, _MemOperand, decode_rm_operand, read_rm,
--                   write_rm)
--   Cpu.Strings     dos_re/cpu.py: string_op
--   Pic             dos_re/pic.py: PIC8259 (the record Pic8259)
--   Memory.State    dos_re/memory.py: the attributes of Memory, its constants and failures
--   Memory.Ega      dos_re/memory.py: _ega_wb, and the planar branch of rb
--   Memory.Access   dos_re/memory.py: _xlat, check, the *_phys accessors, rb, rw, wb, ww
--   Memory.Block    dos_re/memory.py: _ordinary_real_mode_range, write_external_block,
--                   try_forward_bulk_fill, try_forward_bulk_copy, and load and block in real mode
--   Mz              dos_re/mz.py: MZHeader, MZExecutable, parse_mz
--   Loader          dos_re/memory.py: create_psp, load_mz_program
--   Lift.Decode     dos_re/lift/decode.py: the opcode table, Inst, decode_one
--   Regions         dos_re/regions.py: RegionProgress, RegionDispatcher, and the records of
--                   dos_re/execution.py that they read
--   Keyboard        dos_re/keyboard.py: KeyDispatcher
--   Interrupts      dos_re/interrupts.py: read_vector, deliver_interrupt, deliver_scancode
--   Prelude         lists, integers and bits for all of them
-- The modules below these carry the proofs; a Tests module holds the concrete runs.
--
-- State. A method of the source that only rewrites the FLAGS word is a function from the old word
-- to the new one; a method that rewrites registers is a function on CpuState. The methods of
-- Memory are programs of the monad M of Memory.State: a function from a memory to a failure or to
-- a value with the new memory. Memory.cells gives the byte of every address; a read or a store at
-- or above Memory.size is the IndexError of the bytearray. The callbacks of write_watchers are
-- observers, so the model logs what they are told. Failures are values of Failure. A method of the
-- interpreter that reaches memory is an Exec, which does the same over a Machine: the registers
-- and the memory.
--
-- Numbers. All quantities are natural numbers with the masks of the source written out. Where the
-- source goes below zero, in the raw difference that set_sub_flags is given and in the arithmetic
-- shift, the integer is one of Prelude.Int. `x & ~m` on natural numbers is bit_clear.
--
-- Fuel. Only the bit length of a number in Pic runs on fuel, which is the number itself and so more
-- than it has bits; every other loop is structural on a list or a count: the repetition of a string
-- instruction on its count, the prefix loop of the decoder on the fifteen rounds of the source, the
-- delivery loop of an interrupt on the steps that the source allows before it raises.
--
-- Given from outside. The port handlers of the interpreter are fields of Host in Cpu.Strings; the
-- sessions and completion callbacks of the dispatcher are the record Adapters in Regions; the byte
-- source of the decoder is a function; the step that the delivery of an interrupt repeats, and the
-- BIOS keystroke, are the record Parts in Interrupts, on the processor and the devices together. The
-- files of the host are lists of bytes.
--
-- Not modelled. load and block with selectors, where a slice can make the bytearray grow; the
-- names and texts that operations return for traces; the attributes of Memory that only the
-- renderer reads; the x87 unit, which computes with host floats; the opcode dispatcher, the
-- devices other than the interrupt controller, and everything that only moves host files, windows
-- or sound.
pub mod Cpu
pub mod Interrupts
pub mod Keyboard
pub mod Lift
pub mod Loader
pub mod Memory
pub mod Mz
pub mod Pic
pub mod Prelude
pub mod Regions
pub mod X86
