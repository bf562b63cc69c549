-- ===== src/Cpu.antt =====
-- dos_re/cpu.py, the real-mode interpreter: one child for each group of its methods.
pub mod Flags
pub mod Alu
pub mod Regs
pub mod Shift
mod Tests
pub mod Machine
pub mod Strings
