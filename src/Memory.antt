-- ===== src/Memory.antt =====
-- dos_re/memory.py, class `Memory`: the address space with its EGA planes, real-mode and selector
-- addressing, and the bulk transfers.
pub mod State
pub mod Ega
pub mod Access
pub mod Block
mod Tests
