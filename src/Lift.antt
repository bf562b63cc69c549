-- ===== src/Lift.antt =====
-- The static part of the lifter, under dos_re/lift.
pub mod Decode
