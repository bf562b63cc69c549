-- ===== src/Prelude/Bits.antt =====
-- The bits of a natural number, and what `&`, `|`, `^` and `& ~` do to each bit. No code of the
-- repository is modelled here; every word-level component rests on these laws.
mod Step
mod Laws
pub use Step.{bit_and_step, bit_or_step, bit_xor_step}
unfoldable pub use Laws.{bit}
pub use Laws.*
