-- ===== src/Memory/Block/Range.antt =====
-- What an address from `_ordinary_real_mode_range` of dos_re/memory.py promises.
use dos_re.Prelude.{
  ℕ, ◌+◌, ◌%◌, ◌<◌, ◌≤◌, bit_and, Bool, true, false, Option, some, none, ltb, ◌&&◌, ◌||◌,
  if◌then◌else◌, ◌≡◌, refl, sym, ap, ◌∙◌, arith,
}
use mathlib.Core.Option.{some-injective, none-ne-some}
use dos_re.Prelude.Bits.{bit_and_mask}
use dos_re.Memory.State.{
  Memory, linear, cpu_mem_size, bios_rom_base, ega_cpu_aperture, ega_plane_window,
}
use dos_re.Memory.Access.{in_aperture}
use dos_re.Memory.Block.{ordinary_real_mode_range}

-- The n bytes at seg:off are n neighbouring cells from a on, inside the first megabyte and the
-- bytearray, and none of them stands in a planar aperture.
pub record Contiguous (m : Memory) (seg off n a : ℕ) : Type 0 where
  pub start : a ≡ linear seg (off % 65536)
  pub in_segment : off % 65536 + n ≤ 65536
  pub in_megabyte : a + n ≤ cpu_mem_size
  pub in_store : a + n ≤ m.size
  pub outside : (k : ℕ) → k < n → in_aperture m (a + k) ≡ false

-- It says nothing about what the cells hold.
pub Contiguous-stored :
    {m : Memory} {seg off n a : ℕ} (cells : ℕ → ℕ)
    → Contiguous m seg off n a
    → Contiguous (record m { cells = cells }) seg off n a
unfolding in_aperture
Contiguous-stored cells c = record {
  start = c.start;
  in_segment = c.in_segment;
  in_megabyte = c.in_megabyte;
  in_store = c.in_store;
  outside = c.outside;
}

open_guard :
    (b : Bool) {x : Option ℕ} {a : ℕ}
    → (if b then none else x) ≡ some a
    → (b ≡ false) × (x ≡ some a)
open_guard true {a = a} h = absurd (none-ne-some a h)
open_guard false h = (refl, h)

not_in_aperture :
    (m : Memory) (a n k : ℕ)
    → (m.ega_planar && ltb a (ega_cpu_aperture + ega_plane_window) && ltb ega_cpu_aperture (a + n))
      ≡ false
    → k < n
    → in_aperture m (a + k) ≡ false
unfolding in_aperture
not_in_aperture m a n k h lt = ground arith

pub ordinary_real_mode_range-Contiguous :
    (m : Memory) (seg off n a : ℕ) (writable : Bool)
    → ordinary_real_mode_range m seg off n writable ≡ some a
    → Contiguous m seg off n a × ((writable && ltb bios_rom_base (a + n)) ≡ false)
unfolding ordinary_real_mode_range
ordinary_real_mode_range-Contiguous m seg off n a writable h =
    let offset = bit_and off 0xffff in
    let addr = linear seg offset in
    let first =
      open_guard (ltb 0x10000 (offset + n) || ltb cpu_mem_size (addr + n) || ltb m.size (addr + n))
        h in
    let second = open_guard (writable && ltb bios_rom_base (addr + n)) first.1 in
    let third =
      open_guard
        (m.ega_planar
          && ltb addr (ega_cpu_aperture + ega_plane_window)
          && ltb ega_cpu_aperture (addr + n))
        second.1 in
    let here : a ≡ addr = sym (some-injective addr a third.1) in
    let masked : offset ≡ off % 65536 = bit_and_mask 16 off in
    let fits = first.0 in
    (
      record {
        start = here ∙ ap (linear seg) masked;
        in_segment = ground (arith, masked);
        in_megabyte = ground (arith, here);
        in_store = ground (arith, here);
        outside = λ k lt. rw here (not_in_aperture m addr n k third.0 lt);
      },
      rw here second.0,
    )
