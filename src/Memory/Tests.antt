-- ===== src/Memory/Tests.antt =====
-- Concrete accesses to the memory of dos_re/memory.py.
use dos_re.Prelude.{ℕ, ◌+◌, ◌*◌, ◌%◌, ◌<◌, bit_and, true, List, [], ◌∷◌, ◌≡◌, ◌≢◌, refl, arith}
use dos_re.Prelude.Bits.{bit}
use dos_re.Memory.State.{Memory, new_memory, HoldsBytes, ok, ◌>>=◌}
use dos_re.Memory.State.Safe.{WellFormed, Safe, Done}
use dos_re.Memory.Ega.{plane_out, rotated}
use dos_re.Memory.Ega.Pixel.{pixel}
use dos_re.Memory.Access.{in_aperture, rb, wb, ww}
use dos_re.Memory.Access
use dos_re.Memory.Access.Run.{Request, perform, perform-Safe}
use dos_re.Memory.Access.Word.{PlainWord, rw-ww}
use dos_re.Memory.Access.Planar.{Planar, PlanesWritten, plane_cell, wb-write_mode_0, rb-wb-copies}
use dos_re.Memory.Block.{
  Bulk, wb_each, copy_each, repeated, write_external_block, try_forward_bulk_fill,
  try_forward_bulk_copy,
}
use dos_re.Memory.Block.Store.{
  AllBytes, Refuses, write_external_block-wb_each, try_forward_bulk_fill-Bulk,
}
use dos_re.Prelude.{◌⊎◌, ◌≤◌}
use dos_re.Memory.State.{linear}
use dos_re.Memory.Block.Load.{load_real, block_real, block_real-load_real}
use dos_re.Memory.Block.Copy.{RefusesCopy, try_forward_bulk_copy-Bulk}

-- A planar screen: planes 0 and 2 selected, a rotated and masked write that is or-ed with the latch.
abbrev screen : Memory
screen = record new_memory {
  ega_planar = true;
  ega_map_mask = 0x05;
  ega_data_rotate = 3;
  ega_logical_op = 2;
  ega_set_reset = 0x01;
  ega_enable_set_reset = 0x04;
  ega_bit_mask = 0x3c;
}

abbrev copying : Memory
copying = record screen { ega_write_mode = 1; ega_map_mask = 0x0f }

zeros : HoldsBytes new_memory
unfolding HoldsBytes
zeros a = omega arith

screen-WellFormed : WellFormed screen
unfolding HoldsBytes
screen-WellFormed = record {
  real = refl;
  room = omega arith;
  bytes = λ a. omega arith;
  latch_bytes = λ p. omega arith;
  mode = omega arith;
}

-- A word across the end of the aperture, a store into the ROM, and a planar read.
abbrev accesses : List Request
accesses =
    Request.write_word 0xa000 0xffff 0x1234
    ∷ Request.write_byte 0xf000 0 1
    ∷ Request.read_word 0xa000 0x10
    ∷ Request.read_byte 0xffff 0x10
    ∷ []

perform-Safe_example : Safe Done (perform accesses screen)
perform-Safe_example = perform-Safe accesses screen screen-WellFormed

-- The word at 0xEFFFF, whose high byte falls into the ROM.
rom_edge : PlainWord new_memory 0xe000 0xffff 0xeffff
unfolding in_aperture dos_re.Memory.State.linear
rom_edge = record {
  real = refl;
  quiet = refl;
  at = refl;
  writable = omega arith;
  room = omega arith;
  outside = refl;
}

rw-ww_example :
    (n : Memory) × (ww 0xe000 0xffff 0x1234 new_memory ≡ ok (tt, n))
    × (Access.rw 0xe000 0xffff n ≡ ok (0x1234 % 65536, n))
    × ((x : ℕ) → x ≢ 0xeffff → x ≢ 0xeffff + 1 → n.cells x ≡ new_memory.cells x)
rw-ww_example = rw-ww new_memory 0xe000 0xffff 0xeffff 0x1234 rom_edge

on_screen : Planar screen 0xa000 0x20 0xa0020
unfolding dos_re.Memory.State.linear
on_screen = record {
  real = refl;
  planar = refl;
  at = refl;
  above = omega arith;
  below = omega arith;
  room = omega arith;
}

wb-write_mode_0_example :
    (cells : ℕ → ℕ) × (wb 0xa000 0x20 0xe1 screen ≡ ok (tt, record screen { cells = cells }))
    × PlanesWritten screen (plane_out screen (rotated screen 0xe1)) 0xa0020 cells
    × ((p k : ℕ)
        → p < 4
        → k < 8
        → bit p screen.ega_map_mask ≡ 1
        → bit k (cells (plane_cell 0xa0020 p)) ≡ pixel screen 0xe1 p k)
wb-write_mode_0_example = wb-write_mode_0 screen 0xa000 0x20 0xa0020 0xe1 on_screen refl

from_here : Planar copying 0xa000 0x20 0xa0020
unfolding dos_re.Memory.State.linear
from_here = record {
  real = refl;
  planar = refl;
  at = refl;
  above = omega arith;
  below = omega arith;
  room = omega arith;
}

to_there : Planar copying 0xa200 0x20 0xa2020
unfolding dos_re.Memory.State.linear
to_there = record {
  real = refl;
  planar = refl;
  at = refl;
  above = omega arith;
  below = omega arith;
  room = omega arith;
}

copying_bytes : HoldsBytes copying
unfolding HoldsBytes
copying_bytes a = omega arith

rb-wb-copies_example :
    (n : Memory) × ((rb 0xa000 0x20 >>= λ v. wb 0xa200 0x20 v) copying ≡ ok (tt, n))
    × PlanesWritten copying (λ p. copying.cells (plane_cell 0xa0020 p)) 0xa2020 n.cells
rb-wb-copies_example =
    rb-wb-copies copying 0xa000 0x20 0xa0020 0xa200 0x20 0xa2020 from_here to_there copying_bytes
      refl

three_bytes : AllBytes (1 ∷ 2 ∷ 0xff ∷ [])
unfolding AllBytes
three_bytes = (omega arith, (omega arith, (omega arith, tt)))

write_external_block-wb_each_example :
    write_external_block 0x1000 0xfffe (1 ∷ 2 ∷ 0xff ∷ []) new_memory
    ≡ wb_each 0x1000 (bit_and 0xfffe 0xffff) 0 (1 ∷ 2 ∷ 0xff ∷ []) new_memory
write_external_block-wb_each_example =
    write_external_block-wb_each new_memory 0x1000 0xfffe (1 ∷ 2 ∷ 0xff ∷ []) three_bytes

try_forward_bulk_fill-Bulk_example :
    Bulk new_memory
      (wb_each 0x1000 (bit_and 0x10 0xffff) 0 (repeated (1 ∷ 2 ∷ 0xff ∷ []) 4) new_memory)
      (Refuses new_memory 0x1000 0x10 (3 * 4) true)
      (try_forward_bulk_fill 0x1000 0x10 (1 ∷ 2 ∷ 0xff ∷ []) 4 new_memory)
try_forward_bulk_fill-Bulk_example =
    try_forward_bulk_fill-Bulk new_memory 0x1000 0x10 (1 ∷ 2 ∷ 0xff ∷ []) 4 (omega arith)
      three_bytes

try_forward_bulk_copy-Bulk_example :
    Bulk new_memory
      (copy_each 0x1000 (bit_and 0x10 0xffff) 0x1000 (bit_and 0x8 0xffff) 0 32 new_memory)
      (RefusesCopy new_memory 0x1000 0x10 0x1000 0x8 32)
      (try_forward_bulk_copy 0x1000 0x10 0x1000 0x8 32 new_memory)
try_forward_bulk_copy-Bulk_example =
    try_forward_bulk_copy-Bulk new_memory 0x1000 0x10 0x1000 0x8 32 zeros

inside_store : linear 0xf000 0x10 + 3 ≤ new_memory.size
unfolding linear
inside_store = omega arith

-- Three bytes loaded into the ROM.
block_real-load_real_example :
    (n : Memory) × (load_real 0xf000 0x10 (1 ∷ 2 ∷ 0xff ∷ []) new_memory ≡ ok (tt, n))
    × (block_real 0xf000 0x10 3 n ≡ ok (1 ∷ 2 ∷ 0xff ∷ [], n))
    × ((x : ℕ)
        → (x < linear 0xf000 0x10) ⊎ (linear 0xf000 0x10 + 3 ≤ x)
        → n.cells x ≡ new_memory.cells x)
block_real-load_real_example =
    block_real-load_real new_memory 0xf000 0x10 (1 ∷ 2 ∷ 0xff ∷ []) inside_store
