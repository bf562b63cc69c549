-- ===== src/Memory/Block.antt =====
-- The block operations of dos_re/memory.py: `_ordinary_real_mode_range`, `write_external_block`,
-- `try_forward_bulk_fill` and `try_forward_bulk_copy`, with the byte loops that they stand for.
pub mod Range
pub mod Store
pub mod Copy
pub mod Load
use dos_re.Prelude.{
  ℕ, zero, suc, ◌+◌, ◌-◌, ◌*◌, bit_and, Bool, true, false, Option, some, none, List, [], ◌∷◌, ◌++◌,
  ltb, leb, ◌&&◌, ◌||◌, ◌==◌, not, if◌then◌else◌, length, ◌≡◌,
}
use dos_re.Memory.State.{
  Memory, M, Result, ok, err, pure, ◌>>=◌, ◌>>◌, update, linear, value_error, cpu_mem_size,
  ega_cpu_aperture, ega_plane_window, bios_rom_base,
}
use dos_re.Memory.Access.{rb, wb}

-- `_ordinary_real_mode_range`; a length is never negative here.
unfoldable pub ordinary_real_mode_range : Memory → ℕ → ℕ → ℕ → Bool → Option ℕ
ordinary_real_mode_range m seg off n writable =
    let offset = bit_and off 0xffff in
    let addr = linear seg offset in
    let ega_limit = ega_cpu_aperture + ega_plane_window in
    if ltb 0x10000 (offset + n) || ltb cpu_mem_size (addr + n) || ltb m.size (addr + n)
    then none
    else if writable && ltb bios_rom_base (addr + n)
    then none
    else if m.ega_planar && ltb addr ega_limit && ltb ega_cpu_aperture (addr + n)
    then none
    else some addr

-- `self.data[a:a + len(payload)] = payload`, for a slice inside the bytearray
unfoldable pub store_slice : (ℕ → ℕ) → ℕ → List ℕ → ℕ → ℕ
store_slice cells a [] = cells
store_slice cells a (v ∷ vs) = store_slice (update cells a v) (suc a) vs

-- `self.data[a:a + n]`, for a slice inside the bytearray
unfoldable pub load_slice : (ℕ → ℕ) → ℕ → ℕ → List ℕ
load_slice cells a zero = []
load_slice cells a (suc n) = cells a ∷ load_slice cells (suc a) n

-- `self.sel_base is None and not self.write_watchers`
unfoldable pub unobserved : Memory → Bool
unobserved m = elim m.sel_base [ some _ ↦ false | none ↦ not m.watched ]

-- `for index, value in enumerate(payload): self.wb(seg, (offset + index) & 0xFFFF, value)`
unfoldable pub wb_each : ℕ → ℕ → ℕ → List ℕ → M (Unit {0})
wb_each seg offset index [] = pure tt
wb_each seg offset index (v ∷ vs) =
    wb seg (bit_and (offset + index) 0xffff) v >> wb_each seg offset (suc index) vs

-- The forward byte copy `REP MOVSB` that the bulk copy stands for.
unfoldable pub copy_each : ℕ → ℕ → ℕ → ℕ → ℕ → ℕ → M (Unit {0})
copy_each src_seg src_off dst_seg dst_off index zero = pure tt
copy_each src_seg src_off dst_seg dst_off index (suc n) =
    (rb src_seg (bit_and (src_off + index) 0xffff) >>= λ v.
    wb dst_seg (bit_and (dst_off + index) 0xffff) v)
    >> copy_each src_seg src_off dst_seg dst_off (suc index) n

-- `pattern * count`
unfoldable pub repeated : List ℕ → ℕ → List ℕ
repeated pattern zero = []
repeated pattern (suc count) = pattern ++ repeated pattern count

unfoldable pub write_external_block : ℕ → ℕ → List ℕ → M (Unit {0})
unfolding ordinary_real_mode_range unobserved
write_external_block seg off payload m =
    if length payload == 0
    then ok (tt, m)
    else elim (if unobserved m
        then ordinary_real_mode_range m seg off (length payload) true
        else none) [
          | some addr ↦ ok (tt, record m { cells = store_slice m.cells addr payload })
          | none ↦ wb_each seg (bit_and off 0xffff) 0 payload m
        ]

-- What a bulk operation may answer: true with the memory of the loop, or false with its own and
-- for the reason given.
unfoldable pub Bulk : Memory → Result (Unit {0} × Memory) → Type 0 → Result (Bool × Memory) → Type 0
Bulk m loop Reason (ok (true, n)) = loop ≡ ok (tt, n)
Bulk m loop Reason (ok (false, n)) = (n ≡ m) × Reason
Bulk m loop Reason (err e) = ⊥

unfoldable pub try_forward_bulk_fill : ℕ → ℕ → List ℕ → ℕ → M Bool
unfolding ordinary_real_mode_range unobserved
try_forward_bulk_fill seg off pattern count m =
    let n = length pattern * count in
    if length pattern == 0
    then err value_error
    else if n == 0
    then ok (true, m)
    else if not (unobserved m)
    then ok (false, m)
    else elim (ordinary_real_mode_range m seg off n true) [
      | none ↦ ok (false, m)
      | some addr ↦
          ok (true, record m { cells = store_slice m.cells addr (repeated pattern count) })
    ]

-- `src < dst < src + n`
unfoldable pub overlaps_forward : ℕ → ℕ → ℕ → Bool
overlaps_forward src dst n = ltb src dst && ltb dst (src + n)

unfoldable pub try_forward_bulk_copy : ℕ → ℕ → ℕ → ℕ → ℕ → M Bool
unfolding ordinary_real_mode_range unobserved overlaps_forward
try_forward_bulk_copy src_seg src_off dst_seg dst_off n m =
    if n == 0
    then ok (true, m)
    else if not (unobserved m)
    then ok (false, m)
    else elim (ordinary_real_mode_range m src_seg src_off n false) [
      | none ↦ ok (false, m)
      | some src ↦ elim (ordinary_real_mode_range m dst_seg dst_off n true) [
        | none ↦ ok (false, m)
        | some dst ↦
            if overlaps_forward src dst n
            then ok (false, m)
            else ok (true, record m { cells = store_slice m.cells dst (load_slice m.cells src n) })
      ]
    ]
