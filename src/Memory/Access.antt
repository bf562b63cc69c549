-- ===== src/Memory/Access.antt =====
-- `rb`, `rw`, `wb` and `ww` of dos_re/memory.py, with `_xlat`, `check`, the `*_phys` accessors and
-- `_notify_write`.
pub mod Safe
pub mod Word
pub mod Run
pub mod Planar
pub mod Plain
use dos_re.Prelude.{
  ℕ, ◌+◌, ◌-◌, ◌*◌, ◌/◌, ◌%◌, ◌^◌, bit_and, bit_or, Bool, true, false, Option, some, none, List, [],
  ◌∷◌, ◌==◌, ltb, leb, ◌&&◌, if◌then◌else◌,
}
use dos_re.Memory.State.{
  Memory, M, Result, ok, err, pure, fail, ◌>>=◌, ◌>>◌, peek, poke, linear, lookup, WriteEvent,
  memory_error, ega_cpu_aperture, ega_plane_window, bios_rom_base,
}
use dos_re.Memory.Ega.{ega_wb, ega_rb}

-- `_xlat`: the selector's descriptor without its RPL bits, or the real-mode address.
unfoldable pub xlat : List (ℕ × ℕ) → ℕ → ℕ → ℕ → ℕ
xlat sel_base sel_min seg off =
    let s = bit_and seg 0xffff in
    let o = bit_and off 0xffff in
    let found = if leb sel_min s then lookup (bit_and s 0xfffc) sel_base else none in
    elim found [ some base ↦ base + o | none ↦ s * 2 ^ 4 + o ]

-- `check(addr, n)`
unfoldable pub check : ℕ → ℕ → M ℕ
check addr n m =
    let a = bit_and addr 0xfffff in if ltb m.size (a + n) then err memory_error else ok (a, m)

-- `_notify_write`, where there are watchers.
unfoldable pub notify_write : ℕ → List ℕ → List ℕ → M (Unit {0})
notify_write addr old new m =
    let a : ℕ = elim m.sel_base [ none ↦ bit_and addr 0xfffff | some _ ↦ addr ] in
    ok (
      tt,
      (if m.watched
          then record m { log = record { addr = a; old = old; new = new } ∷ m.log }
          else m),
    )

-- One byte stored, and reported.
unfoldable pub store_byte : ℕ → ℕ → M (Unit {0})
unfolding peek poke notify_write
store_byte a v = do old ← peek a; poke a v; notify_write a (old ∷ []) (v ∷ [])

-- Two bytes stored at adjacent cells, and reported as one.
unfoldable pub store_word : ℕ → ℕ → ℕ → M (Unit {0})
unfolding peek poke notify_write
store_word a lo hi = do
  old0 ← peek a
  old1 ← peek (a + 1)
  poke a lo
  poke (a + 1) hi
  notify_write a (old0 ∷ old1 ∷ []) (lo ∷ hi ∷ [])

unfoldable pub rb_phys : ℕ → M ℕ
rb_phys addr = do peek (← check addr 1)

unfoldable pub rw_phys : ℕ → M ℕ
rw_phys addr = do a ← check addr 2; lo ← peek a; hi ← peek (a + 1); pure (bit_or lo (hi * 2 ^ 8))

unfoldable pub wb_phys : ℕ → ℕ → M (Unit {0})
wb_phys addr value = do store_byte (← check addr 1) (bit_and value 0xff)

unfoldable pub ww_phys : ℕ → ℕ → M (Unit {0})
ww_phys addr value = do
  store_word (← check addr 2) (bit_and value 0xff) (bit_and (value / 2 ^ 8) 0xff)

-- `self.ega_planar` and `0 <= a - EGA_CPU_APERTURE < EGA_PLANE_WINDOW`
unfoldable pub in_aperture : Memory → ℕ → Bool
in_aperture m a =
    m.ega_planar && leb ega_cpu_aperture a && ltb (a - ega_cpu_aperture) ega_plane_window

unfoldable pub rb : ℕ → ℕ → M ℕ
unfolding xlat linear in_aperture
rb seg off m =
    let a = linear seg off in
    elim m.sel_base [
      | some sb ↦ peek (xlat sb m.sel_min seg off) m
      | none ↦ if in_aperture m a then ega_rb (a - ega_cpu_aperture) m else peek a m
    ]

-- `d[a] | (d[b] << 8)`
unfoldable pub read_pair : ℕ → ℕ → M ℕ
read_pair a b = do lo ← peek a; hi ← peek b; pure (bit_or lo (hi * 2 ^ 8))

unfoldable pub rw : ℕ → ℕ → M ℕ
unfolding xlat linear in_aperture read_pair
rw seg off m =
    let a = linear seg off in
    let po = a - ega_cpu_aperture in
    elim m.sel_base [
      | some sb ↦ let s = xlat sb m.sel_min seg off in read_pair s (s + 1) m
      | none ↦
          if in_aperture m a
          then (rb seg off >>= λ lo.
                if ltb (po + 1) ega_plane_window
                then (rb seg (bit_and (off + 1) 0xffff) >>= λ hi. pure (bit_or lo (hi * 2 ^ 8)))
                else (peek (bit_and (a + 1) 0xfffff) >>= λ hi. pure (bit_or lo (hi * 2 ^ 8))))
              m
          else if a == 0xfffff
          then read_pair a 0 m
          else read_pair a (a + 1) m
    ]

unfoldable pub wb : ℕ → ℕ → ℕ → M (Unit {0})
unfolding xlat linear in_aperture store_byte
wb seg off value m =
    let a = linear seg off in
    elim m.sel_base [
      | some sb ↦ store_byte (xlat sb m.sel_min seg off) (bit_and value 0xff) m
      | none ↦
          if leb bios_rom_base a
          then ok (tt, m)
          else if in_aperture m a
          then ega_wb (a - ega_cpu_aperture) value m
          else store_byte a (bit_and value 0xff) m
    ]

-- The store at a = 0xFFFFF, which wraps to cell 0, stands below the test for the BIOS ROM in the
-- source; it is kept where it stands.
unfoldable pub ww : ℕ → ℕ → ℕ → M (Unit {0})
unfolding xlat linear in_aperture store_byte store_word
ww seg off value m =
    let a = linear seg off in
    let po = a - ega_cpu_aperture in
    let lo = bit_and value 0xff in
    let hi = bit_and (value / 2 ^ 8) 0xff in
    elim m.sel_base [
      | some sb ↦ store_word (xlat sb m.sel_min seg off) lo hi m
      | none ↦
          if leb bios_rom_base a
          then ok (tt, m)
          else if in_aperture m a
          then (ega_wb po lo
                >> (if ltb (po + 1) ega_plane_window then ega_wb (po + 1) hi else poke (a + 1) hi))
              m
          else if a == 0xfffff
          then (store_byte a lo >> store_byte 0 hi) m
          else store_word a lo hi m
    ]
