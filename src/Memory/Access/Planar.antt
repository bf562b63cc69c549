-- ===== src/Memory/Access/Planar.antt =====
-- Reads and writes through the planar EGA aperture: `rb` and `wb` of dos_re/memory.py where
-- ega_planar is set, in write modes 0 and 1.
use dos_re.Prelude.{
  ℕ, zero, suc, ◌+◌, ◌-◌, ◌*◌, ◌%◌, ◌<◌, ◌≤◌, bit_and, Bool, true, false, none, truthy, ◌==◌, leb,
  if◌then◌else◌, ◌≡◌, ◌≢◌, refl, ap, ◌∙◌, arith,
}
use dos_re.Prelude.Bits.{bit, bit_and_mask}
use dos_re.Memory.State.{
  Memory, HoldsBytes, Result, ok, ◌>>=◌, linear, peek, mem_size, bios_rom_base, ega_cpu_aperture,
  ega_aperture, ega_plane_window, ega_plane_stride,
}
use dos_re.Memory.State.Steps.{bind_ok, peek-in}
use dos_re.Memory.Ega.{planes, rotated, plane_out, each_plane, ega_wb, ega_rb, ega_answer}
use dos_re.Memory.Ega.Pixel.{pixel, plane_out-pixel, selects-bit}
use dos_re.Memory.Ega.Planes.{
  planes_from, stored, stored-elsewhere, stored-plane, each_plane-stored,
}
use dos_re.Memory.Access.{in_aperture, rb, wb}

-- The cell of plane p behind the aperture's address a.
abbrev pub plane_cell : ℕ → ℕ → ℕ
plane_cell a p = ega_aperture + (a - ega_cpu_aperture) + ega_plane_stride * p

-- Real mode with planar emulation on, and an address inside the aperture.
pub record Planar (m : Memory) (seg off a : ℕ) : Type 0 where
  pub real : m.sel_base ≡ none
  pub planar : m.ega_planar ≡ true
  pub at : linear seg off ≡ a
  pub above : ega_cpu_aperture ≤ a
  pub below : a < ega_cpu_aperture + ega_plane_window
  pub room : mem_size ≤ m.size

-- The selected planes have taken the byte that `out` gives each, and nothing else has changed.
pub record PlanesWritten (m : Memory) (out : ℕ → ℕ) (a : ℕ) (cells : ℕ → ℕ) : Type 0 where
  pub selected : (p : ℕ) → p < 4 → bit p m.ega_map_mask ≡ 1 → cells (plane_cell a p) ≡ out p
  pub unselected :
      (p : ℕ) → p < 4 → bit p m.ega_map_mask ≡ 0 → cells (plane_cell a p) ≡ m.cells (plane_cell a p)
  pub elsewhere : (x : ℕ) → ((p : ℕ) → p < 4 → x ≢ plane_cell a p) → cells x ≡ m.cells x

inside : (m : Memory) (seg off a : ℕ) → Planar m seg off a → in_aperture m a ≡ true
unfolding in_aperture
inside m seg off a c = ground (arith, c.planar, c.above, c.below)

wb-ega_wb :
    (m : Memory) (seg off a value : ℕ)
    → Planar m seg off a
    → wb seg off value m ≡ ega_wb (a - ega_cpu_aperture) value m
unfolding wb
wb-ega_wb m seg off a value c =
    let low : leb bios_rom_base a ≡ false = ground (arith, c.below) in
    rw (c.real, c.at, low, inside m seg off a c) refl

ega_wb-mode_0 :
    (m : Memory) (po value : ℕ)
    → m.ega_write_mode % 4 ≡ 0
    → ega_wb po value m
      ≡ each_plane (plane_out m (rotated m value)) m.ega_map_mask (ega_aperture + po) planes m
unfolding ega_wb
ega_wb-mode_0 m po value mode =
    let masked : bit_and m.ega_write_mode 0x03 ≡ 0 = bit_and_mask 2 m.ega_write_mode ∙ mode in
    rw masked refl

ega_wb-mode_1 :
    (m : Memory) (po value : ℕ)
    → m.ega_write_mode % 4 ≡ 1
    → ega_wb po value m
      ≡ each_plane (λ p. bit_and (m.ega_latches p) 0xff) m.ega_map_mask (ega_aperture + po) planes m
unfolding ega_wb
ega_wb-mode_1 m po value mode =
    let masked : bit_and m.ega_write_mode 0x03 ≡ 1 = bit_and_mask 2 m.ega_write_mode ∙ mode in
    rw masked refl

written :
    (m : Memory) (out : ℕ → ℕ) (a : ℕ)
    → a < ega_cpu_aperture + ega_plane_window
    → mem_size ≤ m.size
    → (cells : ℕ → ℕ) × (each_plane out m.ega_map_mask
          (ega_aperture + (a - ega_cpu_aperture))
          planes
          m
        ≡ ok (tt, record m { cells = cells }))
      × PlanesWritten m out a cells
unfolding planes_from
written m out a below room =
    let base = ega_aperture + (a - ega_cpu_aperture) in
    let mask = m.ega_map_mask in
    let at = λ (p : ℕ) (h : p < 4).
      stored-plane out mask base 0 4 p m.cells (omega arith) (omega arith)
      ∙ ap (λ b. if b then out p else m.cells (plane_cell a p)) (selects-bit mask p) in
    (
      stored out mask base m.cells (planes_from 0 4),
      each_plane-stored out mask base 0 4 m (omega arith),
      record {
        selected = λ p h e. at p h ∙ ap (λ b. if b == 1 then out p else m.cells (plane_cell a p)) e;
        unselected =
            λ p h e. at p h ∙ ap (λ b. if b == 1 then out p else m.cells (plane_cell a p)) e;
        elsewhere = λ x apart.
            stored-elsewhere out mask base 0 4 x m.cells (λ q from to. apart q (omega arith));
      },
    )

-- A byte written through the aperture in write mode 0 sets every pixel of the planes that the map
-- mask selects to what the registers say, and changes nothing else.
pub wb-write_mode_0 :
    (m : Memory) (seg off a value : ℕ)
    → Planar m seg off a
    → m.ega_write_mode % 4 ≡ 0
    → (cells : ℕ → ℕ) × (wb seg off value m ≡ ok (tt, record m { cells = cells }))
      × PlanesWritten m (plane_out m (rotated m value)) a cells
      × ((p k : ℕ)
          → p < 4
          → k < 8
          → bit p m.ega_map_mask ≡ 1
          → bit k (cells (plane_cell a p)) ≡ pixel m value p k)
wb-write_mode_0 m seg off a value c mode =
    let w = written m (plane_out m (rotated m value)) a c.below c.room in
    (
      w.0,
      wb-ega_wb m seg off a value c ∙ ega_wb-mode_0 m (a - ega_cpu_aperture) value mode ∙ w.1,
      w.2,
      λ p k hp hk on. ap (bit k) (w.2.selected p hp on) ∙ plane_out-pixel m value p k hp hk,
    )

-- In write mode 1 the planes that the map mask selects take the latches instead, whatever byte is
-- written.
pub wb-write_mode_1 :
    (m : Memory) (seg off a value : ℕ)
    → Planar m seg off a
    → m.ega_write_mode % 4 ≡ 1
    → (cells : ℕ → ℕ) × (wb seg off value m ≡ ok (tt, record m { cells = cells }))
      × PlanesWritten m (λ p. m.ega_latches p % 256) a cells
wb-write_mode_1 m seg off a value c mode =
    let w = written m (λ p. bit_and (m.ega_latches p) 0xff) a c.below c.room in
    (
      w.0,
      wb-ega_wb m seg off a value c ∙ ega_wb-mode_1 m (a - ega_cpu_aperture) value mode ∙ w.1,
      record {
        selected = λ p h e. w.2.selected p h e ∙ bit_and_mask 8 (m.ega_latches p);
        unselected = w.2.unselected;
        elsewhere = w.2.elsewhere;
      },
    )

rb-ega_rb :
    (m : Memory) (seg off a : ℕ)
    → Planar m seg off a
    → rb seg off m ≡ ega_rb (a - ega_cpu_aperture) m
unfolding rb
rb-ega_rb m seg off a c = rw (c.real, c.at, inside m seg off a c) refl

-- The four bytes that a read loads.
loaded : (l0 l1 l2 l3 : ℕ) → ℕ → ℕ
loaded l0 l1 l2 l3 p = if p == 0 then l0 else if p == 1 then l1 else if p == 2 then l2 else l3

ega_rb-loads :
    (m : Memory) (po : ℕ)
    → ega_aperture + po + ega_plane_stride * 3 < m.size
    → ega_rb po m
      ≡ ega_answer
          (loaded
            (m.cells (ega_aperture + po))
            (m.cells (ega_aperture + po + ega_plane_stride))
            (m.cells (ega_aperture + po + ega_plane_stride * 2))
            (m.cells (ega_aperture + po + ega_plane_stride * 3)))
          m
unfolding ega_rb loaded
ega_rb-loads m po room =
    let a0 = ega_aperture + po in
    let a1 = a0 + ega_plane_stride in
    let a2 = a0 + ega_plane_stride * 2 in
    let a3 = a0 + ega_plane_stride * 3 in
    let after2 = λ (l0 l1 l2 : ℕ). peek a3 >>= λ l3. ega_answer (loaded l0 l1 l2 l3) in
    let after1 = λ (l0 l1 : ℕ). peek a2 >>= after2 l0 l1 in
    let after0 = λ (l0 : ℕ). peek a1 >>= after1 l0 in
    bind_ok (peek a0) after0 m (peek-in m a0 (omega arith))
    ∙ bind_ok (peek a1) (after1 (m.cells a0)) m (peek-in m a1 (omega arith))
    ∙ bind_ok (peek a2) (after2 (m.cells a0) (m.cells a1)) m (peek-in m a2 (omega arith))
    ∙ bind_ok (peek a3) (λ l3. ega_answer (loaded (m.cells a0) (m.cells a1) (m.cells a2) l3)) m
        (peek-in m a3 (omega arith))

loaded-plane :
    (f : ℕ → ℕ) (base p : ℕ)
    → p < 4
    → loaded
        (f base)
        (f (base + ega_plane_stride))
        (f (base + ega_plane_stride * 2))
        (f (base + ega_plane_stride * 3))
        p
      ≡ f (base + ega_plane_stride * p)
unfolding loaded
loaded-plane f base zero h = ap f (omega arith)
loaded-plane f base (suc zero) h = ap f (omega arith)
loaded-plane f base (suc (suc zero)) h = refl
loaded-plane f base (suc (suc (suc zero))) h = refl
loaded-plane f base (suc (suc (suc (suc p)))) h = absurd (omega arith)

either_ok :
    (b : Bool) (x y : ℕ) (n : Memory)
    → (v : ℕ) × (if◌then◌else◌ {A = Result (ℕ × Memory)} b (ok (x, n)) (ok (y, n)) ≡ ok (v, n))
either_ok true x y n = (x, refl)
either_ok false x y n = (y, refl)

ega_answer-ok :
    (m : Memory) (latches : ℕ → ℕ)
    → (v : ℕ) × (ega_answer latches m ≡ ok (v, record m { ega_latches = latches }))
unfolding ega_answer
ega_answer-ok m latches =
    either_ok (truthy (bit_and m.ega_read_mode 1)) _ _ (record m { ega_latches = latches })

-- A read through the aperture succeeds in either read mode, loads the latches from the four planes
-- and changes nothing else.
pub rb-latches :
    (m : Memory) (seg off a : ℕ)
    → Planar m seg off a
    → (v : ℕ) × (latches : ℕ → ℕ) × (rb seg off m ≡ ok (v, record m { ega_latches = latches }))
      × ((p : ℕ) → p < 4 → latches p ≡ m.cells (plane_cell a p))
unfolding loaded
rb-latches m seg off a c =
    let po = a - ega_cpu_aperture in
    let base = ega_aperture + po in
    let latches =
      loaded (m.cells base) (m.cells (base + ega_plane_stride))
        (m.cells (base + ega_plane_stride * 2)) (m.cells (base + ega_plane_stride * 3)) in
    let answer = ega_answer-ok m latches in
    (
      answer.0,
      latches,
      rb-ega_rb m seg off a c ∙ ega_rb-loads m po (omega (arith, c.below, c.room)) ∙ answer.1,
      λ p h. loaded-plane m.cells base p h,
    )

-- A read from one address of the aperture and a write to another in write mode 1 copy the four
-- planes' bytes: each selected plane's cell at the destination holds what the same plane holds at
-- the source, and no other cell changes.
pub rb-wb-copies :
    (m : Memory) (seg off a seg' off' a' : ℕ)
    → Planar m seg off a
    → Planar m seg' off' a'
    → HoldsBytes m
    → m.ega_write_mode % 4 ≡ 1
    → (n : Memory) × ((rb seg off >>= λ v. wb seg' off' v) m ≡ ok (tt, n))
      × PlanesWritten m (λ p. m.cells (plane_cell a p)) a' n.cells
unfolding HoldsBytes
rb-wb-copies m seg off a seg' off' a' c c' bytes mode =
    let read = rb-latches m seg off a c in
    let held = record m { ega_latches = read.1 } in
    let write =
      wb-write_mode_1 held seg' off' a' read.0
        (record {
          real = c'.real;
          planar = c'.planar;
          at = c'.at;
          above = c'.above;
          below = c'.below;
          room = c'.room;
        })
        mode in
    (
      record held { cells = write.0 },
      bind_ok (rb seg off) (λ v. wb seg' off' v) m read.2 ∙ write.1,
      record {
        selected =
            λ p h on. write.2.selected p h on ∙ omega (arith, read.3 p h, bytes (plane_cell a p));
        unselected = write.2.unselected;
        elsewhere = write.2.elsewhere;
      },
    )
