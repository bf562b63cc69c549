-- ===== src/Memory/Access/Plain.antt =====
-- The real-mode accesses of dos_re/memory.py to ordinary RAM: outside the ROM and, where planar
-- emulation is on, outside the EGA aperture, with nobody watching.
use dos_re.Prelude.{
  ℕ, ◌+◌, ◌*◌, ◌%◌, ◌<◌, bit_and, true, false, none, ltb, leb, ◌≡◌, refl, ap, ◌∙◌, arith, List, [],
  ◌∷◌, if◌then◌else◌, some,
}
use dos_re.Prelude.Bits.{bit_and_mask}
use dos_re.Memory.State.{Memory, ok, ◌>>=◌, peek, poke, update, linear, bios_rom_base}
use dos_re.Memory.State.Steps.{bind_ok, peek-in, poke-in}
use dos_re.Memory.Access.{notify_write, store_byte, in_aperture, rb, wb}

pub linear_lem : (seg off : ℕ) → linear seg off ≡ (seg % 65536 * 16 + off % 65536) % 1048576
unfolding linear
linear_lem seg off = omega (
  arith,
  bit_and_mask 20 (bit_and seg 0xffff * 16 + bit_and off 0xffff),
  bit_and_mask 16 seg,
  bit_and_mask 16 off,
)

-- Within a segment, and below the 1 MB limit, the k-th byte stands k cells further.
pub linear-next :
    (seg off k : ℕ)
    → off % 65536 + k < 65536
    → linear seg (off % 65536) + k < 1048576
    → linear seg (bit_and (off % 65536 + k) 0xffff) ≡ linear seg (off % 65536) + k
linear-next seg off k h top = omega (
  arith,
  linear_lem seg (bit_and (off % 65536 + k) 0xffff),
  bit_and_mask 16 (off % 65536 + k),
  linear_lem seg (off % 65536),
)

pub rb-plain :
    (m : Memory) (seg off a : ℕ)
    → m.sel_base ≡ none
    → linear seg off ≡ a
    → a < m.size
    → in_aperture m a ≡ false
    → rb seg off m ≡ ok (m.cells a, m)
unfolding rb peek
rb-plain m seg off a real at room out =
    let small : ltb a m.size ≡ true = ground arith in rw (real, at, out, small) refl

pub notify_write-quiet :
    (m : Memory) (a : ℕ) (old new : List ℕ)
    → m.watched ≡ false
    → notify_write a old new m ≡ ok (tt, m)
unfolding notify_write
notify_write-quiet m a old new quiet =
    ap
      (λ b. ok (
        tt,
        (if b
            then record m {
              log =
                  record {
                    addr = elim m.sel_base [ none ↦ bit_and a 0xfffff | some _ ↦ a ];
                    old = old;
                    new = new;
                  }
                  ∷ m.log;
            }
            else m),
      ))
      quiet

pub store_byte-quiet :
    (m : Memory) (a v : ℕ)
    → m.watched ≡ false
    → a < m.size
    → store_byte a v m ≡ ok (tt, record m { cells = update m.cells a v })
unfolding store_byte
store_byte-quiet m a v quiet room =
    bind_ok (peek a) (λ old. poke a v >>= λ _. notify_write a (old ∷ []) (v ∷ [])) m
      (peek-in m a room)
    ∙ bind_ok (poke a v) (λ _. notify_write a (m.cells a ∷ []) (v ∷ [])) m (poke-in m a v room)
    ∙ notify_write-quiet (record m { cells = update m.cells a v }) a (m.cells a ∷ []) (v ∷ []) quiet

-- A byte store to ordinary RAM, of a value that is cut to a byte.
pub wb-masked :
    (m : Memory) (seg off a v : ℕ)
    → m.sel_base ≡ none
    → m.watched ≡ false
    → linear seg off ≡ a
    → a < bios_rom_base
    → a < m.size
    → in_aperture m a ≡ false
    → wb seg off v m ≡ ok (tt, record m { cells = update m.cells a (bit_and v 0xff) })
unfolding wb
wb-masked m seg off a v real quiet at ram room out =
    let low : leb bios_rom_base a ≡ false = ground arith in
    rw (real, at, low, out)
      (store_byte-quiet (record m { sel_base = none }) a (bit_and v 0xff) quiet room)

pub wb-plain :
    (m : Memory) (seg off a v : ℕ)
    → m.sel_base ≡ none
    → m.watched ≡ false
    → linear seg off ≡ a
    → a < bios_rom_base
    → a < m.size
    → in_aperture m a ≡ false
    → v < 256
    → wb seg off v m ≡ ok (tt, record m { cells = update m.cells a v })
wb-plain m seg off a v real quiet at ram room out byte =
    let same : bit_and v 0xff ≡ v = omega (arith, bit_and_mask 8 v) in
    wb-masked m seg off a v real quiet at ram room out
    ∙ ap (λ t. ok (tt, record m { cells = update m.cells a t })) same
