-- ===== src/Memory/Access/Word.antt =====
-- Word accesses of dos_re/memory.py to ordinary RAM: `rw` and `ww`.
use dos_re.Prelude.{
  ◌⊎◌, ℕ, ◌+◌, ◌*◌, ◌/◌, ◌%◌, ◌^◌, ◌<◌, bit_and, bit_or, [], ◌∷◌, false, none, leb, ◌==◌, ◌≡◌, ◌≢◌,
  ap, ap₂, ◌∙◌, arith,
}
use dos_re.Prelude.Bits.{bit_and_mask, or_fields, or_comm}
use dos_re.Memory.State.{Memory, ok, ◌>>=◌, pure, peek, poke, update, linear, bios_rom_base}
use dos_re.Memory.State.Steps.{bind_ok, peek-in, poke-in, update-other, update-same}
use dos_re.Memory.Access.{notify_write, store_word, in_aperture, read_pair, ww}
use dos_re.Memory.Access
use dos_re.Memory.Access.Plain.{notify_write-quiet}

store_word-quiet :
    (m : Memory) (a lo hi : ℕ)
    → m.watched ≡ false
    → a + 1 < m.size
    → store_word a lo hi m ≡ ok (tt, record m { cells = update (update m.cells a lo) (a + 1) hi })
unfolding store_word
store_word-quiet m a lo hi quiet room =
    let x = m.cells a in
    let y = m.cells (a + 1) in
    let told = λ (x y : ℕ). notify_write a (x ∷ y ∷ []) (lo ∷ hi ∷ []) in
    let first = record m { cells = update m.cells a lo } in
    let second = record m { cells = update (update m.cells a lo) (a + 1) hi } in
    bind_ok (peek a)
      (λ x. peek (a + 1) >>= λ y. poke a lo >>= λ _. poke (a + 1) hi >>= λ _. told x y) m
      (peek-in m a (omega arith))
    ∙ bind_ok (peek (a + 1)) (λ y. poke a lo >>= λ _. poke (a + 1) hi >>= λ _. told x y) m
        (peek-in m (a + 1) room)
    ∙ bind_ok (poke a lo) (λ _. poke (a + 1) hi >>= λ _. told x y) m (poke-in m a lo (omega arith))
    ∙ bind_ok (poke (a + 1) hi) (λ _. told x y) first (poke-in first (a + 1) hi room)
    ∙ notify_write-quiet second a (x ∷ y ∷ []) (lo ∷ hi ∷ []) quiet

-- Real mode, nobody watching, and a word at a whose bytes are outside the aperture.
pub record PlainWord (m : Memory) (seg off a : ℕ) : Type 0 where
  pub real : m.sel_base ≡ none
  pub quiet : m.watched ≡ false
  pub at : linear seg off ≡ a
  pub writable : a < bios_rom_base
  pub room : a + 1 < m.size
  pub outside : in_aperture m a ≡ false

pub ww-plain :
    (m : Memory) (seg off a value : ℕ)
    → PlainWord m seg off a
    → ww seg off value m
      ≡ ok (
        tt,
        record m {
          cells =
              update (update m.cells a (bit_and value 0xff)) (a + 1) (bit_and (value / 2 ^ 8) 0xff);
        },
      )
unfolding ww
ww-plain m seg off a value c =
    let low : leb bios_rom_base a ≡ false = ground (arith, c.writable) in
    let inner : (a == 0xfffff) ≡ false = ground (arith, c.writable) in
    rw (c.real, c.at, low, c.outside, inner)
      (store_word-quiet (record m { sel_base = none }) a (bit_and value 0xff)
        (bit_and (value / 2 ^ 8) 0xff) c.quiet c.room)

read_pair-in :
    (m : Memory) (a b : ℕ)
    → a < m.size
    → b < m.size
    → read_pair a b m ≡ ok (bit_or (m.cells a) (m.cells b * 2 ^ 8), m)
unfolding read_pair
read_pair-in m a b la lb =
    bind_ok (peek a) (λ lo. peek b >>= λ hi. pure (bit_or lo (hi * 2 ^ 8))) m (peek-in m a la)
    ∙ bind_ok (peek b) (λ hi. pure (bit_or (m.cells a) (hi * 2 ^ 8))) m (peek-in m b lb)

-- A word that may be read, in the ROM too.
pub rw-readable :
    (m : Memory) (seg off a : ℕ)
    → m.sel_base ≡ none
    → linear seg off ≡ a
    → a < 0xfffff
    → a + 1 < m.size
    → in_aperture m a ≡ false
    → Access.rw seg off m ≡ ok (bit_or (m.cells a) (m.cells (a + 1) * 2 ^ 8), m)
unfolding Access.rw
rw-readable m seg off a real at low room outside =
    let inner : (a == 0xfffff) ≡ false = ground (arith, low) in
    rw (real, at, outside, inner)
      (read_pair-in (record m { sel_base = none }) a (a + 1) (omega (arith, room)) room)

rw-plain :
    (m : Memory) (seg off a : ℕ)
    → PlainWord m seg off a
    → Access.rw seg off m ≡ ok (bit_or (m.cells a) (m.cells (a + 1) * 2 ^ 8), m)
rw-plain m seg off a c =
    rw-readable m seg off a c.real c.at (omega (arith, c.writable)) c.room c.outside

halves : (v : ℕ) → bit_or (bit_and v 0xff) (bit_and (v / 2 ^ 8) 0xff * 2 ^ 8) ≡ v % 65536
halves v = omega (
  arith,
  bit_and_mask 8 v,
  bit_and_mask 8 (v / 2 ^ 8),
  or_comm (bit_and v 0xff) (bit_and (v / 2 ^ 8) 0xff * 2 ^ 8),
  or_fields 8 (bit_and (v / 2 ^ 8) 0xff) (bit_and v 0xff) (omega (arith, bit_and_mask 8 v)),
)

-- The word that stands at a.
unfoldable pub HoldsWord : Memory → ℕ → ℕ → Type 0
HoldsWord m a v = bit_or (m.cells a) (m.cells (a + 1) * 2 ^ 8) ≡ v

pub PlainWord-stored :
    {m : Memory} {seg off a : ℕ} (cells : ℕ → ℕ)
    → PlainWord m seg off a
    → PlainWord (record m { cells = cells }) seg off a
unfolding in_aperture
PlainWord-stored cells c = record {
  real = c.real;
  quiet = c.quiet;
  at = c.at;
  writable = c.writable;
  room = c.room;
  outside = c.outside;
}

pub rw-HoldsWord :
    (m : Memory) (seg off a v : ℕ)
    → PlainWord m seg off a
    → HoldsWord m a v
    → Access.rw seg off m ≡ ok (v, m)
unfolding HoldsWord
rw-HoldsWord m seg off a v c h = rw-plain m seg off a c ∙ ap (λ w. ok (w, m)) h

-- A word apart from the one that a store changes is kept.
pub HoldsWord-apart :
    (m n : Memory) (a b v : ℕ)
    → ((x : ℕ) → x ≢ a → x ≢ a + 1 → n.cells x ≡ m.cells x)
    → (a + 1 < b) ⊎ (b + 1 < a)
    → HoldsWord m b v
    → HoldsWord n b v
unfolding HoldsWord
HoldsWord-apart m n a b v frame apart h =
    ap₂ (λ l t. bit_or l (t * 2 ^ 8)) (frame b (λ e. ground arith) (λ e. ground arith))
      (frame (b + 1) (λ e. ground arith) (λ e. ground arith))
    ∙ h

-- A word store to ordinary RAM leaves the word, and changes no cell but its two.
pub ww-HoldsWord :
    (m : Memory) (seg off a value : ℕ)
    → PlainWord m seg off a
    → (cells : ℕ → ℕ) × (ww seg off value m ≡ ok (tt, record m { cells = cells }))
      × HoldsWord (record m { cells = cells }) a (value % 65536)
      × ((x : ℕ) → x ≢ a → x ≢ a + 1 → cells x ≡ m.cells x)
unfolding HoldsWord
ww-HoldsWord m seg off a value c =
    let lo = bit_and value 0xff in
    let hi = bit_and (value / 2 ^ 8) 0xff in
    let one = update m.cells a lo in
    let two = update one (a + 1) hi in
    let low : two a ≡ lo =
      update-other one (a + 1) hi a (λ h. omega arith) ∙ update-same m.cells a lo in
    (
      two,
      ww-plain m seg off a value c,
      ap₂ (λ l h. bit_or l (h * 2 ^ 8)) low (update-same one (a + 1) hi) ∙ halves value,
      λ x na nb. update-other one (a + 1) hi x nb ∙ update-other m.cells a lo x na,
    )

-- A word written to ordinary RAM is read back, cut to 16 bits, and no cell but its two changes.
-- The word's first cell, but not its second, has to lie below the BIOS ROM.
pub rw-ww :
    (m : Memory) (seg off a value : ℕ)
    → PlainWord m seg off a
    → (n : Memory) × (ww seg off value m ≡ ok (tt, n))
      × (Access.rw seg off n ≡ ok (value % 65536, n))
      × ((x : ℕ) → x ≢ a → x ≢ a + 1 → n.cells x ≡ m.cells x)
rw-ww m seg off a value c =
    let stored = ww-HoldsWord m seg off a value c in
    let n = record m { cells = stored.0 } in
    (
      n,
      stored.1,
      rw-HoldsWord n seg off a (value % 65536) (PlainWord-stored stored.0 c) stored.2,
      stored.3,
    )
