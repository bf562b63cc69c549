-- ===== src/Memory/Access/Safe.antt =====
-- Every real-mode access of dos_re/memory.py succeeds and keeps the memory well formed.
use dos_re.Prelude.{
  ℕ, ◌+◌, ◌-◌, ◌*◌, ◌/◌, ◌^◌, ◌<◌, bit_and, bit_or, Bool, true, false, none, List, [], ◌∷◌, ◌==◌,
  ltb, leb, if◌then◌else◌, Bool-cases, ◌≡◌, sym, ap, subst, arith, inl, inr,
}
use dos_re.Prelude.Bits.{bit_and_mask, or_fields, or_comm}
use dos_re.Memory.State.{
  Memory, HoldsBytes, M, ok, pure, ◌>>=◌, linear, peek, poke, mem_size, bios_rom_base,
  ega_cpu_aperture, ega_plane_window,
}
use dos_re.Memory.State.Safe.{
  WellFormed, Safe, Byte, Done, WellFormed-changed, bind-Safe, pure-Safe, peek-Safe, poke-Safe,
}
use dos_re.Memory.Ega.{ega_wb}
use dos_re.Memory.Access.{notify_write, store_byte, store_word, in_aperture, read_pair, rb, wb, ww}
use dos_re.Memory.Access
use dos_re.Memory.Ega.Safe.{ega_wb-Safe, ega_rb-Safe}
use dos_re.Memory.Access.Plain.{linear_lem}

either-Safe :
    (b : Bool) (m n : Memory)
    → WellFormed m
    → WellFormed n
    → Safe Done (ok (tt, if b then m else n))
unfolding Safe
either-Safe true m n hm hn = (tt, hm)
either-Safe false m n hm hn = (tt, hn)

notify_write-Safe :
    (a : ℕ) (old new : List ℕ) (m : Memory) → WellFormed m → Safe Done (notify_write a old new m)
unfolding notify_write HoldsBytes
notify_write-Safe a old new m w =
    either-Safe m.watched _ m (WellFormed-changed m m.cells m.ega_latches _ w w.bytes w.latch_bytes)
      w

store_byte-Safe :
    (a v : ℕ) (m : Memory) → a < mem_size → Byte v → WellFormed m → Safe Done (store_byte a v m)
unfolding store_byte
store_byte-Safe a v m lt byte w =
    bind-Safe Byte Done (peek a) (λ old. poke a v >>= λ _. notify_write a (old ∷ []) (v ∷ [])) m
      (peek-Safe a m lt w)
      (λ old n _ wn.
        bind-Safe Done Done (poke a v) (λ _. notify_write a (old ∷ []) (v ∷ [])) n
          (poke-Safe a v n lt byte wn) (λ _ k _ wk. notify_write-Safe a (old ∷ []) (v ∷ []) k wk))

store_word-Safe :
    (a lo hi : ℕ) (m : Memory)
    → a + 1 < mem_size
    → Byte lo
    → Byte hi
    → WellFormed m
    → Safe Done (store_word a lo hi m)
unfolding store_word
store_word-Safe a lo hi m lt bl bh w =
    let told = λ (x y : ℕ). notify_write a (x ∷ y ∷ []) (lo ∷ hi ∷ []) in
    bind-Safe Byte Done (peek a)
      (λ x. peek (a + 1) >>= λ y. poke a lo >>= λ _. poke (a + 1) hi >>= λ _. told x y) m
      (peek-Safe a m (omega arith) w)
      (λ x m1 _ w1.
        bind-Safe Byte Done (peek (a + 1))
          (λ y. poke a lo >>= λ _. poke (a + 1) hi >>= λ _. told x y) m1
          (peek-Safe (a + 1) m1 lt w1)
          (λ y m2 _ w2.
            bind-Safe Done Done (poke a lo) (λ _. poke (a + 1) hi >>= λ _. told x y) m2
              (poke-Safe a lo m2 (omega arith) bl w2)
              (λ _ m3 _ w3.
                bind-Safe Done Done (poke (a + 1) hi) (λ _. told x y) m3
                  (poke-Safe (a + 1) hi m3 lt bh w3)
                  (λ _ m4 _ w4. notify_write-Safe a (x ∷ y ∷ []) (lo ∷ hi ∷ []) m4 w4))))

-- `lo | (hi << 8)`
pub Word : ℕ → Type 0
Word v = v < 65536

pair-Word : (lo hi : ℕ) → Byte lo → Byte hi → Word (bit_or lo (hi * 2 ^ 8))
unfolding Word
pair-Word lo hi bl bh = omega (arith, or_comm lo (hi * 2 ^ 8), or_fields 8 hi lo bl)

read_pair-Safe :
    (a b : ℕ) (m : Memory)
    → a < mem_size
    → b < mem_size
    → WellFormed m
    → Safe Word (read_pair a b m)
unfolding read_pair
read_pair-Safe a b m la lb w =
    bind-Safe Byte Word (peek a) (λ lo. peek b >>= λ hi. pure (bit_or lo (hi * 2 ^ 8))) m
      (peek-Safe a m la w)
      (λ lo n bl wn.
        bind-Safe Byte Word (peek b) (λ hi. pure (bit_or lo (hi * 2 ^ 8))) n (peek-Safe b n lb wn)
          (λ hi k bh wk. pure-Safe Word (bit_or lo (hi * 2 ^ 8)) k (pair-Word lo hi bl bh) wk))

-- A well-formed memory is one without selectors.
real_form : (m : Memory) → WellFormed m → m ≡ record m { sel_base = none }
real_form m w = ap (λ sb. record m { sel_base = sb }) w.real

in_aperture_lem :
    (m : Memory) (a : ℕ) → in_aperture m a ≡ true → a - ega_cpu_aperture < ega_plane_window
unfolding in_aperture
in_aperture_lem m a h = ground arith

linear_below : (seg off : ℕ) → linear seg off < 1048576
linear_below seg off = omega (arith, linear_lem seg off)

cut-Byte : (v : ℕ) → Byte (bit_and v 0xff)
cut-Byte v = omega (arith, bit_and_mask 8 v)

abbrev Real : Memory → Memory
Real m = record m { sel_base = none }

rb-Real : (seg off : ℕ) (m : Memory) → WellFormed (Real m) → Safe Byte (rb seg off (Real m))
unfolding rb
rb-Real seg off m w =
    let a = linear seg off in
    elim (Bool-cases (in_aperture (Real m) a)) [
      | inl e ↦ rw e (ega_rb-Safe (a - ega_cpu_aperture) (Real m) (in_aperture_lem (Real m) a e) w)
      | inr e ↦ rw e (peek-Safe a (Real m) (omega (arith, linear_below seg off)) w)
    ]

-- On a well-formed memory every byte read succeeds, gives a byte and leaves the memory well formed.
pub rb-Safe : (seg off : ℕ) (m : Memory) → WellFormed m → Safe Byte (rb seg off m)
rb-Safe seg off m w =
    let form = real_form m w in
    subst (λ n. Safe Byte (rb seg off n)) (sym form) (rb-Real seg off m (subst WellFormed form w))

wb-Real :
    (seg off value : ℕ) (m : Memory) → WellFormed (Real m) → Safe Done (wb seg off value (Real m))
unfolding wb
wb-Real seg off value m w =
    let a = linear seg off in
    elim (Bool-cases (leb bios_rom_base a)) [
      | inl e ↦ rw e (pure-Safe Done tt (Real m) tt w)
      | inr e ↦ rw e (elim (Bool-cases (in_aperture (Real m) a)) [
        | inl f ↦
            rw f
              (ega_wb-Safe (a - ega_cpu_aperture) value (Real m) (in_aperture_lem (Real m) a f) w)
        | inr f ↦ rw f (
            store_byte-Safe a (bit_and value 0xff) (Real m) (omega (arith, linear_below seg off))
              (cut-Byte value) w)
      ])
    ]

-- Every byte write succeeds on a well-formed memory and leaves it well formed.
pub wb-Safe : (seg off value : ℕ) (m : Memory) → WellFormed m → Safe Done (wb seg off value m)
wb-Safe seg off value m w =
    let form = real_form m w in
    subst (λ n. Safe Done (wb seg off value n)) (sym form)
      (wb-Real seg off value m (subst WellFormed form w))

rw-Real : (seg off : ℕ) (m : Memory) → WellFormed (Real m) → Safe Word (Access.rw seg off (Real m))
unfolding Access.rw
rw-Real seg off m w =
    let a = linear seg off in
    let po = a - ega_cpu_aperture in
    let low = linear_below seg off in
    let wide = λ (lo hi : ℕ). bit_or lo (hi * 2 ^ 8) in
    let joined = λ (lo : ℕ) (hi : M ℕ). hi >>= λ h. pure (wide lo h) in
    let next = λ (lo : ℕ).
      if ltb (po + 1) ega_plane_window
      then joined lo (rb seg (bit_and (off + 1) 0xffff))
      else joined lo (peek (bit_and (a + 1) 0xfffff)) in
    let finish = λ (lo : ℕ) (bl : Byte lo) (hi : M ℕ) (n : Memory) (s : Safe Byte (hi n)).
      bind-Safe Byte Word hi (λ h. pure (wide lo h)) n s
        (λ h k bh wk. pure-Safe Word (wide lo h) k (pair-Word lo h bl bh) wk) in
    elim (Bool-cases (in_aperture (Real m) a)) [
      | inl e ↦ rw e (
          bind-Safe Byte Word (rb seg off) next (Real m) (rb-Safe seg off (Real m) w) (λ lo n bl wn.
            elim (Bool-cases (ltb (po + 1) ega_plane_window)) [
              | inl f ↦ rw f (
                  finish lo bl (rb seg (bit_and (off + 1) 0xffff)) n
                    (rb-Safe seg (bit_and (off + 1) 0xffff) n wn))
              | inr f ↦ rw f (
                  finish lo bl (peek (bit_and (a + 1) 0xfffff)) n (
                    peek-Safe (bit_and (a + 1) 0xfffff) n (omega (arith, bit_and_mask 20 (a + 1)))
                      wn))
            ]))
      | inr e ↦ rw e (elim (Bool-cases (a == 0xfffff)) [
        | inl f ↦ rw f (read_pair-Safe a 0 (Real m) (omega arith) (omega arith) w)
        | inr f ↦ rw f (read_pair-Safe a (a + 1) (Real m) (omega arith) (omega arith) w)
      ])
    ]

-- Every word read succeeds on a well-formed memory, gives a word and leaves the memory well formed.
pub rw-Safe : (seg off : ℕ) (m : Memory) → WellFormed m → Safe Word (Access.rw seg off m)
rw-Safe seg off m w =
    let form = real_form m w in
    subst (λ n. Safe Word (Access.rw seg off n)) (sym form)
      (rw-Real seg off m (subst WellFormed form w))

ww-Real :
    (seg off value : ℕ) (m : Memory) → WellFormed (Real m) → Safe Done (ww seg off value (Real m))
unfolding ww
ww-Real seg off value m w =
    let a = linear seg off in
    let po = a - ega_cpu_aperture in
    let lo = bit_and value 0xff in
    let hi = bit_and (value / 2 ^ 8) 0xff in
    let low = linear_below seg off in
    elim (Bool-cases (leb bios_rom_base a)) [
      | inl e ↦ rw e (pure-Safe Done tt (Real m) tt w)
      | inr e ↦ rw e (elim (Bool-cases (in_aperture (Real m) a)) [
        | inl f ↦ rw f (
            bind-Safe Done Done (ega_wb po lo)
              (λ _. if ltb (po + 1) ega_plane_window then ega_wb (po + 1) hi else poke (a + 1) hi)
              (Real m) (ega_wb-Safe po lo (Real m) (in_aperture_lem (Real m) a f) w)
              (λ _ n _ wn. elim (Bool-cases (ltb (po + 1) ega_plane_window)) [
                | inl g ↦ rw g (ega_wb-Safe (po + 1) hi n (ground arith) wn)
                | inr g ↦ rw g (poke-Safe (a + 1) hi n (omega arith) (cut-Byte (value / 2 ^ 8)) wn)
              ]))
        | inr f ↦ rw f (elim (Bool-cases (a == 0xfffff)) [
          | inl g ↦ rw g (
              bind-Safe Done Done (store_byte a lo) (λ _. store_byte 0 hi) (Real m)
                (store_byte-Safe a lo (Real m) (omega arith) (cut-Byte value) w)
                (λ _ n _ wn. store_byte-Safe 0 hi n (omega arith) (cut-Byte (value / 2 ^ 8)) wn))
          | inr g ↦ rw g (
              store_word-Safe a lo hi (Real m) (omega arith) (cut-Byte value)
                (cut-Byte (value / 2 ^ 8)) w)
        ])
      ])
    ]

-- Every word write succeeds on a well-formed memory and leaves it well formed.
pub ww-Safe : (seg off value : ℕ) (m : Memory) → WellFormed m → Safe Done (ww seg off value m)
ww-Safe seg off value m w =
    let form = real_form m w in
    subst (λ n. Safe Done (ww seg off value n)) (sym form)
      (ww-Real seg off value m (subst WellFormed form w))
