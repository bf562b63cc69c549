-- ===== src/Memory/Ega/Safe.antt =====
-- The planar paths of dos_re/memory.py keep the memory well formed.
use dos_re.Prelude.{
  ℕ, ◌+◌, ◌*◌, ◌<◌, bit_and, false, List, [], ◌∷◌, truthy, ◌==◌, leb, if◌then◌else◌, Bool-cases,
  ◌≡◌, ap, arith, inl, inr,
}
use dos_re.Prelude.Bits.{bit, bit_ext, bit-and, bit_and_mask}
use dos_re.Memory.State.{
  Memory, HoldsBytes, ◌>>=◌, peek, poke, ega_aperture, ega_plane_window, ega_plane_stride,
}
use dos_re.Memory.State.Safe.{
  WellFormed, Safe, Byte, Done, WellFormed-changed, bind-Safe, pure-Safe, peek-Safe, poke-Safe,
}
use dos_re.Memory.Ega.{
  planes, selects, rotated, plane_out, each_plane, ega_wb, ega_rb, ega_answer, compare_plane,
}

masked-Byte : (x : ℕ) → bit_and x 0xff < 256
masked-Byte x = omega (arith, bit_and_mask 8 x)

-- A conjunction is no larger than a byte that enters it.
and-Byte : (r y : ℕ) → r < 256 → bit_and r y < 256
and-Byte r y h =
    let own : bit_and r 0xff ≡ r = omega (arith, bit_and_mask 8 r) in
    let cut : bit_and (bit_and r y) 0xff ≡ bit_and r y = bit_ext _ _ (λ k.
      omega
        (arith, bit-and k (bit_and r y) 0xff, bit-and k r y, bit-and k r 0xff, ap (bit k) own)) in
    omega (arith, cut, masked-Byte (bit_and r y))

BelowFour : List ℕ → Type 0
BelowFour [] = Unit
BelowFour (p ∷ ps) = (p < 4) × BelowFour ps

each_plane-Safe :
    (out : ℕ → ℕ) (mask po : ℕ) (m : Memory) (ps : List ℕ)
    → po < ega_plane_window
    → ((p : ℕ) → out p < 256)
    → BelowFour ps
    → WellFormed m
    → Safe Done (each_plane out mask (ega_aperture + po) ps m)
unfolding each_plane BelowFour
each_plane-Safe out mask po m [] lt byte four w = pure-Safe Done tt m tt w
each_plane-Safe out mask po m (p ∷ ps) lt byte four w = elim (Bool-cases (selects mask p)) [
  | inl on ↦ rw on (
      bind-Safe Done Done (poke (ega_aperture + po + ega_plane_stride * p) (out p))
        (λ _. each_plane out mask (ega_aperture + po) ps) m
        (poke-Safe (ega_aperture + po + ega_plane_stride * p) (out p) m (omega (arith, four.0))
          (byte p) w)
        (λ _ n _ wn. each_plane-Safe out mask po n ps lt byte four.1 wn))
  | inr off ↦ rw off (each_plane-Safe out mask po m ps lt byte four.1 w)
]

plane_out-Byte : (m : Memory) (v p : ℕ) → plane_out m v p < 256
unfolding plane_out
plane_out-Byte m v p = masked-Byte _

pub ega_wb-Safe :
    (po value : ℕ) (m : Memory)
    → po < ega_plane_window
    → WellFormed m
    → Safe Done (ega_wb po value m)
unfolding ega_wb BelowFour
ega_wb-Safe po value m lt w =
    let masked = bit_and_mask 2 m.ega_write_mode in
    let modelled : leb 2 (bit_and m.ega_write_mode 0x03) ≡ false = ground (arith, w.mode, masked) in
    let four : BelowFour planes = (omega arith, (omega arith, (omega arith, (omega arith, tt)))) in
    rw modelled (elim (Bool-cases (bit_and m.ega_write_mode 0x03 == 1)) [
      | inl e ↦ rw e (
          each_plane-Safe (λ p. bit_and (m.ega_latches p) 0xff) m.ega_map_mask po m planes lt
            (λ p. omega (arith, bit_and_mask 8 (m.ega_latches p))) four w)
      | inr e ↦ rw e (
          each_plane-Safe (plane_out m (rotated m value)) m.ega_map_mask po m planes lt
            (plane_out-Byte m (rotated m value)) four w)
    ])

compare_plane-Byte :
    (m : Memory) (latches : ℕ → ℕ) (r p : ℕ) → r < 256 → compare_plane m latches r p < 256
unfolding compare_plane
compare_plane-Byte m latches r p h = elim (Bool-cases (selects m.ega_color_dont_care p)) [
  | inl e ↦ rw e (and-Byte r _ h)
  | inr e ↦ rw e h
]

ega_answer-Safe :
    (l : ℕ → ℕ) (m : Memory) → ((p : ℕ) → l p < 256) → WellFormed m → Safe Byte (ega_answer l m)
unfolding ega_answer Safe HoldsBytes
ega_answer-Safe l m bytes w =
    let next = WellFormed-changed m m.cells l m.log w w.bytes bytes in
    elim (Bool-cases (truthy (bit_and m.ega_read_mode 1))) [
      | inl e ↦ rw e (
        compare_plane-Byte m l _ 3 (
            compare_plane-Byte m l _ 2
              (compare_plane-Byte m l _ 1 (compare_plane-Byte m l 0xff 0 (omega arith)))),
        next,
      )
      | inr e ↦ rw e (bytes (bit_and m.ega_read_plane 0x03), next)
    ]

pub ega_rb-Safe :
    (po : ℕ) (m : Memory) → po < ega_plane_window → WellFormed m → Safe Byte (ega_rb po m)
unfolding ega_rb
ega_rb-Safe po m lt w =
    let a0 = ega_aperture + po in
    let a1 = a0 + ega_plane_stride in
    let a2 = a0 + ega_plane_stride * 2 in
    let a3 = a0 + ega_plane_stride * 3 in
    let l = λ (l0 l1 l2 l3 p : ℕ).
      if p == 0 then l0 else if p == 1 then l1 else if p == 2 then l2 else l3 in
    let after2 = λ (l0 l1 l2 : ℕ). peek a3 >>= λ l3. ega_answer (l l0 l1 l2 l3) in
    let after1 = λ (l0 l1 : ℕ). peek a2 >>= after2 l0 l1 in
    let after0 = λ (l0 : ℕ). peek a1 >>= after1 l0 in
    bind-Safe Byte Byte (peek a0) after0 m (peek-Safe a0 m (omega arith) w) (λ l0 m1 b0 w1.
      bind-Safe Byte Byte (peek a1) (after1 l0) m1 (peek-Safe a1 m1 (omega arith) w1)
        (λ l1 m2 b1 w2.
          bind-Safe Byte Byte (peek a2) (after2 l0 l1) m2 (peek-Safe a2 m2 (omega arith) w2)
            (λ l2 m3 b2 w3.
              bind-Safe Byte Byte (peek a3) (λ l3. ega_answer (l l0 l1 l2 l3)) m3
                (peek-Safe a3 m3 (omega arith) w3)
                (λ l3 m4 b3 w4.
                  ega_answer-Safe (l l0 l1 l2 l3) m4 (λ p. ground (arith, b0, b1, b2, b3)) w4))))
