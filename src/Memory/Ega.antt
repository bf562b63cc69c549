-- ===== src/Memory/Ega.antt =====
-- The planar EGA paths of dos_re/memory.py: `_ega_wb`, and the planar branch of `rb`.
pub mod Pixel
pub mod Planes
pub mod Safe
use dos_re.Prelude.{
  ℕ, zero, suc, ◌+◌, ◌-◌, ◌*◌, ◌/◌, ◌%◌, ◌^◌, bit_and, bit_or, bit_xor, Bool, true, false, List, [],
  ◌∷◌, ◌==◌, ltb, leb, truthy, if◌then◌else◌,
}
use dos_re.Prelude.Bits.{bit_clear}
use dos_re.Memory.State.{
  Memory, M, Result, ok, err, pure, fail, ◌>>=◌, ◌>>◌, peek, poke, ega_aperture, ega_plane_stride,
  unsupported_write_mode,
}

-- The four hardware planes.
abbrev pub planes : List ℕ
planes = 0 ∷ 1 ∷ 2 ∷ 3 ∷ []

-- `m & (1 << plane)`
abbrev pub selects : ℕ → ℕ → Bool
selects mask plane = truthy (bit_and mask (2 ^ plane))

-- The rotated CPU byte of write mode 0.
unfoldable pub rotated : Memory → ℕ → ℕ
rotated m value =
    let v = bit_and value 0xff in
    let rot = bit_and m.ega_data_rotate 0x07 in
    if truthy rot then bit_and (bit_or (v / 2 ^ rot) (bit_and (v * 2 ^ (8 - rot)) 0xff)) 0xff else v

-- The byte that one plane receives in write mode 0.
unfoldable pub plane_out : Memory → ℕ → ℕ → ℕ
plane_out m v plane =
    let op = bit_and m.ega_logical_op 0x03 in
    let esr = bit_and m.ega_enable_set_reset 0x0f in
    let sr = bit_and m.ega_set_reset 0x0f in
    let bitmask = bit_and m.ega_bit_mask 0xff in
    let latch = bit_and (m.ega_latches plane) 0xff in
    let src =
      if selects esr plane then if truthy (bit_and (sr / 2 ^ plane) 1) then 0xff else 0x00 else v in
    let aluout =
      if op == 0
      then src
      else if op == 1
      then bit_and src latch
      else if op == 2
      then bit_or src latch
      else bit_xor src latch in
    let out = bit_or (bit_and aluout bitmask) (bit_clear latch bitmask) in bit_and out 0xff

-- `for plane in range(4): if m & (1 << plane): d[base + stride * plane] = …`
unfoldable pub each_plane : (ℕ → ℕ) → ℕ → ℕ → List ℕ → M (Unit {0})
each_plane out mask base [] = pure tt
each_plane out mask base (p ∷ ps) =
    if selects mask p
    then poke (base + ega_plane_stride * p) (out p) >> each_plane out mask base ps
    else each_plane out mask base ps

unfoldable pub ega_wb : ℕ → ℕ → M (Unit {0})
ega_wb plane_off value m =
    let mask = m.ega_map_mask in
    let base = ega_aperture + plane_off in
    let mode = bit_and m.ega_write_mode 0x03 in
    if leb 2 mode
    then err unsupported_write_mode
    else if mode == 1
    then each_plane (λ p. bit_and (m.ega_latches p) 0xff) mask base planes m
    else each_plane (plane_out m (rotated m value)) mask base planes m

-- One plane's part of the colour compare of read mode 1.
unfoldable pub compare_plane : Memory → (ℕ → ℕ) → ℕ → ℕ → ℕ
compare_plane m latches result p =
    if selects m.ega_color_dont_care p
    then (let pb = latches p in
        bit_and result (
          if truthy (bit_and (m.ega_color_compare / 2 ^ p) 1)
          then pb
          else bit_xor 0xff (bit_and pb 0xff)))
    else result

-- What the read returns once the latches are loaded.
unfoldable pub ega_answer : (ℕ → ℕ) → M ℕ
unfolding compare_plane
ega_answer latches m =
    let loaded = record m { ega_latches = latches } in
    let c0 = compare_plane m latches 0xff 0 in
    let c1 = compare_plane m latches c0 1 in
    let c2 = compare_plane m latches c1 2 in
    if truthy (bit_and m.ega_read_mode 1)
    then ok (compare_plane m latches c2 3, loaded)
    else ok (latches (bit_and m.ega_read_plane 0x03), loaded)

-- The planar branch of `rb`: the four latches are loaded, then one plane or the comparison is read.
unfoldable pub ega_rb : ℕ → M ℕ
ega_rb po = do
  let base = ega_aperture + po
  l0 ← peek base
  l1 ← peek (base + ega_plane_stride)
  l2 ← peek (base + ega_plane_stride * 2)
  l3 ← peek (base + ega_plane_stride * 3)
  ega_answer (λ p. if p == 0 then l0 else if p == 1 then l1 else if p == 2 then l2 else l3)
