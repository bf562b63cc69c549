-- ===== src/Memory/Ega/Pixel.antt =====
-- One pixel of one plane under write mode 0 of the EGA: what `_ega_wb` of dos_re/memory.py computes
-- with bytes, said bit by bit from the registers.
use dos_re.Prelude.{
  ℕ, zero, suc, ◌+◌, ◌-◌, ◌*◌, ◌/◌, ◌%◌, ◌^◌, ◌<◌, min, max, bit_and, bit_or, bit_xor, ◌==◌, truthy,
  if◌then◌else◌, all_below, all_below_sound, ==_iff, Bool-cases, ◌≡◌, refl, sym, ap, ap₂, ◌∙◌,
  arith, inl, inr,
}
use native.Mathlib.Nat.{one-le-pow, div-div-eq-div-mul, pow-suc}
use dos_re.Prelude.Bits.{
  bit, bit_clear, bit-le, bit-and, bit-or, bit-xor, bit-clear, bit-zero, bit_and_pow, bit_and_mask,
}
use dos_re.Memory.State.{Memory}
use dos_re.Memory.Ega.{selects, rotated, plane_out}

-- The pixel that a write offers: the plane's set/reset bit where the plane is enabled for it, or
-- the bit of the CPU's byte that the rotation brings there.
pub source_bit : Memory → ℕ → ℕ → ℕ → ℕ
source_bit m value p k =
    if bit p m.ega_enable_set_reset == 1
    then bit p m.ega_set_reset
    else bit ((k + m.ega_data_rotate) % 8) value

pub alu_bit : ℕ → ℕ → ℕ → ℕ
alu_bit op s l =
    if op == 0 then s else if op == 1 then min s l else if op == 2 then max s l else (s + l) % 2

-- The pixel that is stored: the latch's where the bit mask protects it.
pub pixel : Memory → ℕ → ℕ → ℕ → ℕ
pixel m value p k =
    let latch = bit k (m.ega_latches p) in
    if bit k m.ega_bit_mask == 1
    then alu_bit (m.ega_logical_op % 4) (source_bit m value p k) latch
    else latch

ones : (k : ℕ) → k < 8 → bit k 0xff ≡ 1
unfolding bit all_below
ones k h = (==_iff (bit k 0xff) 1).0 (all_below_sound 8 (λ k. bit k 0xff == 1) k refl h)

nibble_ones : (k : ℕ) → k < 4 → bit k 0x0f ≡ 1
unfolding bit all_below
nibble_ones k h = (==_iff (bit k 0x0f) 1).0 (all_below_sound 4 (λ k. bit k 0x0f == 1) k refl h)

bit-byte : (k x : ℕ) → k < 8 → bit k (bit_and x 0xff) ≡ bit k x
bit-byte k x h = omega (arith, bit-and k x 0xff, ones k h, bit-le k x)

bit-nibble : (k x : ℕ) → k < 4 → bit k (bit_and x 0x0f) ≡ bit k x
bit-nibble k x h = omega (arith, bit-and k x 0x0f, nibble_ones k h, bit-le k x)

bit-div : (k x : ℕ) → bit k x ≡ (x / 2 ^ k) % 2
unfolding bit
bit-div zero x = omega arith
bit-div (suc k) x =
    bit-div k (x / 2)
    ∙ ap (λ q. q % 2)
        (div-div-eq-div-mul x 2 (2 ^ k) ∙ ap (λ t. x / t) (omega (arith, pow-suc 2 k)))

pub selects-bit : (x p : ℕ) → selects x p ≡ (bit p x == 1)
selects-bit x p = rw (bit_and_pow p x) (ground (arith, one-le-pow p 2, bit-le p x))

-- Rotation of every byte by every amount.
rotate_byte : ℕ → ℕ → ℕ
rotate_byte r v =
    if truthy r then bit_and (bit_or (v / 2 ^ r) (bit_and (v * 2 ^ (8 - r)) 0xff)) 0xff else v

rotations : (r k v : ℕ) → r < 8 → k < 8 → v < 256 → bit k (rotate_byte r v) ≡ bit ((k + r) % 8) v
unfolding bit all_below rotate_byte
rotations r k v hr hk hv =
    let by_value = λ (r k v : ℕ). bit k (rotate_byte r v) == bit ((k + r) % 8) v in
    let by_bit = λ (r k : ℕ). all_below 256 (by_value r k) in
    (==_iff (bit k (rotate_byte r v)) (bit ((k + r) % 8) v)).0 (
      all_below_sound 256 (by_value r k) v
        (all_below_sound 8 (by_bit r) k (all_below_sound 8 (λ r. all_below 8 (by_bit r)) r refl hr)
          hk)
        hv)

rotated-bit :
    (m : Memory) (value k : ℕ)
    → k < 8
    → bit k (rotated m value) ≡ bit ((k + m.ega_data_rotate) % 8) value
unfolding rotated rotate_byte
rotated-bit m value k h =
    let rot = m.ega_data_rotate in
    let low : bit_and rot 0x07 ≡ rot % 8 = bit_and_mask 3 rot in
    let byte : bit_and value 0xff ≡ value % 256 = bit_and_mask 8 value in
    rotations (bit_and rot 7) k (bit_and value 0xff) (omega arith) h (omega arith)
    ∙ ap (λ j. bit j (bit_and value 0xff)) (rw low (omega arith))
    ∙ bit-byte ((k + rot) % 8) value (omega arith)

-- The byte that a plane is offered, before the ALU.
source_byte : Memory → ℕ → ℕ → ℕ
source_byte m v p =
    let esr = bit_and m.ega_enable_set_reset 0x0f in
    let sr = bit_and m.ega_set_reset 0x0f in
    if selects esr p then if truthy (bit_and (sr / 2 ^ p) 1) then 0xff else 0x00 else v

source_byte-bit :
    (m : Memory) (value p k : ℕ)
    → p < 4
    → k < 8
    → bit k (source_byte m (rotated m value) p) ≡ source_bit m value p k
unfolding source_byte source_bit
source_byte-bit m value p k hp hk =
    let enabled : selects (bit_and m.ega_enable_set_reset 0x0f) p
        ≡ (bit p m.ega_enable_set_reset == 1) =
      selects-bit (bit_and m.ega_enable_set_reset 0x0f) p
      ∙ ap (λ b. b == 1) (bit-nibble p m.ega_enable_set_reset hp) in
    let constant : bit_and (bit_and m.ega_set_reset 0x0f / 2 ^ p) 1 ≡ bit p m.ega_set_reset =
      bit_and_mask 1 (bit_and m.ega_set_reset 0x0f / 2 ^ p)
      ∙ sym (bit-div p (bit_and m.ega_set_reset 0x0f))
      ∙ bit-nibble p m.ega_set_reset hp in
    rw enabled (elim (Bool-cases (bit p m.ega_enable_set_reset == 1)) [
      | inl on ↦
          rw (on, constant)
            (elim (Bool-cases (truthy (bit p m.ega_set_reset))) [
              | inl up ↦ rw up (ones k hk ∙ ground (arith, bit-le p m.ega_set_reset))
              | inr down ↦ rw down (bit-zero k ∙ ground arith)
            ])
      | inr off ↦ rw off (rotated-bit m value k hk)
    ])

alu_byte : ℕ → ℕ → ℕ → ℕ
alu_byte op src latch =
    if op == 0
    then src
    else if op == 1
    then bit_and src latch
    else if op == 2
    then bit_or src latch
    else bit_xor src latch

alu_byte-bit : (k op s l : ℕ) → bit k (alu_byte op s l) ≡ alu_bit op (bit k s) (bit k l)
unfolding alu_byte alu_bit
alu_byte-bit k op s l = elim (Bool-cases (op == 0)) [
  | inl e ↦ rw e refl
  | inr e ↦ rw e (elim (Bool-cases (op == 1)) [
    | inl f ↦ rw f (bit-and k s l)
    | inr f ↦
        rw f (elim (Bool-cases (op == 2)) [
          | inl g ↦ rw g (bit-or k s l)
          | inr g ↦ rw g (bit-xor k s l)
        ])
  ])
]

masked-bit :
    (k out mask latch : ℕ)
    → k < 8
    → bit k (
        bit_and
          (bit_or (bit_and out (bit_and mask 0xff)) (bit_clear latch (bit_and mask 0xff)))
          0xff)
      ≡ (if bit k mask == 1 then bit k out else bit k latch)
masked-bit k out mask latch h =
    let byte = bit_and mask 0xff in
    let kept = bit-byte k (bit_or (bit_and out byte) (bit_clear latch byte)) h in
    let sum = bit-or k (bit_and out byte) (bit_clear latch byte) in
    elim (Bool-cases (bit k mask == 1)) [
      | inl on ↦ rw on (
          ground (
            arith,
            kept,
            sum,
            bit-and k out byte,
            bit-clear k latch byte,
            bit-byte k mask h,
            bit-le k out,
            bit-le k latch,
            on,
          ))
      | inr off ↦ rw off (
          ground (
            arith,
            kept,
            sum,
            bit-and k out byte,
            bit-clear k latch byte,
            bit-byte k mask h,
            bit-le k out,
            bit-le k latch,
            bit-le k mask,
            off,
          ))
    ]

-- In write mode 0, every pixel of the byte that a plane receives is the one the registers say.
pub plane_out-pixel :
    (m : Memory) (value p k : ℕ)
    → p < 4
    → k < 8
    → bit k (plane_out m (rotated m value) p) ≡ pixel m value p k
unfolding plane_out pixel alu_byte source_byte
plane_out-pixel m value p k hp hk =
    let latch = bit_and (m.ega_latches p) 0xff in
    let op = bit_and m.ega_logical_op 0x03 in
    let src = source_byte m (rotated m value) p in
    let shown : bit k latch ≡ bit k (m.ega_latches p) = bit-byte k (m.ega_latches p) hk in
    masked-bit k (alu_byte op src latch) m.ega_bit_mask latch hk
    ∙ ap₂ (λ t l. if bit k m.ega_bit_mask == 1 then t else l)
        (alu_byte-bit k op src latch
          ∙ ap₂ (λ o t. alu_bit o t (bit k latch)) (bit_and_mask 2 m.ega_logical_op)
              (source_byte-bit m value p k hp hk)
          ∙ ap (alu_bit (m.ega_logical_op % 4) (source_bit m value p k)) shown)
        shown
