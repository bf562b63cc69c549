-- ===== src/Cpu/Machine/Address/Signed.antt =====
-- The signed displacements of dos_re/cpu.py: `sign8`, `sign16`, and their sum with a base.
use dos_re.Prelude.{
  ℕ, ◌+◌, ◌-◌, ◌%◌, ◌<◌, ◌≤◌, bit_and, bit_xor, true, false, truthy, leb, Bool-cases, ◌≡◌, ap, ap₂,
  ◌∙◌, arith, inl, inr,
}
use dos_re.Prelude.Int.{pos, sub_ℕ, and_mask, ◌+ℤ◌}
use dos_re.Prelude.Bits.{bit_and_mask, mask_xor}
use dos_re.Cpu.Alu.Word.{truthy_sign}
use dos_re.Cpu.Machine.Address.{sign8, sign16, displaced}

-- `(base - k) & 0xFFFF`, for a k of at most 2^16.
pub lowered : (base k : ℕ) → k ≤ 65536 → and_mask (sub_ℕ base k) 0xffff ≡ (base + 65536 - k) % 65536
lowered base k h = elim (Bool-cases (leb k base)) [
  | inl e ↦ rw e (bit_and_mask 16 (base - k) ∙ ground arith)
  | inr e ↦ rw e (
      ap (bit_xor 0xffff) (bit_and_mask 16 (k - base - 1))
      ∙ mask_xor 16 ((k - base - 1) % 65536) (omega arith)
      ∙ ground arith)
]

negative :
    (base d w : ℕ)
    → d < w
    → w ≤ 65536
    → displaced base (sub_ℕ d w) ≡ (base + d + (65536 - w)) % 65536
unfolding displaced ◌+ℤ◌
negative base d w lt h =
    let under : leb w d ≡ false = ground arith in
    rw under (
      ap (λ t. and_mask t 0xffff) (ap₂ sub_ℕ (omega arith) (omega arith))
      ∙ lowered base (w - d) (omega arith)
      ∙ ap (λ t. t % 65536) (omega arith))

pub positive : (base d : ℕ) → displaced base (pos d) ≡ (base + d) % 65536
unfolding displaced ◌+ℤ◌
positive base d =
    let above : leb 0 (base + d) ≡ true = ground arith in
    rw above (bit_and_mask 16 (base + d - 0) ∙ omega arith)

-- A byte displacement counts from -128 to 127 and a word displacement from -32768 to 32767; either
-- is added to the base registers modulo 2^16.
pub displaced-signed :
    (base d : ℕ)
    → d < 65536
    → (displaced base (sign16 d) ≡ (base + d) % 65536)
      × (d < 128 → displaced base (sign8 d) ≡ (base + d) % 65536)
      × (128 ≤ d → d < 256 → displaced base (sign8 d) ≡ (base + 65536 - (256 - d)) % 65536)
unfolding sign8 sign16
displaced-signed base d h =
    let word : truthy (bit_and d 0x8000) ≡ leb 32768 d = truthy_sign 15 d h in
    (
      elim (Bool-cases (leb 32768 d)) [
        | inl e ↦ rw (word, e) (negative base d 65536 h (omega arith) ∙ omega arith)
        | inr e ↦ rw (word, e) (positive base d)
      ],
      λ low.
          let plus : truthy (bit_and d 0x80) ≡ false =
            truthy_sign 7 d (omega arith) ∙ ground arith in
          rw plus (positive base d),
      λ high byte.
          let minus : truthy (bit_and d 0x80) ≡ true = truthy_sign 7 d byte ∙ ground arith in
          rw minus (negative base d 256 byte (omega arith) ∙ omega arith),
    )
