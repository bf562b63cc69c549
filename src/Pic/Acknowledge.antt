-- ===== src/Pic/Acknowledge.antt =====
-- Which request `PIC8259.acknowledge` of dos_re/pic.py delivers.
use dos_re.Prelude.{
  ℕ, ◌-◌, ◌^◌, ◌<◌, min, bit_or, ◌≡◌, ◌≢◌, refl, ◌∙◌, ap, arith, ◌⊎◌, inl, inr, Option, some, none,
  true, false, ◌==◌, all_below, all_below_sound, ==_iff, truthy,
}
use native.Mathlib.Decide.{ℕ_discrete}
use dos_re.Prelude.Bits.{
  bit, bit-le, bit-and, bit-clear, bit_and_mask, bit-zero, zero-or, bit_clear,
}
use dos_re.Pic.{Pic8259, acknowledge, pending_of}
use dos_re.Pic.Lowest.{lowest_index, lowest_lem}

-- Line `k` has a request that the mask lets through.
pub record IsPending (k : ℕ) (p : Pic8259) : Type 0 where
  pub line : k < 8
  pub requested : bit k p.irr ≡ 1
  pub unmasked : bit k p.imr ≡ 0

-- The eight ones of 0xFF.
low_ones : (k : ℕ) → k < 8 → bit k 0xff ≡ 1
unfolding all_below bit
low_ones k h = (==_iff (bit k 0xff) 1).0 (all_below_sound 8 (λ j. bit j 0xff == 1) k refl h)

bit-pending :
    (k : ℕ) (p : Pic8259) → bit k (pending_of p) ≡ min (bit k p.irr - bit k p.imr) (bit k 0xff)
bit-pending k p =
    bit-and k (bit_clear p.irr p.imr) 0xff ∙ ap (λ t. min t (bit k 0xff)) (bit-clear k p.irr p.imr)

-- A pending line is a set bit of the pending byte, and the other way round.
IsPending-bit : (k : ℕ) (p : Pic8259) → IsPending k p → bit k (pending_of p) ≡ 1
IsPending-bit k p h = omega (arith, bit-pending k p, low_ones k h.line, h.requested, h.unmasked)

bit-IsPending : (k : ℕ) (p : Pic8259) → k < 8 → bit k (pending_of p) ≡ 1 → IsPending k p
bit-IsPending k p lt e = record {
  line = lt;
  requested = omega (arith, bit-pending k p, bit-le k p.irr, bit-le k p.imr, e);
  unmasked = omega (arith, bit-pending k p, bit-le k p.irr, bit-le k p.imr, e);
}

pending-lt : (p : Pic8259) → pending_of p < 256
pending-lt p = omega (arith, bit_and_mask 8 (bit_clear p.irr p.imr))

-- The state and the answer when line `k` is taken.
abbrev pub delivered : ℕ → Pic8259 → Pic8259 × Option ℕ
delivered k p = (record p { irr = bit_clear p.irr (2 ^ k); isr = 2 ^ k }, some k)

abbrev pub IsHighest : ℕ → Pic8259 → Type 0
IsHighest k p = IsPending k p × ((j : ℕ) → j < k → ¬ IsPending j p)

none-IsPending : (p : Pic8259) → pending_of p ≡ 0 → (j : ℕ) → ¬ IsPending j p
none-IsPending p e j h =
    let one = IsPending-bit j p h in
    let zeroed : bit j (pending_of p) ≡ 0 = ap (bit j) e ∙ bit-zero j in absurd (omega arith)

idle_lem :
    (p : Pic8259)
    → p.isr ≡ 0
    → (((j : ℕ) → ¬ IsPending j p) × (acknowledge p ≡ (p, none)))
      ⊎ ((k : ℕ) × IsHighest k p × (acknowledge p ≡ delivered k p))
unfolding acknowledge
idle_lem p idle =
    let not_busy : truthy p.isr ≡ false = ground arith in
    elim (ℕ_discrete (pending_of p) 0) [
      | yes e ↦
          let empty : (pending_of p == 0) ≡ true = ground arith in
          inl (none-IsPending p e, rw (not_busy, empty))
      | no some_pending ↦
          let k = lowest_index (pending_of p) in
          let full : (pending_of p == 0) ≡ false = ground arith in
          let low = lowest_lem (pending_of p) (pending-lt p) some_pending in
          inr (
            k,
            (
              bit-IsPending k p low.in_byte low.set,
              λ j lt h. absurd (omega (arith, IsPending-bit j p h, low.least j lt)),
            ),
            rw (not_busy, full, low.index, low.power)
                (ap (λ v. (record p { irr = bit_clear p.irr (2 ^ k); isr = v }, some k))
                  (ap (λ t. bit_or t (2 ^ k)) idle ∙ zero-or (2 ^ k))),
          )
    ]

-- While an interrupt is in service nothing is delivered. Otherwise `acknowledge` delivers the
-- lowest-numbered line that is requested and not masked: it returns that line, clears its request
-- alone and marks it, and no other, in service. If no unmasked line is requested it returns none.
-- Where it returns none it changes nothing.
pub acknowledge-IsHighest :
    (p : Pic8259)
    → ((p.isr ≢ 0) × (acknowledge p ≡ (p, none)))
      ⊎ ((p.isr ≡ 0) × ((j : ℕ) → ¬ IsPending j p) × (acknowledge p ≡ (p, none)))
      ⊎ ((p.isr ≡ 0) × ((k : ℕ) × IsHighest k p × (acknowledge p ≡ delivered k p)))
unfolding acknowledge
acknowledge-IsHighest p = elim (ℕ_discrete p.isr 0) [
  | yes idle ↦ elim (idle_lem p idle) [
    | inl (quiet, same) ↦ inr (inl (idle, quiet, same))
    | inr found ↦ inr (inr (idle, found))
  ]
  | no busy ↦ let in_service : truthy p.isr ≡ true = ground arith in inl (busy, rw in_service)
]
