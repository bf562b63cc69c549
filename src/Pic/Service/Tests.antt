-- ===== src/Pic/Service/Tests.antt =====
-- Concrete runs of dos_re/pic.py.
use dos_re.Prelude.{ℕ, ◌%◌, ◌≡◌, refl, ◌⊎◌, some, none, ◌≢◌, [], ◌∷◌}
use dos_re.Prelude.Bits.{bit}
use dos_re.Pic.{Pic8259, reset_pic, raise_irq, set_mask, eoi, acknowledge}
use dos_re.Pic.Service.{
  Run, start, raised, masked, polled, Serving, Delivered, Run-serves_one, raise_irq-kept,
}
use dos_re.Pic.Acknowledge.{delivered, IsHighest, IsPending, acknowledge-IsHighest}

-- Lines 5 and 3 raised while masked, then unmasked: line 3 is delivered.
abbrev two_lines : Pic8259
two_lines = set_mask 0 (raise_irq 3 (raise_irq 5 reset_pic))

first_poll : acknowledge two_lines ≡ (record { imr = 0; irr = 0x20; isr = 0x08 }, some 3)
unfolding acknowledge raise_irq set_mask dos_re.Pic.lowest_bit dos_re.Pic.bit_length
first_poll = refl

run : Run reset_pic (3 ∷ []) (record { imr = 0; irr = 0x20; isr = 0x08 })
run = polled (masked (raised (raised start 5) 3) 0) first_poll

acknowledge-IsHighest_example :
    ((two_lines.isr ≢ 0) × (acknowledge two_lines ≡ (two_lines, none)))
    ⊎ ((two_lines.isr ≡ 0)
        × ((j : ℕ) → ¬ IsPending j two_lines)
        × (acknowledge two_lines ≡ (two_lines, none)))
    ⊎ ((two_lines.isr ≡ 0)
        × ((k : ℕ) × IsHighest k two_lines × (acknowledge two_lines ≡ delivered k two_lines)))
acknowledge-IsHighest_example = acknowledge-IsHighest two_lines

abbrev served : Pic8259
served = record { imr = 0; irr = 0x20; isr = 0x08 }

Run-serves_one_example : Serving served × ((eoi served).isr ≡ 0)
Run-serves_one_example = Run-serves_one run

-- The same run, from the state in which line 5 has just been raised.
second_delivery : Run (raise_irq 5 reset_pic) (3 ∷ []) served
second_delivery = polled (masked (raised start 3) 0) first_poll

raise_irq-kept_example : (bit (5 % 8) served.irr ≡ 1) ⊎ Delivered (5 % 8) (3 ∷ [])
raise_irq-kept_example = raise_irq-kept 5 reset_pic second_delivery
