-- ===== src/Pic.antt =====
-- dos_re/pic.py: the master 8259 interrupt controller.
pub mod Lowest
pub mod Acknowledge
pub mod Service
use dos_re.Prelude.{
  ℕ, zero, suc, ◌+◌, ◌-◌, ◌/◌, ◌^◌, bit_and, bit_or, Option, some, none, ◌==◌, truthy,
  if◌then◌else◌,
}
use dos_re.Prelude.Bits.{bit_clear}

pub record Pic8259 : Type 0 where
  pub imr : ℕ
  pub irr : ℕ
  pub isr : ℕ

-- The defaults of the dataclass.
abbrev pub reset_pic : Pic8259
reset_pic = record { imr = 0xff; irr = 0; isr = 0 }

-- `int.bit_length`: the halvings until nothing is left; the number itself is fuel enough.
bit_length_fuel : ℕ → ℕ → ℕ
bit_length_fuel zero n = 0
bit_length_fuel (suc fuel) zero = 0
bit_length_fuel (suc fuel) (suc n) = suc (bit_length_fuel fuel (suc n / 2))

unfoldable pub bit_length : ℕ → ℕ
unfolding bit_length_fuel
bit_length n = bit_length_fuel n n

-- `x & -x`: -x is ~(x - 1).
unfoldable pub lowest_bit : ℕ → ℕ
lowest_bit x = if x == 0 then 0 else bit_clear x (x - 1)

unfoldable pub raise_irq : ℕ → Pic8259 → Pic8259
raise_irq n p = record p { irr = bit_or p.irr (2 ^ bit_and n 7) }

unfoldable pub set_mask : ℕ → Pic8259 → Pic8259
set_mask value p = record p { imr = bit_and value 0xff }

unfoldable pub get_mask : Pic8259 → ℕ
get_mask p = bit_and p.imr 0xff

unfoldable pub eoi : Pic8259 → Pic8259
eoi p = if truthy p.isr then record p { isr = bit_and p.isr (p.isr - 1) } else p

-- `self.irr & ~self.imr & 0xFF`
abbrev pub pending_of : Pic8259 → ℕ
pending_of p = bit_and (bit_clear p.irr p.imr) 0xff

-- The controller after the call, and the IRQ to deliver.
unfoldable pub acknowledge : Pic8259 → Pic8259 × Option ℕ
acknowledge p =
    let pending = pending_of p in
    let cand = lowest_bit pending in
    if truthy p.isr then (p, none) else if pending == 0 then (p, none) else (
      record p { irr = bit_clear p.irr cand; isr = bit_or p.isr cand },
      some (bit_length cand - 1),
    )
