-- ===== src/Cpu/Shift/Status.antt =====
-- The flags that a rotate of dos_re/cpu.py's `shift` leaves.
use dos_re.Prelude.{
  ℕ, ◌≤◌, bit_and, ◌≡◌, refl, arith, Bool, true, false, truthy, if◌then◌else◌, ◌==◌, ◌||◌, ltb,
  Bool-cases, inl, inr,
}
use dos_re.Prelude.Bits.{bit, bit-le, bit-or, bit-clear, bit_and_mask, bit_and_pow, bit_clear}
use dos_re.Memory.State.{Result, ok, err, value_error}
use dos_re.X86.{cf, of}
use dos_re.Cpu.Flags.{finish}
use dos_re.Cpu.Flags.Chain.{bit-finish}
use dos_re.Cpu.Shift.{shift_status, shift_flags, shift_overflow, put_overflow}

-- From two bits on, a shift by one has an overflow flag.
either_ok :
    (c : Bool) (x : ℕ) (r : Result ℕ)
    → (o : ℕ) × (r ≡ ok o)
    → (o : ℕ) × ((if c then ok x else r) ≡ ok o)
either_ok true x r h = (x, refl)
either_ok false x r h = h

guarded_ok :
    (c : Bool) (x : ℕ) → c ≡ false → (o : ℕ) × ((if c then err value_error else ok x) ≡ ok o)
guarded_ok c x h = (x, rw h refl)

overflow_ok :
    (group orig res carry w : ℕ) → 2 ≤ w → (o : ℕ) × (shift_overflow group orig res carry w ≡ ok o)
unfolding shift_overflow
overflow_ok group orig res carry w wide =
    let enough : ltb w 2 ≡ false = ground arith in
    either_ok (group == 4) _ _ (
      either_ok (group == 5) _ _ (
        either_ok (group == 7) _ _ (
          either_ok (group == 0) _ _ (either_ok (group == 2) _ _ (guarded_ok (ltb w 2) _ enough)))))

-- A rotate leaves its carry in CF, whatever it does to OF.
finish_low : (f carry : ℕ) → bit 0 f ≡ carry → bit_and (finish f) cf ≡ carry
unfolding bit
finish_low f carry e = omega (arith, bit_and_pow 0 (finish f), bit-finish 0 f, bit-le 0 f)

put_overflow_low : (o f carry : ℕ) → bit 0 f ≡ carry → bit 0 (put_overflow o f) ≡ carry
unfolding put_overflow bit
put_overflow_low o f carry e = elim (Bool-cases (truthy o)) [
  | inl set ↦ rw set (omega (arith, bit-or 0 f of))
  | inr unset ↦ rw unset (omega (arith, bit-clear 0 f of))
]

status_low :
    (group res carry w flags : ℕ)
    → (group == 4 || group == 5 || group == 7) ≡ false
    → carry ≤ 1
    → bit 0 (shift_status group res carry w flags) ≡ carry
unfolding shift_status bit
status_low group res carry w flags rotates h =
    rw rotates (omega (arith, bit-or 0 (bit_clear flags cf) carry, bit-clear 0 flags cf))

-- A rotate of a word of two bits or more has flags, with its carry in CF.
pub rotate_flags :
    (group orig res carry n w flags : ℕ)
    → (group == 4 || group == 5 || group == 7) ≡ false
    → 2 ≤ w
    → carry ≤ 1
    → (f : ℕ) × (shift_flags group orig res carry n w flags ≡ ok f) × (bit_and f cf ≡ carry)
unfolding shift_flags
rotate_flags group orig res carry n w flags rotates wide h =
    let f = shift_status group res carry w flags in
    let low = status_low group res carry w flags rotates h in
    elim (Bool-cases (n == 1)) [
      | inr many ↦ (finish f, rw many refl, finish_low f carry low)
      | inl one ↦
          let (o, is) = overflow_ok group orig res carry w wide in
          (
            finish (put_overflow o f),
            rw (one, is) refl,
            finish_low (put_overflow o f) carry (put_overflow_low o f carry low),
          )
    ]

pub low_flag : (f : ℕ) → bit_and f cf ≤ 1
low_flag f = omega (arith, bit_and_mask 1 f)
