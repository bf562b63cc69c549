-- ===== src/Cpu/Shift/Inverse.antt =====
-- ROL and ROR, RCL and RCR of dos_re/cpu.py's `shift` undo one another.
use dos_re.Prelude.{
  ℕ, ◌+◌, ◌-◌, ◌*◌, ◌/◌, ◌%◌, ◌^◌, ◌≤◌, ◌<◌, ◌≢◌, bit_and, bit_or, ◌≡◌, refl, ◌∙◌, ap, ap₂, arith,
  false, ◌==◌, some, ◌||◌,
}
use native.Mathlib.Nat.{
  one-le-pow, mod-lt, mod-eq_of_lt, le_of_lt, mul-add-mod_self_right, mul-add-div_right,
  div-eq_of_lt, div-lt_iff_lt-mul, div-add-mod', mul_comm,
}
use native.Mathlib.Decide.{ℕ_discrete}
use dos_re.Prelude.Bits.{bit_and_mask, or_fields, pow-add}
use dos_re.Memory.State.{ok}
use dos_re.X86.{cf}
use dos_re.Cpu.Shift.{◌<<◌, ◌>>◌, shift, shifted, shift_flags, rotate_left, rotate_right}
use dos_re.Cpu.Shift.Rotate.{
  rotate_left-lt, rotate_right-lt, rotate_right-rotate_left, rotate_left-rotate_right,
}
use dos_re.Cpu.Shift.Status.{rotate_flags, low_flag}

-- A count that is masked to zero leaves the value and the flags alone.
shift_none :
    (group val count w flags : ℕ)
    → val < 2 ^ w
    → bit_and count 0x1f ≡ 0
    → shift group val count w flags ≡ ok (val, flags)
unfolding shift
shift_none group val count w flags h e =
    rw (e, bit_and_mask w val) (ap (λ t. ok (t, flags)) (mod-eq_of_lt h))

shift-ok :
    (group val count w flags res carry f : ℕ)
    → val < 2 ^ w
    → res < 2 ^ w
    → bit_and count 0x1f ≢ 0
    → shifted group val (bit_and count 0x1f) w flags ≡ some (res, carry)
    → shift_flags group val res carry (bit_and count 0x1f) w flags ≡ ok f
    → shift group val count w flags ≡ ok (res, f)
unfolding shift
shift-ok group val count w flags res carry f hv hr nonzero e set =
    let n = bit_and count 0x1f in
    let test : (n == 0) ≡ false = ground arith in
    let same : bit_and val (2 ^ w - 1) ≡ val = bit_and_mask w val ∙ mod-eq_of_lt hv in
    let kept : bit_and res (2 ^ w - 1) ≡ res = bit_and_mask w res ∙ mod-eq_of_lt hr in
    let taken : shifted group (bit_and val (2 ^ w - 1)) n w flags ≡ some (res, carry) = rw same e in
    let flagged : shift_flags group (bit_and val (2 ^ w - 1)) res carry n w flags ≡ ok f =
      rw same set in
    rw (test, taken, flagged, kept) refl

module _ (w count val flags : ℕ) (wide : 2 ≤ w) (fits : val < 2 ^ w) where
  below : (n : ℕ) → n % w ≤ w
  below n = le_of_lt (mod-lt n (omega arith))

  pub rol-ror :
      (r f f' : ℕ) × (shift 0 val count w flags ≡ ok (r, f)) × (shift 1 r count w f ≡ ok (val, f'))
  unfolding shifted
  rol-ror = elim (ℕ_discrete (bit_and count 0x1f) 0) [
    | yes e ↦ (
      val,
      flags,
      flags,
      shift_none 0 val count w flags fits e,
      shift_none 1 val count w flags fits e,
    )
    | no some_left ↦
        let n = bit_and count 0x1f in
        let r = rotate_left w (n % w) val in
        let room = rotate_left-lt w (n % w) val (below n) fits in
        let back = rotate_right-rotate_left w (n % w) val (below n) fits in
        let c = bit_and r 1 in
        let d = bit_and (val >> (w - 1)) 1 in
        let (f, set, _) = rotate_flags 0 val r c n w flags refl wide (low_flag r) in
        let (g, reset, _) = rotate_flags 1 r val d n w f refl wide (low_flag (val >> (w - 1))) in
        (
          r,
          f,
          g,
          shift-ok 0 val count w flags r c f fits room some_left refl set,
          shift-ok 1 r count w f val d g room fits some_left
              (ap (λ t. some (t, bit_and (t >> (w - 1)) 1)) back) reset,
        )
  ]

  pub ror-rol :
      (r f f' : ℕ) × (shift 1 val count w flags ≡ ok (r, f)) × (shift 0 r count w f ≡ ok (val, f'))
  unfolding shifted
  ror-rol = elim (ℕ_discrete (bit_and count 0x1f) 0) [
    | yes e ↦ (
      val,
      flags,
      flags,
      shift_none 1 val count w flags fits e,
      shift_none 0 val count w flags fits e,
    )
    | no some_left ↦
        let n = bit_and count 0x1f in
        let r = rotate_right w (n % w) val in
        let room = rotate_right-lt w (n % w) val (below n) fits in
        let back = rotate_left-rotate_right w (n % w) val (below n) fits in
        let c = bit_and (r >> (w - 1)) 1 in
        let d = bit_and val 1 in
        let (f, set, _) = rotate_flags 1 val r c n w flags refl wide (low_flag (r >> (w - 1))) in
        let (g, reset, _) = rotate_flags 0 r val d n w f refl wide (low_flag val) in
        (
          r,
          f,
          g,
          shift-ok 1 val count w flags r c f fits room some_left refl set,
          shift-ok 0 r count w f val d g room fits some_left (ap (λ t. some (t, bit_and t 1)) back)
              reset,
        )
  ]

-- The carry above the word, as one number of w + 1 bits.
abbrev joined : (w f x : ℕ) → ℕ
joined w f x = bit_or (bit_and f cf << w) x

module _ (w : ℕ) where
  wide : 2 ^ (w + 1) ≡ 2 ^ w * 2
  wide = pow-add w 1

  module _ (f x : ℕ) (fits : x < 2 ^ w) where
    joined_sum : joined w f x ≡ bit_and f cf * 2 ^ w + x
    joined_sum = or_fields w (bit_and f cf) x fits

    joined-lt : joined w f x < 2 ^ (w + 1)
    joined-lt = rw (joined_sum, wide) (grind (arith, low_flag f))

    joined_low : joined w f x % 2 ^ w ≡ x
    joined_low =
        rw (joined_sum, mul-add-mod_self_right (bit_and f cf) (2 ^ w) x) (mod-eq_of_lt fits)

    joined_high : joined w f x / 2 ^ w ≡ bit_and f cf
    joined_high =
        rw
          (
            joined_sum,
            mul-add-div_right (one-le-pow w 2 (omega arith)) (bit_and f cf) x,
            div-eq_of_lt fits,
          )
          (omega arith)

  -- A turned number taken apart and joined again.
  module _ (t f : ℕ) (fits : t < 2 ^ (w + 1)) where
    top_digit : bit_and (t >> w) 1 ≡ t / 2 ^ w
    top_digit =
        let small : t / 2 ^ w < 2 =
          (div-lt_iff_lt-mul (one-le-pow w 2 (omega arith))).1
            (rw (mul_comm 2 (2 ^ w), ← wide) fits) in
        omega (arith, bit_and_mask 1 (t / 2 ^ w))

    rejoined : bit_and f cf ≡ bit_and (t >> w) 1 → joined w f (t % 2 ^ w) ≡ t
    rejoined e =
        let room : t % 2 ^ w < 2 ^ w = mod-lt t (one-le-pow w 2 (omega arith)) in
        joined_sum f (t % 2 ^ w) room
        ∙ ap (λ c. c * 2 ^ w + t % 2 ^ w) (e ∙ top_digit)
        ∙ div-add-mod' t (2 ^ w)

module _ (w count val flags : ℕ) (wide : 2 ≤ w) (fits : val < 2 ^ w) where
  within : (n : ℕ) → n % (w + 1) ≤ w + 1
  within n = le_of_lt (mod-lt n (omega arith))

  -- One rotate through the carry and the opposite one, on the joined number.
  module _ (there back : ℕ) (turn unturn : ℕ → ℕ → ℕ → ℕ)
      (turn-lt : (n x : ℕ) → n ≤ w + 1 → x < 2 ^ (w + 1) → turn (w + 1) n x < 2 ^ (w + 1))
      (undo : (n x : ℕ) → n ≤ w + 1 → x < 2 ^ (w + 1) → unturn (w + 1) n (turn (w + 1) n x) ≡ x)
      (is_there : (there == 4 || there == 5 || there == 7) ≡ false)
      (is_back : (back == 4 || back == 5 || back == 7) ≡ false)
      (at_there : (x n f : ℕ)
        → let t = turn (w + 1) (n % (w + 1)) (joined w f x) in
          shifted there x n w f ≡ some (bit_and t (2 ^ w - 1), bit_and (t >> w) 1))
      (at_back : (x n f : ℕ)
        → let t = unturn (w + 1) (n % (w + 1)) (joined w f x) in
          shifted back x n w f ≡ some (bit_and t (2 ^ w - 1), bit_and (t >> w) 1)) where
    through :
        bit_and count 0x1f ≢ 0
        → (r f f' : ℕ) × (shift there val count w flags ≡ ok (r, f))
          × (shift back r count w f ≡ ok (val, f'))
          × (bit_and f' cf ≡ bit_and flags cf)
    through some_left =
        let n = bit_and count 0x1f in
        let m = n % (w + 1) in
        let start = joined w flags val in
        let start_fits = joined-lt w flags val fits in
        let t = turn (w + 1) m start in
        let t_fits = turn-lt m start (within n) start_fits in
        let r = bit_and t (2 ^ w - 1) in
        let r_low : r ≡ t % 2 ^ w = bit_and_mask w t in
        let r_fits : r < 2 ^ w = rw r_low (mod-lt t (one-le-pow w 2 (omega arith))) in
        let c = bit_and (t >> w) 1 in
        let c_le : c ≤ 1 = low_flag (t >> w) in
        let (f, set, kept) = rotate_flags there val r c n w flags is_there wide c_le in
        let whole : joined w f r ≡ t = ap (joined w f) r_low ∙ rejoined w t f t_fits kept in
        let restored : unturn (w + 1) m (joined w f r) ≡ start =
          ap (unturn (w + 1) m) whole ∙ undo m start (within n) start_fits in
        let value : bit_and start (2 ^ w - 1) ≡ val =
          bit_and_mask w start ∙ joined_low w flags val fits in
        let carry : bit_and (start >> w) 1 ≡ bit_and flags cf =
          top_digit w start flags start_fits ∙ joined_high w flags val fits in
        let (g, reset, again) =
          rotate_flags back r val (bit_and flags cf) n w f is_back wide (low_flag flags) in
        let last : shifted back r n w f ≡ some (val, bit_and flags cf) =
          at_back r n f
          ∙ ap (λ u. some (bit_and u (2 ^ w - 1), bit_and (u >> w) 1)) restored
          ∙ ap₂ (λ v k. some (v, k)) value carry in
        (
          r,
          f,
          g,
          shift-ok there val count w flags r c f fits r_fits some_left (at_there val n flags) set,
          shift-ok back r count w f val (bit_and flags cf) g r_fits fits some_left last reset,
          again,
        )

  rcl-rcr :
      (r f f' : ℕ) × (shift 2 val count w flags ≡ ok (r, f))
      × (shift 3 r count w f ≡ ok (val, f'))
      × (bit_and f' cf ≡ bit_and flags cf)
  unfolding shifted
  rcl-rcr = elim (ℕ_discrete (bit_and count 0x1f) 0) [
    | yes e ↦ (
      val,
      flags,
      flags,
      shift_none 2 val count w flags fits e,
      shift_none 3 val count w flags fits e,
      refl,
    )
    | no some_left ↦
        through 2 3 rotate_left rotate_right (rotate_left-lt (w + 1))
          (rotate_right-rotate_left (w + 1)) refl refl (λ x n f. refl) (λ x n f. refl) some_left
  ]

  rcr-rcl :
      (r f f' : ℕ) × (shift 3 val count w flags ≡ ok (r, f))
      × (shift 2 r count w f ≡ ok (val, f'))
      × (bit_and f' cf ≡ bit_and flags cf)
  unfolding shifted
  rcr-rcl = elim (ℕ_discrete (bit_and count 0x1f) 0) [
    | yes e ↦ (
      val,
      flags,
      flags,
      shift_none 3 val count w flags fits e,
      shift_none 2 val count w flags fits e,
      refl,
    )
    | no some_left ↦
        through 3 2 rotate_right rotate_left (rotate_right-lt (w + 1))
          (rotate_left-rotate_right (w + 1)) refl refl (λ x n f. refl) (λ x n f. refl) some_left
  ]

-- Rotating a word of two bits or more by any count, and then back by the same count, gives the
-- word again: ROL and ROR in either order, and RCL and RCR in either order, where the carry flag
-- comes back too.
pub shift-rotates_back :
    (w count val flags : ℕ)
    → 2 ≤ w
    → val < 2 ^ w
    → ((r f f' : ℕ) × (shift 0 val count w flags ≡ ok (r, f))
        × (shift 1 r count w f ≡ ok (val, f')))
      × ((r f f' : ℕ) × (shift 1 val count w flags ≡ ok (r, f))
          × (shift 0 r count w f ≡ ok (val, f')))
      × ((r f f' : ℕ) × (shift 2 val count w flags ≡ ok (r, f))
          × (shift 3 r count w f ≡ ok (val, f'))
          × (bit_and f' cf ≡ bit_and flags cf))
      × ((r f f' : ℕ) × (shift 3 val count w flags ≡ ok (r, f))
          × (shift 2 r count w f ≡ ok (val, f'))
          × (bit_and f' cf ≡ bit_and flags cf))
shift-rotates_back w count val flags h fits = (
  rol-ror w count val flags h fits,
  ror-rol w count val flags h fits,
  rcl-rcr w count val flags h fits,
  rcr-rcl w count val flags h fits,
)
