-- ===== src/Cpu/Shift/Rotate.antt =====
-- The rotates of dos_re/cpu.py's `shift` as arithmetic: a word of two fields, exchanged.
use dos_re.Prelude.{
  ℕ, zero, suc, ◌+◌, ◌-◌, ◌*◌, ◌/◌, ◌%◌, ◌^◌, ◌≤◌, ◌<◌, bit_and, bit_or, ◌≡◌, ◌∙◌, ap, ap₂, subst,
  sym, arith, true, truthy,
}
use native.Mathlib.Nat.{
  one-le-pow, mod-lt, mod-eq_of_lt, mul-add-mod_self_right, mul-add-div_right, div-eq_of_lt,
  div-lt_iff_lt-mul, div-add-mod', mul_comm, mul_assoc, zero-mul,
}
use dos_re.Prelude.Bits.{bit_and_mask, or_fields, or_comm, pow-add}
use dos_re.Cpu.Shift.{rotate_left, rotate_right, ◌<<◌, ◌>>◌}

-- The low field of `a` values moves above the high one.
abbrev pub turn : (a b x : ℕ) → ℕ
turn a b x = (x % a) * b + x / a

-- Two digits fit below the product of their bases.
two_digits : (a b u v : ℕ) → u < a → v < b → u * b + v < a * b
two_digits a b u v hu hv = grind arith

module _ (a b : ℕ) (ha : 0 < a) (hb : 0 < b) where
  high-lt : (x : ℕ) → x < a * b → x / a < b
  high-lt x h = (div-lt_iff_lt-mul ha).1 (rw (mul_comm a b) at h)

  pub turn-lt : (x : ℕ) → x < a * b → turn a b x < a * b
  turn-lt x h = two_digits a b (x % a) (x / a) (mod-lt x ha) (high-lt x h)

  pub turn-turn : (x : ℕ) → x < a * b → turn b a (turn a b x) ≡ x
  turn-turn x h =
      let small = high-lt x h in
      let low : turn a b x % b ≡ x / a =
        mul-add-mod_self_right (x % a) b (x / a) ∙ mod-eq_of_lt small in
      let high : turn a b x / b ≡ x % a =
        mul-add-div_right hb (x % a) (x / a)
        ∙ ap (λ t. x % a + t) (div-eq_of_lt small)
        ∙ omega arith in
      ap₂ (λ u v. u * a + v) low high ∙ div-add-mod' x a

  -- Cutting a two-field word to its width drops what was shifted out.
  pub cut : (x y : ℕ) → y < b → (x * b + y) % (a * b) ≡ (x % a) * b + y
  cut x y h =
      let split : x * b + y ≡ x / a * (a * b) + ((x % a) * b + y) =
        omega (arith, ap (λ (t : ℕ). t * b) (div-add-mod' x a), mul_assoc (x / a) a b) in
      ap (λ t. t % (a * b)) split
      ∙ mul-add-mod_self_right (x / a) (a * b) ((x % a) * b + y)
      ∙ mod-eq_of_lt (two_digits a b (x % a) y (mod-lt x ha) h)

-- The rotates of a word of `j + k` bits, by `k` to the left and by `j` to the right.
module _ (j k x : ℕ) (fits : x < 2 ^ (j + k)) where
  rotate_fields :
      bit_and (bit_or (x * 2 ^ k) (x / 2 ^ j)) (2 ^ (j + k) - 1) ≡ turn (2 ^ j) (2 ^ k) x
  rotate_fields =
      let a = 2 ^ j in
      let b = 2 ^ k in
      let ha : 0 < a = one-le-pow j 2 (omega arith) in
      let hb : 0 < b = one-le-pow k 2 (omega arith) in
      let small : x / a < b = high-lt a b ha hb x (rw (pow-add j k) at fits) in
      rw (bit_and_mask (j + k) (bit_or (x * b) (x / a)), or_fields k x (x / a) small, pow-add j k)
        (cut a b ha hb x (x / a) small)

pub rotate_left-turn :
    (w n x : ℕ) → n ≤ w → x < 2 ^ w → rotate_left w n x ≡ turn (2 ^ (w - n)) (2 ^ n) x
unfolding rotate_left
rotate_left-turn w zero x h fits =
    let full : w - 0 ≡ w = omega arith in
    rw (full, mod-eq_of_lt fits, div-eq_of_lt fits) (omega arith)
rotate_left-turn w (suc n) x h fits =
    let whole : w ≡ w - suc n + suc n = omega arith in
    let room : x < 2 ^ (w - suc n + suc n) = rw (← whole) fits in
    let set : truthy (suc n) ≡ true = ground arith in
    rw set (
      subst
        (λ t.
          bit_and (bit_or (x << suc n) (x >> (w - suc n))) (2 ^ t - 1)
          ≡ turn (2 ^ (w - suc n)) (2 ^ suc n) x)
        (sym whole) (rotate_fields (w - suc n) (suc n) x room))

pub rotate_right-turn :
    (w n x : ℕ) → n ≤ w → x < 2 ^ w → rotate_right w n x ≡ turn (2 ^ n) (2 ^ (w - n)) x
unfolding rotate_right
rotate_right-turn w zero x h fits =
    let full : w - 0 ≡ w = omega arith in
    let none_low : x % 1 ≡ 0 = omega arith in rw (full, none_low) (omega (arith, zero-mul (2 ^ w)))
rotate_right-turn w (suc n) x h fits =
    let whole : w ≡ suc n + (w - suc n) = omega arith in
    let room : x < 2 ^ (suc n + (w - suc n)) = rw (← whole) fits in
    let set : truthy (suc n) ≡ true = ground arith in
    rw set (
      ap (λ t. bit_and t (2 ^ w - 1)) (or_comm (x >> suc n) (x << (w - suc n)))
      ∙ subst
          (λ t.
            bit_and (bit_or (x << (w - suc n)) (x >> suc n)) (2 ^ t - 1)
            ≡ turn (2 ^ suc n) (2 ^ (w - suc n)) x)
          (sym whole) (rotate_fields (suc n) (w - suc n) x room))

module _ (w n x : ℕ) (h : n ≤ w) (fits : x < 2 ^ w) where
  fields_room : (a b : ℕ) → a + b ≡ w → x < 2 ^ a * 2 ^ b
  fields_room a b e = rw (← pow-add a b, e) fits

  pub rotate_left-lt : rotate_left w n x < 2 ^ w
  rotate_left-lt = rw (rotate_left-turn w n x h fits) (
      subst (λ t. turn (2 ^ (w - n)) (2 ^ n) x < t) product
        (turn-lt (2 ^ (w - n)) (2 ^ n) (one-le-pow (w - n) 2 (omega arith))
          (one-le-pow n 2 (omega arith)) x (fields_room (w - n) n (omega arith))))
    where
      product : 2 ^ (w - n) * 2 ^ n ≡ 2 ^ w
      product = sym (pow-add (w - n) n) ∙ ap (λ t. 2 ^ t) (omega arith)

  pub rotate_right-lt : rotate_right w n x < 2 ^ w
  rotate_right-lt = rw (rotate_right-turn w n x h fits) (
      subst (λ t. turn (2 ^ n) (2 ^ (w - n)) x < t) product
        (turn-lt (2 ^ n) (2 ^ (w - n)) (one-le-pow n 2 (omega arith))
          (one-le-pow (w - n) 2 (omega arith)) x (fields_room n (w - n) (omega arith))))
    where
      product : 2 ^ n * 2 ^ (w - n) ≡ 2 ^ w
      product = sym (pow-add n (w - n)) ∙ ap (λ t. 2 ^ t) (omega arith)

module _ (w n x : ℕ) (h : n ≤ w) (fits : x < 2 ^ w) where
  pub rotate_right-rotate_left : rotate_right w n (rotate_left w n x) ≡ x
  rotate_right-rotate_left =
      rotate_right-turn w n (rotate_left w n x) h (rotate_left-lt w n x h fits)
      ∙ ap (turn (2 ^ n) (2 ^ (w - n))) (rotate_left-turn w n x h fits)
      ∙ turn-turn (2 ^ (w - n)) (2 ^ n) (one-le-pow (w - n) 2 (omega arith))
          (one-le-pow n 2 (omega arith)) x (fields_room w n x h fits (w - n) n (omega arith))

  pub rotate_left-rotate_right : rotate_left w n (rotate_right w n x) ≡ x
  rotate_left-rotate_right =
      rotate_left-turn w n (rotate_right w n x) h (rotate_right-lt w n x h fits)
      ∙ ap (turn (2 ^ (w - n)) (2 ^ n)) (rotate_right-turn w n x h fits)
      ∙ turn-turn (2 ^ n) (2 ^ (w - n)) (one-le-pow n 2 (omega arith))
          (one-le-pow (w - n) 2 (omega arith)) x (fields_room w n x h fits n (w - n) (omega arith))
