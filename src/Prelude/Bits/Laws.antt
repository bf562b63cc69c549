-- ===== src/Prelude/Bits/Laws.antt =====
-- Bit k of a number, bit by bit laws of the word operations, and extensionality.
use Prim.Native.Nat.{ℕ, zero, suc, ◌+◌, ◌-◌, ◌*◌, ◌/◌, ◌%◌, ◌^◌, ◌≤◌, ◌<◌, min, max}
use Prim.Native.Nat.{bit_and, bit_or, bit_xor}
use mathlib.Core.Path.{◌≡◌, refl, sym, ap, ◌∙◌}
use native.Mathlib.Omega.{arith}
use dos_re.Prelude.Tests.{leb, from_bool, truthy}
use mathlib.Core.Bool.{◌||◌}
use mathlib.Core.Logic.{◌≢◌}
use native.Mathlib.Nat.{
  pow-suc, one-le-pow, div-add-mod', mod-lt, mod-eq_of_lt, mul-add-mod_self_right, mul_assoc,
  div-div-eq-div-mul,
}
use dos_re.Prelude.Bits.Step.{bit_and_step, bit_or_step, bit_xor_step}

unfoldable pub bit : ℕ → ℕ → ℕ
bit zero x = x % 2
bit (suc k) x = bit k (x / 2)

-- `x & ~m`, exact on every natural number.
abbrev pub bit_clear : ℕ → ℕ → ℕ
bit_clear x m = bit_xor x (bit_and x m)

pub bit-le : (k x : ℕ) → bit k x ≤ 1
unfolding bit
bit-le zero x = omega arith
bit-le (suc k) x = bit-le k (x / 2)

pub bit-and : (k x y : ℕ) → bit k (bit_and x y) ≡ min (bit k x) (bit k y)
unfolding bit
bit-and zero x y = omega (arith, bit_and_step x y)
bit-and (suc k) x y =
    let half : bit_and x y / 2 ≡ bit_and (x / 2) (y / 2) = omega (arith, bit_and_step x y) in
    rw half (bit-and k (x / 2) (y / 2))

pub bit-or : (k x y : ℕ) → bit k (bit_or x y) ≡ max (bit k x) (bit k y)
unfolding bit
bit-or zero x y = omega (arith, bit_or_step x y)
bit-or (suc k) x y =
    let half : bit_or x y / 2 ≡ bit_or (x / 2) (y / 2) = omega (arith, bit_or_step x y) in
    rw half (bit-or k (x / 2) (y / 2))

pub bit-xor : (k x y : ℕ) → bit k (bit_xor x y) ≡ (bit k x + bit k y) % 2
unfolding bit
bit-xor zero x y = omega (arith, bit_xor_step x y)
bit-xor (suc k) x y =
    let half : bit_xor x y / 2 ≡ bit_xor (x / 2) (y / 2) = omega (arith, bit_xor_step x y) in
    rw half (bit-xor k (x / 2) (y / 2))

pub bit-clear : (k x m : ℕ) → bit k (bit_clear x m) ≡ bit k x - bit k m
bit-clear k x m = omega (arith, bit-xor k x (bit_and x m), bit-and k x m, bit-le k x, bit-le k m)

pub bit-zero : (k : ℕ) → bit k 0 ≡ 0
unfolding bit
bit-zero zero = refl
bit-zero (suc k) = bit-zero k

-- Numbers with the same bits are equal; `fuel` bounds their size.
ext_fuel : (fuel x y : ℕ) → x ≤ fuel → y ≤ fuel → ((k : ℕ) → bit k x ≡ bit k y) → x ≡ y
unfolding bit
ext_fuel zero x y p q h = omega arith
ext_fuel (suc fuel) x y p q h =
    let low : x % 2 ≡ y % 2 = h 0 in
    let high : x / 2 ≡ y / 2 =
      ext_fuel fuel (x / 2) (y / 2) (omega arith) (omega arith) (λ k. h (suc k)) in
    omega arith

pub bit_ext : (x y : ℕ) → ((k : ℕ) → bit k x ≡ bit k y) → x ≡ y
bit_ext x y h = ext_fuel (x + y) x y (omega arith) (omega arith) h

and-zero : (x : ℕ) → bit_and x 0 ≡ 0
and-zero x = bit_ext _ _ λ k. omega (arith, bit-and k x 0, bit-zero k)

-- `x & (1 << k)` is the bit, in its place.
pub bit_and_pow : (k x : ℕ) → bit_and x (2 ^ k) ≡ bit k x * 2 ^ k
unfolding bit
bit_and_pow zero x = omega (arith, bit_and_step x 1, and-zero (x / 2))
bit_and_pow (suc k) x =
    let twice : 2 ^ suc k ≡ 2 ^ k * 2 = pow-suc 2 k in
    let half : 2 ^ suc k / 2 ≡ 2 ^ k = omega arith in
    let step = bit_and_step x (2 ^ suc k) in
    let rest : bit_and (x / 2) (2 ^ suc k / 2) ≡ bit k (x / 2) * 2 ^ k =
      rw half (bit_and_pow k (x / 2)) in
    omega (arith, ap (λ (t : ℕ). bit k (x / 2) * t) twice)

mod_double : (p x : ℕ) → 0 < p → x % (p * 2) ≡ ((x / 2) % p) * 2 + x % 2
mod_double p x h =
    let q = x / 2 / p in
    let r = x / 2 % p * 2 + x % 2 in
    let halves : x / 2 ≡ q * p + x / 2 % p = sym (div-add-mod' (x / 2) p) in
    let split : x ≡ q * (p * 2) + r = omega arith in
    let small : r < p * 2 = omega (arith, mod-lt (x / 2) h) in
    ap (λ (t : ℕ). t % (p * 2)) split ∙ mul-add-mod_self_right q (p * 2) r ∙ mod-eq_of_lt small

-- A mask of `k` ones is the remainder by `2 ^ k`.
pub bit_and_mask : (k x : ℕ) → bit_and x (2 ^ k - 1) ≡ x % 2 ^ k
bit_and_mask zero x = rw and-zero (omega arith)
bit_and_mask (suc k) x =
    let twice : 2 ^ suc k ≡ 2 ^ k * 2 = pow-suc 2 k in
    let positive : 0 < 2 ^ k = one-le-pow k 2 (omega arith) in
    let half : (2 ^ suc k - 1) / 2 ≡ 2 ^ k - 1 = omega arith in
    let rest : bit_and (x / 2) ((2 ^ suc k - 1) / 2) ≡ (x / 2) % 2 ^ k =
      rw half (bit_and_mask k (x / 2)) in
    omega (
      arith,
      bit_and_step x (2 ^ suc k - 1),
      ap (λ (m : ℕ). x % m) twice,
      mod_double (2 ^ k) x (positive),
    )

-- Inverting `k` bits counts down from the mask.
pub mask_xor : (k x : ℕ) → x < 2 ^ k → bit_xor (2 ^ k - 1) x ≡ 2 ^ k - 1 - x
mask_xor zero x h = let none_left : x ≡ 0 = omega arith in rw none_left
mask_xor (suc k) x h =
    let twice : 2 ^ suc k ≡ 2 ^ k * 2 = pow-suc 2 k in
    let positive : 0 < 2 ^ k = one-le-pow k 2 (omega arith) in
    let half : (2 ^ suc k - 1) / 2 ≡ 2 ^ k - 1 = omega arith in
    let rest : bit_xor ((2 ^ suc k - 1) / 2) (x / 2) ≡ 2 ^ k - 1 - x / 2 =
      rw half (mask_xor k (x / 2) (omega arith)) in
    omega (arith, bit_xor_step (2 ^ suc k - 1) x)

-- The top bit of a word of `suc n` bits.
pub bit_top : (n x : ℕ) → x < 2 ^ suc n → bit n x ≡ from_bool (leb (2 ^ n) x)
unfolding bit
bit_top zero x h = ground arith
bit_top (suc n) x h =
    let twice : 2 ^ suc n ≡ 2 ^ n * 2 = pow-suc 2 n in
    let again : 2 ^ suc (suc n) ≡ 2 ^ suc n * 2 = pow-suc 2 (suc n) in
    ground (arith, bit_top n (x / 2))

-- Above the width there are no bits.
pub bit_above : (n x : ℕ) → x < 2 ^ n → bit n x ≡ 0
unfolding bit
bit_above zero x h = omega arith
bit_above (suc n) x h =
    let twice : 2 ^ suc n ≡ 2 ^ n * 2 = pow-suc 2 n in bit_above n (x / 2) (omega arith)

-- `x & (y | z)` is zero exactly when both `x & y` and `x & z` are.
pub or-eq-zero : (x y : ℕ) → bit_or x y ≡ 0 → x ≡ 0
or-eq-zero x y h = bit_ext x 0 λ k. omega (arith, bit-or k x y, ap (bit k) h, bit-zero k)

pub and-or : (x y z : ℕ) → bit_and x (bit_or y z) ≡ bit_or (bit_and x y) (bit_and x z)
and-or x y z = bit_ext _ _ λ k. omega (
  arith,
  bit-and k x (bit_or y z),
  bit-or k y z,
  bit-or k (bit_and x y) (bit_and x z),
  bit-and k x y,
  bit-and k x z,
)

pub or_comm : (x y : ℕ) → bit_or x y ≡ bit_or y x
or_comm x y = bit_ext _ _ λ k. omega (arith, bit-or k x y, bit-or k y x)

pub truthy-or : (x y : ℕ) → truthy (bit_or x y) ≡ (truthy x || truthy y)
truthy-or zero zero = refl
truthy-or zero (suc y) =
    let h = or-eq-zero (suc y) 0 in ground (arith, or_comm 0 (suc y), or-eq-zero (suc y) 0)
truthy-or (suc x) y = ground (arith, or-eq-zero (suc x) y)

-- Disjoint fields: `(x << k) | y` is a sum where `y` fits the lower `k` bits.
pub or_fields : (k x y : ℕ) → y < 2 ^ k → bit_or (x * 2 ^ k) y ≡ x * 2 ^ k + y
or_fields zero x y h =
    let none_left : y ≡ 0 = omega arith in
    rw none_left (bit_ext _ _ λ j. omega (arith, bit-or j (x * 1) 0, bit-zero j, plain j))
  where
    plain : (j : ℕ) → bit j (x * 1) ≡ bit j (x * 1 + 0)
    plain j = ap (bit j) (omega arith)
or_fields (suc k) x y h =
    let twice : 2 ^ suc k ≡ 2 ^ k * 2 = pow-suc 2 k in
    let spread : x * 2 ^ suc k ≡ x * 2 ^ k * 2 = omega (arith, ap (λ (t : ℕ). x * t) twice) in
    let half : x * 2 ^ suc k / 2 ≡ x * 2 ^ k = omega arith in
    let rest : bit_or (x * 2 ^ suc k / 2) (y / 2) ≡ x * 2 ^ k + y / 2 =
      rw half (or_fields k x (y / 2) (omega arith)) in
    omega (arith, bit_or_step (x * 2 ^ suc k) y)

pub pow-add : (j k : ℕ) → 2 ^ (j + k) ≡ 2 ^ j * 2 ^ k
pow-add j zero = let same : j + 0 ≡ j = omega arith in rw same (omega arith)
pow-add j (suc k) =
    let same : j + suc k ≡ suc (j + k) = omega arith in
    rw (same, pow-suc 2 (j + k), pow-suc 2 k, pow-add j k) (mul_assoc (2 ^ j) (2 ^ k) 2)

-- A mask whose `k` low bits are clear.
pub and_high : (k x m : ℕ) → bit_and x (m * 2 ^ k) ≡ bit_and (x / 2 ^ k) m * 2 ^ k
and_high zero x m =
    let plain : m * 1 ≡ m = omega arith in
    let same : x / 1 ≡ x = omega arith in rw (plain, same) (omega arith)
and_high (suc k) x m =
    let twice : 2 ^ suc k ≡ 2 ^ k * 2 = pow-suc 2 k in
    let spread : m * 2 ^ suc k ≡ m * 2 ^ k * 2 = omega (arith, ap (λ (t : ℕ). m * t) twice) in
    let half : m * 2 ^ suc k / 2 ≡ m * 2 ^ k = omega arith in
    let nested : x / 2 / 2 ^ k ≡ x / 2 ^ suc k =
      div-div-eq-div-mul x 2 (2 ^ k) ∙ ap (λ t. x / t) (omega arith) in
    let rest : bit_and (x / 2) (m * 2 ^ suc k / 2) ≡ bit_and (x / 2 ^ suc k) m * 2 ^ k =
      rw (half, ← nested) (and_high k (x / 2) m) in
    omega
      (arith, bit_and_step x (m * 2 ^ suc k), ap (λ (t : ℕ). bit_and (x / 2 ^ suc k) m * t) twice)

pub zero-or : (x : ℕ) → bit_or 0 x ≡ x
zero-or x = bit_ext _ _ λ k. omega (arith, bit-or k 0 x, bit-zero k)

-- The bits of a power of two.
pub bit-pow_self : (k : ℕ) → bit k (2 ^ k) ≡ 1
unfolding bit
bit-pow_self zero = refl
bit-pow_self (suc k) =
    let half : 2 ^ suc k / 2 ≡ 2 ^ k = omega (arith, pow-suc 2 k) in rw half (bit-pow_self k)

pub bit-pow_ne : (j k : ℕ) → j ≢ k → bit j (2 ^ k) ≡ 0
unfolding bit
bit-pow_ne zero zero h = absurd (h refl)
bit-pow_ne zero (suc k) h = omega (arith, pow-suc 2 k)
bit-pow_ne (suc j) zero h = bit-zero j
bit-pow_ne (suc j) (suc k) h =
    let half : 2 ^ suc k / 2 ≡ 2 ^ k = omega (arith, pow-suc 2 k) in
    rw half (bit-pow_ne j k (λ e. h (ap suc e)))
