-- ===== src/Pic/Lowest.antt =====
-- `pending & -pending` of a byte in dos_re/pic.py: a table over every byte.
use dos_re.Prelude.{
  ℕ, ◌-◌, ◌^◌, ◌<◌, ◌≡◌, ◌≢◌, refl, arith, Bool, true, ◌&&◌, ◌==◌, ltb, not, ◌||◌, all_below,
  all_below_sound,
}
use dos_re.Prelude.Bits.{bit}
use dos_re.Pic.{lowest_bit, bit_length}

-- The index of the lowest set bit of a non-zero byte.
pub lowest_index : ℕ → ℕ
lowest_index x = bit_length (lowest_bit x) - 1

-- The candidate is the power of its index, its bit is set, and no lower one is.
byte_ok : ℕ → Bool
byte_ok x =
    x == 0
    || (lowest_bit x == 2 ^ lowest_index x
        && ltb (lowest_index x) 8
        && bit (lowest_index x) x == 1
        && all_below 8 (λ j. not (ltb j (lowest_index x)) || bit j x == 0))

table : all_below 256 byte_ok ≡ true
unfolding all_below byte_ok lowest_index lowest_bit bit_length bit
table = refl

pub record IsLowest (x k : ℕ) : Type 0 where
  pub index : bit_length (lowest_bit x) - 1 ≡ k
  pub power : lowest_bit x ≡ 2 ^ k
  pub in_byte : k < 8
  pub set : bit k x ≡ 1
  pub least : (j : ℕ) → j < k → bit j x ≡ 0

pub lowest_lem : (x : ℕ) → x < 256 → x ≢ 0 → IsLowest x (lowest_index x)
unfolding byte_ok lowest_index
lowest_lem x h nonzero =
    let ok = all_below_sound 256 byte_ok x table h in
    record {
      index = refl;
      power = ground arith;
      in_byte = ground arith;
      set = ground arith;
      least = λ j lt.
          ground (arith, all_below_sound 8 (λ i. not (ltb i (lowest_index x)) || bit i x == 0) j);
    }
