-- ===== src/Cpu/Shift.antt =====
-- `CPU8086.shift` of dos_re/cpu.py: shifts and rotates in closed form, at a positive width.
pub mod Rotate
pub mod Status
pub mod Inverse
use dos_re.Prelude.{
  ℕ, ◌+◌, ◌-◌, ◌*◌, ◌/◌, ◌%◌, ◌^◌, bit_and, bit_or, bit_xor, Bool, true, false, Option, some, none,
  ◌==◌, leb, ltb, truthy, if◌then◌else◌, ◌||◌,
}
use dos_re.Prelude.Int.{ℤ, pos, negsuc, sub_ℕ, and_mask}
use dos_re.Prelude.Bits.{bit_clear}
use dos_re.Memory.State.{Result, ok, err, unsupported_instruction, value_error}
use dos_re.X86.{cf, pf, zf, sf, of, parity}
use dos_re.Cpu.Flags.{or_if, finish, mask_of, sign_of}

infixl 75 ◌<<◌ ◌>>◌
abbrev pub ◌<<◌ : ℕ → ℕ → ℕ
x << k = x * 2 ^ k

abbrev pub ◌>>◌ : ℕ → ℕ → ℕ
x >> k = x / 2 ^ k

-- Python's `>>` rounds towards minus infinity.
abbrev shift_right_ℤ : ℤ → ℕ → ℤ
shift_right_ℤ (pos x) k = pos (x >> k)
shift_right_ℤ (negsuc x) k = negsuc (x >> k)

-- `if n: x = ((x << n) | (x >> (width - n))) & ((1 << width) - 1)`, and its mirror image.
unfoldable pub rotate_left : (width n x : ℕ) → ℕ
rotate_left width n x =
    if truthy n then bit_and (bit_or (x << n) (x >> (width - n))) (mask_of width) else x

unfoldable pub rotate_right : (width n x : ℕ) → ℕ
rotate_right width n x =
    if truthy n then bit_and (bit_or (x >> n) (x << (width - n))) (mask_of width) else x

-- The result before the last mask, and the carry, of a non-zero count; `none` is the
-- UnsupportedInstruction of group 6.
unfoldable pub shifted : (group orig count bits flags : ℕ) → Option (ℕ × ℕ)
shifted group orig count bits f =
    let mask = mask_of bits in
    let sign = bit_and (orig >> (bits - 1)) 1 in
    let width = bits + 1 in
    let combined = bit_or (bit_and f cf << bits) orig in
    if group == 4
    then if leb count bits
      then some (bit_and (orig << count) mask, bit_and (orig >> (bits - count)) 1)
      else some (0, 0)
    else if group == 5
    then if leb count bits
      then some (orig >> count, bit_and (orig >> (count - 1)) 1)
      else some (0, 0)
    else if group == 7
    then if leb bits count
      then some (if truthy sign then mask else 0, sign)
      else some (
        and_mask (shift_right_ℤ (if truthy sign then sub_ℕ orig (1 << bits) else pos orig) count)
            mask,
        bit_and (orig >> (count - 1)) 1,
      )
    else if group == 0
    then (let res = rotate_left bits (count % bits) orig in some (res, bit_and res 1))
    else if group == 1
    then (let res = rotate_right bits (count % bits) orig in
        some (res, bit_and (res >> (bits - 1)) 1))
    else if group == 2
    then (let turned = rotate_left width (count % width) combined in
        some (bit_and turned mask, bit_and (turned >> bits) 1))
    else if group == 3
    then (let turned = rotate_right width (count % width) combined in
        some (bit_and turned mask, bit_and (turned >> bits) 1))
    else none

-- The overflow flag of a shift by one. At width one, `res >> (bits - 2)` is the ValueError of a
-- negative shift count.
unfoldable pub shift_overflow : (group orig res carry bits : ℕ) → Result ℕ
shift_overflow group orig res carry bits =
    let msb = bit_and (res >> (bits - 1)) 1 in
    if group == 4
    then ok (bit_xor (bit_and (orig >> (bits - 1)) 1) msb)
    else if group == 5
    then ok (bit_and (orig >> (bits - 1)) 1)
    else if group == 7
    then ok 0
    else if group == 0
    then ok (bit_xor msb (bit_and res 1))
    else if group == 2
    then ok (bit_xor msb carry)
    else if ltb bits 2
    then err value_error
    else ok (bit_xor msb (bit_and (res >> (bits - 2)) 1))

-- `if of: f |= OF else: f &= ~OF`
unfoldable pub put_overflow : (overflow flags : ℕ) → ℕ
put_overflow overflow f = if truthy overflow then bit_or f of else bit_clear f of

-- CF, and ZF, SF and PF of the shifts that are no rotates.
unfoldable pub shift_status : (group res carry bits flags : ℕ) → ℕ
shift_status group res carry bits flags =
    let f0 = bit_or (bit_clear flags cf) carry in
    let arithmetic = group == 4 || group == 5 || group == 7 in
    let g0 = bit_clear f0 (bit_or (bit_or zf sf) pf) in
    let g1 = or_if (res == 0) zf g0 in
    let g2 = or_if (truthy (bit_and res (sign_of bits))) sf g1 in
    let g3 = or_if (parity (bit_and res 0xff)) pf g2 in if arithmetic then g3 else f0

unfoldable pub shift_flags : (group orig res carry count bits flags : ℕ) → Result ℕ
unfolding put_overflow shift_status
shift_flags group orig res carry count bits flags =
    let f1 = shift_status group res carry bits flags in
    if count == 1
    then elim (shift_overflow group orig res carry bits) [
      | err e ↦ err e
      | ok overflow ↦ ok (finish (put_overflow overflow f1))
    ]
    else ok (finish f1)

unfoldable pub shift : (group val count bits flags : ℕ) → Result (ℕ × ℕ)
shift group val count bits flags =
    let mask = mask_of bits in
    let n = bit_and count 0x1f in
    let orig = bit_and val mask in
    if n == 0 then ok (orig, flags) else elim (shifted group orig n bits flags) [
      | none ↦ err unsupported_instruction
      | some (res, carry) ↦ elim (shift_flags group orig res carry n bits flags) [
        | err e ↦ err e
        | ok f ↦ ok (bit_and res mask, f)
      ]
    ]
