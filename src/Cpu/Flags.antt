-- ===== src/Cpu/Flags.antt =====
-- The flag helpers of `CPU8086`: set_flag, get_flag, daa's flag part, set_logic_flags,
-- set_add_flags, set_sub_flags and set_incdec_flags. A method that only rewrites `self.s.flags`
-- is a function from the old flags word to the new one.
pub mod Chain
use dos_re.Prelude.{
  ℕ, ◌+◌, ◌-◌, ◌^◌, bit_and, bit_or, bit_xor, Bool, true, false, ◌==◌, ltb, truthy, if◌then◌else◌,
}
use dos_re.Prelude.Int.{ℤ, is_negative, and_mask}
use dos_re.Prelude.Bits.{bit_clear}
use dos_re.X86.{cf, pf, af, zf, sf, of, parity}

-- `if c: f |= flag`
unfoldable pub or_if : Bool → ℕ → ℕ → ℕ
or_if c flag f = if c then bit_or f flag else f

-- `(f | 0x0002) & 0x0FFF`
unfoldable pub finish : ℕ → ℕ
finish f = bit_and (bit_or f 0x0002) 0x0fff

unfoldable pub set_flag : ℕ → Bool → ℕ → ℕ
set_flag flag value flags = finish (if value then bit_or flags flag else bit_clear flags flag)

unfoldable pub get_flag : ℕ → ℕ → Bool
get_flag flag flags = truthy (bit_and flags flag)

-- `1 << (bits - 1)` and `(1 << bits) - 1`
abbrev pub sign_of : ℕ → ℕ
sign_of bits = 2 ^ (bits - 1)

abbrev pub mask_of : ℕ → ℕ
mask_of bits = 2 ^ bits - 1

unfoldable pub set_logic_flags : (result bits flags : ℕ) → ℕ
set_logic_flags result bits flags =
    let sign = sign_of bits in
    let r = bit_and result (mask_of bits) in
    let f0 = bit_clear flags 0x08c5 in
    let f1 = or_if (r == 0) zf f0 in
    let f2 = or_if (truthy (bit_and r sign)) sf f1 in
    let f3 = or_if (parity (bit_and r 0xff)) pf f2 in finish f3

unfoldable pub set_add_flags : (a b result bits carry flags : ℕ) → ℕ
set_add_flags a b result bits carry flags =
    let mask = mask_of bits in
    let sign = sign_of bits in
    let r = bit_and result mask in
    let f0 = bit_clear flags 0x08d5 in
    let f1 = or_if (ltb mask result) cf f0 in
    let f2 = or_if (r == 0) zf f1 in
    let f3 = or_if (truthy (bit_and r sign)) sf f2 in
    let f4 = or_if (parity (bit_and r 0xff)) pf f3 in
    let f5 = or_if (ltb 0xf (bit_and a 0xf + bit_and b 0xf + carry)) af f4 in
    let f6 = or_if (truthy (bit_and (bit_clear (bit_xor a r) (bit_xor a b)) sign)) of f5 in
    finish f6

-- `result` is a - b - carry, and may be negative.
unfoldable pub set_sub_flags : (a b : ℕ) (result : ℤ) (bits carry flags : ℕ) → ℕ
set_sub_flags a b result bits carry flags =
    let mask = mask_of bits in
    let sign = sign_of bits in
    let r = and_mask result mask in
    let f0 = bit_clear flags 0x08d5 in
    let f1 = or_if (is_negative result) cf f0 in
    let f2 = or_if (r == 0) zf f1 in
    let f3 = or_if (truthy (bit_and r sign)) sf f2 in
    let f4 = or_if (parity (bit_and r 0xff)) pf f3 in
    let f5 = or_if (ltb (bit_and a 0xf) (bit_and b 0xf + carry)) af f4 in
    let f6 = or_if (truthy (bit_and (bit_and (bit_xor a b) (bit_xor a r)) sign)) of f5 in finish f6

unfoldable pub set_incdec_flags : (old res bits : ℕ) → Bool → (flags : ℕ) → ℕ
set_incdec_flags old res bits dec flags =
    let sign = sign_of bits in
    let f0 = bit_clear flags 0x08d4 in
    let f1 = or_if (res == 0) zf f0 in
    let f2 = or_if (truthy (bit_and res sign)) sf f1 in
    let f3 = or_if (parity (bit_and res 0xff)) pf f2 in
    let f4 = or_if (bit_and old 0xf == (if dec then 0 else 0xf)) af f3 in
    let f5 = or_if (if dec then old == sign else res == sign) of f4 in finish f5
