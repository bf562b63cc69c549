-- ===== src/Cpu/Alu.antt =====
-- `CPU8086.alu`, `condition` and the INC/DEC forms of dos_re/cpu.py. The operation's name, which
-- `alu` returns for traces, is left out.
pub mod Word
pub mod Arith
pub mod Condition
pub mod Results
pub mod Compare
pub mod IncDec
pub mod Logic
use dos_re.Prelude.{
  ℕ, ◌+◌, ◌-◌, ◌^◌, bit_and, bit_or, bit_xor, Bool, true, false, not, ◌&&◌, ◌||◌, Option, some,
  none, ◌==◌, truthy, from_bool, if◌then◌else◌,
}
use dos_re.Prelude.Int.{ℤ, sub_ℕ, and_mask}
use dos_re.X86.{cf, pf, zf, sf, of}
use dos_re.Cpu.Flags.{get_flag, mask_of, set_add_flags, set_sub_flags, set_logic_flags}

-- The masked result and the new flags; `none` is the AssertionError on a group above 7.
unfoldable pub alu : (group a b bits flags : ℕ) → Option (ℕ × ℕ)
alu group a b bits flags =
    let mask = mask_of bits in
    let carry = from_bool (get_flag cf flags) in
    if group == 0
    then some (bit_and (a + b) mask, set_add_flags a b (a + b) bits 0 flags)
    else if group == 1
    then some (bit_and (bit_or a b) mask, set_logic_flags (bit_or a b) bits flags)
    else if group == 2
    then some (bit_and (a + b + carry) mask, set_add_flags a b (a + b + carry) bits carry flags)
    else if group == 3
    then some (
      and_mask (sub_ℕ a (b + carry)) mask,
      set_sub_flags a b (sub_ℕ a (b + carry)) bits carry flags,
    )
    else if group == 4
    then some (bit_and (bit_and a b) mask, set_logic_flags (bit_and a b) bits flags)
    else if group == 5
    then some (and_mask (sub_ℕ a b) mask, set_sub_flags a b (sub_ℕ a b) bits 0 flags)
    else if group == 6
    then some (bit_and (bit_xor a b) mask, set_logic_flags (bit_xor a b) bits flags)
    else if group == 7
    then some (and_mask (sub_ℕ a b) mask, set_sub_flags a b (sub_ℕ a b) bits 0 flags)
    else none

-- `sf != of` on Python's bools.
abbrev pub differ : Bool → Bool → Bool
differ true b = not b
differ false b = b

unfoldable pub condition : (cond flags : ℕ) → Bool
unfolding get_flag
condition cond f =
    let s = truthy (bit_and f sf) in
    let o = truthy (bit_and f of) in
    if cond == 0x0
    then truthy (bit_and f of)
    else if cond == 0x1
    then not (truthy (bit_and f of))
    else if cond == 0x2
    then truthy (bit_and f cf)
    else if cond == 0x3
    then not (truthy (bit_and f cf))
    else if cond == 0x4
    then truthy (bit_and f zf)
    else if cond == 0x5
    then not (truthy (bit_and f zf))
    else if cond == 0x6
    then truthy (bit_and f (bit_or cf zf))
    else if cond == 0x7
    then not (truthy (bit_and f (bit_or cf zf)))
    else if cond == 0x8
    then truthy (bit_and f sf)
    else if cond == 0x9
    then not (truthy (bit_and f sf))
    else if cond == 0xa
    then truthy (bit_and f pf)
    else if cond == 0xb
    then not (truthy (bit_and f pf))
    else if cond == 0xc
    then differ s o
    else if cond == 0xd
    then not (differ s o)
    else if cond == 0xe
    then truthy (bit_and f zf) || differ s o
    else not (truthy (bit_and f zf)) && not (differ s o)
