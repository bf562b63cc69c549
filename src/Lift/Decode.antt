-- ===== src/Lift/Decode.antt =====
-- `decode_one` of dos_re/lift/decode.py. The mnemonics only feed reports and are left out, and so
-- is `patched_slot`, which dos_re/lift/smc.py sets; `fetch` is a function from offsets to bytes.
pub mod Table
pub mod Complete
pub mod Extent
pub mod Transfer
pub mod Whole
pub mod Target
pub mod Consumed
mod Tests
use dos_re.Prelude.{
  ℕ, zero, suc, ◌+◌, ◌-◌, ◌*◌, ◌/◌, ◌^◌, bit_and, bit_or, Bool, true, false, not, ◌&&◌, ◌||◌,
  Option, some, none, List, [], ◌∷◌, ◌++◌, ◌==◌, leb, truthy, if◌then◌else◌, length, get_or,
}
use dos_re.Prelude.Int.{ℤ, pos, sub_ℕ, and_mask, ◌+ℤ◌}
use dos_re.Cpu.Regs.{SegReg, es, cs, ss, ds}
use dos_re.Lift.Decode.Table.{
  Kind, seq, jcc, jmp, jmp_far, jmp_ind, call, call_far, call_ind, ret, retf, iret, int, hlt,
  unsupported, ImmSpec, plain, grp3b, grp3w, Entry, entry_of,
}

-- `PREFIXES`
unfoldable pub is_prefix : ℕ → Bool
is_prefix b =
    b == 0x26 || b == 0x2e || b == 0x36 || b == 0x3e || b == 0xf0 || b == 0xf2 || b == 0xf3

abbrev pub max_len : ℕ
max_len = 15

pub record Inst : Type 0 where
  pub ip : ℕ
  pub length : ℕ
  pub kind : Kind
  pub raw : List ℕ
  pub target : Option ℕ
  pub far_target : Option (ℕ × ℕ)
  pub int_no : Option ℕ
  pub prefixes : List ℕ
  pub op : ℕ
  pub modrm : Option ℕ
  pub disp : Option ℤ
  pub imm : Option ℕ

unfoldable pub next_ip : Inst → ℕ
next_ip i = bit_and (i.ip + i.length) 0xffff

unfoldable pub modrm_disp_len : ℕ → ℕ
modrm_disp_len modrm =
    let mode = modrm / 2 ^ 6 in
    let rm = bit_and modrm 7 in
    if mode == 0
    then (if rm == 6 then 2 else 0)
    else if mode == 1
    then 1
    else if mode == 2
    then 2
    else 0

-- `fetch(pos) & 0xFF`, and the little-endian word at a place.
unfoldable pub byte_at : (ℕ → ℕ) → ℕ → ℕ
byte_at fetch at = bit_and (fetch at) 0xff

unfoldable pub word_of : (ℕ → ℕ) → ℕ → ℕ
unfolding byte_at
word_of fetch at = bit_or (byte_at fetch at) (byte_at fetch (bit_and (at + 1) 0xffff) * 2 ^ 8)

-- `bytes(fetch((ip + i) & 0xFFFF) & 0xFF for i in range(n))`, from the index i on
unfoldable pub raw_bytes : (ℕ → ℕ) → ℕ → ℕ → ℕ → List ℕ
unfolding byte_at
raw_bytes fetch ip i zero = []
raw_bytes fetch ip i (suc n) =
    byte_at fetch (bit_and (ip + i) 0xffff) ∷ raw_bytes fetch ip (suc i) n

-- The prefix loop with n rounds to go: the prefixes and the place behind them, or the overrun.
unfoldable pub scan : (ℕ → ℕ) → ℕ → ℕ → List ℕ → Option (List ℕ × ℕ)
unfolding is_prefix byte_at
scan fetch zero at prefixes = none
scan fetch (suc n) at prefixes =
    let b = byte_at fetch at in
    let rest = scan fetch n (bit_and (at + 1) 0xffff) (prefixes ++ (b ∷ [])) in
    if is_prefix b then rest else some (prefixes, at)

-- The displacement behind a ModR/M byte.
unfoldable pub disp_at : (ℕ → ℕ) → (modrm at : ℕ) → Option ℤ
unfolding modrm_disp_len byte_at word_of
disp_at fetch modrm at =
    let dlen = modrm_disp_len modrm in
    let d = byte_at fetch at in
    let w = word_of fetch at in
    if dlen == 1
    then some (if truthy (bit_and d 0x80) then sub_ℕ d 0x100 else pos d)
    else if dlen == 2
    then some (
        if modrm / 2 ^ 6 == 0
        then pos w
        else if truthy (bit_and w 0x8000)
        then sub_ℕ w 0x10000
        else pos w)
    else none

-- What follows the opcode up to the immediate: `modrm`, `disp` and the place of the immediate.
pub record Operand : Type 0 where
  pub modrm : Option ℕ
  pub disp : Option ℤ
  pub imm_pos : ℕ

unfoldable pub operand_at : (ℕ → ℕ) → Bool → ℕ → Operand
unfolding disp_at modrm_disp_len byte_at
operand_at fetch false at = record { modrm = none; disp = none; imm_pos = at }
operand_at fetch true at =
    let modrm = byte_at fetch at in
    let behind = bit_and (at + 1) 0xffff in
    record {
      modrm = some modrm;
      disp = disp_at fetch modrm behind;
      imm_pos = bit_and (behind + modrm_disp_len modrm) 0xffff;
    }

-- `(modrm >> 3) & 7`
unfoldable pub reg_of : ℕ → ℕ
reg_of modrm = bit_and (modrm / 2 ^ 3) 7

-- `modrm is not None and ((modrm >> 3) & 7) in (0, 1)`
unfoldable pub reg_is_0_or_1 : Option ℕ → Bool
unfolding reg_of
reg_is_0_or_1 none = false
reg_is_0_or_1 (some modrm) = reg_of modrm == 0 || reg_of modrm == 1

unfoldable pub imm_length : ImmSpec → Option ℕ → ℕ
unfolding reg_is_0_or_1
imm_length (plain n) modrm = n
imm_length grp3b modrm = if reg_is_0_or_1 modrm then 1 else 0
imm_length grp3w modrm = if reg_is_0_or_1 modrm then 2 else 0

unfoldable pub immediate_at : (ℕ → ℕ) → ℕ → ℕ → Option ℕ
unfolding byte_at word_of
immediate_at fetch n at =
    if n == 1 then some (byte_at fetch at) else if n == 2 then some (word_of fetch at) else none

-- The kinds of group 5 by the reg field.
unfoldable pub grp5_kind : ℕ → Kind
grp5_kind reg =
    if reg == 0
    then seq
    else if reg == 1
    then seq
    else if reg == 2
    then call_ind
    else if reg == 3
    then call_ind
    else if reg == 4
    then jmp_ind
    else if reg == 5
    then jmp_ind
    else if reg == 6
    then seq
    else unsupported

-- The kind after the two group fixes.
unfoldable pub fixed_kind : ℕ → Option ℕ → Kind → Kind
unfolding reg_is_0_or_1 grp5_kind reg_of
fixed_kind op none kind = kind
fixed_kind op (some modrm) kind =
    if op == 0xfe && not (reg_is_0_or_1 (some modrm))
    then unsupported
    else if op == 0xff
    then grp5_kind (reg_of modrm)
    else kind

-- `raw[-k]`, for a k of at most the length
unfoldable pub from_end : List ℕ → ℕ → ℕ
from_end raw k = get_or raw (length raw - k) 0

-- `rel`, from the last byte or the last two.
unfoldable pub relative : List ℕ → ℕ → ℤ
unfolding from_end
relative raw imm_len =
    let short = from_end raw 1 in
    let long = bit_or (from_end raw 2) (from_end raw 1 * 2 ^ 8) in
    if imm_len == 1
    then (if leb 0x80 short then sub_ℕ short 0x100 else pos short)
    else if leb 0x8000 long
    then sub_ℕ long 0x10000
    else pos long

unfoldable pub far_at : (ℕ → ℕ) → ℕ → ℕ × ℕ
far_at fetch at =
    let off = bit_or (fetch at) (fetch (bit_and (at + 1) 0xffff) * 2 ^ 8) in
    let seg = bit_or (fetch (bit_and (at + 2) 0xffff)) (fetch (bit_and (at + 3) 0xffff) * 2 ^ 8) in
    (bit_and seg 0xffff, bit_and off 0xffff)

-- `{0xCC: 3, 0xCE: 4}.get(op, raw[-1] if imm_len else None)`
unfoldable pub vector_of : ℕ → List ℕ → ℕ → Option ℕ
unfolding from_end
vector_of op raw imm_len =
    if op == 0xcc
    then some 3
    else if op == 0xce
    then some 4
    else if truthy imm_len
    then some (from_end raw 1)
    else none

-- `kind in (JCC, JMP, CALL)`, and `kind in (JMP_FAR, CALL_FAR)`
unfoldable pub is_near : Kind → Bool
is_near jcc = true
is_near jmp = true
is_near call = true
is_near _ = false

unfoldable pub is_far : Kind → Bool
is_far jmp_far = true
is_far call_far = true
is_far _ = false

unfoldable pub is_int : Kind → Bool
is_int int = true
is_int _ = false

-- `(pos - ip) & 0xFFFF`
unfoldable pub distance : ℕ → ℕ → ℕ
distance ip at = and_mask (sub_ℕ at ip) 0xffff

-- The instruction with its immediate's place and length known.
unfoldable pub assemble : (ℕ → ℕ) → ℕ → List ℕ → ℕ → Operand → ℕ → Kind → Inst
unfolding distance raw_bytes relative is_near is_far is_int far_at vector_of immediate_at
assemble fetch ip prefixes op o imm_len kind =
    let length = distance ip (bit_and (o.imm_pos + imm_len) 0xffff) in
    let raw = raw_bytes fetch ip 0 length in
    record {
      ip = ip;
      length = length;
      kind = kind;
      raw = raw;
      target =
          if is_near kind
          then some (and_mask (pos (ip + length) +ℤ relative raw imm_len) 0xffff)
          else none;
      far_target = if is_far kind then some (far_at fetch o.imm_pos) else none;
      int_no = if is_int kind then vector_of op raw imm_len else none;
      prefixes = prefixes;
      op = op;
      modrm = o.modrm;
      disp = o.disp;
      imm = immediate_at fetch imm_len o.imm_pos;
    }

-- An instruction that is not supported, with the fields left at their defaults.
unfoldable pub unsupported_inst : (ℕ → ℕ) → ℕ → ℕ → List ℕ → ℕ → Inst
unfolding raw_bytes
unsupported_inst fetch ip length prefixes op = record {
  ip = ip;
  length = length;
  kind = unsupported;
  raw = raw_bytes fetch ip 0 length;
  target = none;
  far_target = none;
  int_no = none;
  prefixes = prefixes;
  op = op;
  modrm = none;
  disp = none;
  imm = none;
}

-- The part of `decode_one` behind the prefixes, with the opcode's entry.
unfoldable pub decode_entry : (ℕ → ℕ) → ℕ → List ℕ → (op at : ℕ) → Option Entry → Inst
unfolding unsupported_inst assemble operand_at imm_length fixed_kind distance
decode_entry fetch ip prefixes op at none = unsupported_inst fetch ip (distance ip at) prefixes op
decode_entry fetch ip prefixes op at (some entry) =
    let o = operand_at fetch entry.has_modrm at in
    assemble fetch ip prefixes op o (imm_length entry.imm o.modrm)
      (fixed_kind op o.modrm entry.kind)

unfoldable pub decode_behind : (ℕ → ℕ) → ℕ → Option (List ℕ × ℕ) → Inst
unfolding unsupported_inst decode_entry byte_at
decode_behind fetch ip none = unsupported_inst fetch ip max_len [] 0
decode_behind fetch ip (some (prefixes, at)) =
    let op = byte_at fetch at in
    decode_entry fetch ip prefixes op (bit_and (at + 1) 0xffff) (entry_of op)

unfoldable pub decode_one : (ℕ → ℕ) → ℕ → Inst
unfolding decode_behind scan
decode_one fetch ip = decode_behind fetch ip (scan fetch max_len ip [])

unfoldable pub mode_of : Inst → Option ℕ
mode_of i = elim i.modrm [ none ↦ none | some b ↦ some (b / 2 ^ 6) ]

unfoldable pub reg_field : Inst → Option ℕ
unfolding reg_of
reg_field i = elim i.modrm [ none ↦ none | some b ↦ some (reg_of b) ]

unfoldable pub rm_field : Inst → Option ℕ
rm_field i = elim i.modrm [ none ↦ none | some b ↦ some (bit_and b 7) ]

-- `_SEG_PREFIX`
unfoldable pub segment_of : ℕ → Option SegReg
segment_of p =
    if p == 0x26
    then some es
    else if p == 0x2e
    then some cs
    else if p == 0x36
    then some ss
    else if p == 0x3e
    then some ds
    else none

-- The last segment prefix of a list, and `found` where it has none.
unfoldable pub last_segment : List ℕ → Option SegReg → Option SegReg
unfolding segment_of
last_segment [] found = found
last_segment (p ∷ ps) found =
    last_segment ps (elim (segment_of p) [ none ↦ found | some s ↦ some s ])

unfoldable pub seg_override : Inst → Option SegReg
unfolding last_segment
seg_override i = last_segment i.prefixes none

-- The first of the prefixes 0xF2 and 0xF3.
unfoldable pub first_rep : List ℕ → Option ℕ
first_rep [] = none
first_rep (p ∷ ps) = let later = first_rep ps in if p == 0xf2 || p == 0xf3 then some p else later

unfoldable pub rep : Inst → Option ℕ
unfolding first_rep
rep i = first_rep i.prefixes
