-- ===== src/Lift/Decode/Whole.antt =====
-- `decode_one` of dos_re/lift/decode.py as a whole: its two ways, and the extent of the instruction.
use dos_re.Prelude.{
  ℕ, zero, ◌+◌, ◌<◌, ◌≤◌, bit_and, Bool, true, false, Option, some, none, List, [], leb,
  if◌then◌else◌, ◌≡◌, refl, sym, ap, ◌∙◌, subst, leb→le, arith, Option-cases, inl, inr, ◌⊎◌,
}
use mathlib.Core.Bool.{true≢false}
use dos_re.Lift.Decode.{
  Inst, Operand, max_len, byte_at, raw_bytes, scan, operand_at, imm_length, distance, fixed_kind,
  assemble, unsupported_inst, decode_entry, decode_behind, decode_one,
}
use dos_re.Lift.Decode.Table.{Kind, ImmSpec, plain, grp3b, grp3w, Entry, entry_of}
use dos_re.Lift.Decode.Complete.{
  row_ok, row_ok-entry_of, row_ok-shape, well_shaped, well_shaped-short, entry_of-none_iff,
}
use dos_re.Lift.Decode.Extent.{Scanned, scan-Scanned, distance-mod, further, operand_at-place}
use dos_re.Lift.Decode.Transfer.{byte_at-lt}

-- The opcode behind k prefixes.
abbrev pub opcode : (ℕ → ℕ) → ℕ → ℕ → ℕ
opcode fetch ip k = byte_at fetch (bit_and (ip + k) 0xffff)

-- The two ways of the decoder: fifteen prefixes, or k of them and an opcode of the table.
unfoldable pub Way : (ℕ → ℕ) → ℕ → Inst → Type 0
Way fetch ip i =
    (i ≡ unsupported_inst fetch ip 15 [] 0)
    ⊎ ((k : ℕ) × (e : Entry) × (k < 15)
        × (row_ok (opcode fetch ip k) (some e) ≡ true)
        × (i
            ≡ decode_entry fetch ip (raw_bytes fetch ip 0 k) (opcode fetch ip k)
                (bit_and (ip + (k + 1)) 0xffff) (some e)))

decode_behind-Way :
    (fetch : ℕ → ℕ) (ip : ℕ) (o : Option (List ℕ × ℕ))
    → Scanned fetch ip 15 [] o
    → Way fetch ip (decode_behind fetch ip o)
unfolding Way decode_behind Scanned
decode_behind-Way fetch ip none h = inl refl
decode_behind-Way fetch ip (some (ps, end)) (k, lt, stop, bytes, last) =
    let op = byte_at fetch end in
    elim (Option-cases (entry_of op)) [
      | inl none_there ↦
          absurd
            (true≢false (sym ((entry_of-none_iff op (byte_at-lt fetch end)).0 none_there) ∙ last))
      | inr (e, there) ↦ inr (
        k,
        e,
        lt,
        subst (λ a. row_ok (byte_at fetch a) (some e) ≡ true) stop
            (subst (λ o. row_ok op o ≡ true) there (row_ok-entry_of op (byte_at-lt fetch end))),
        ap (decode_entry fetch ip ps op (bit_and (end + 1) 0xffff)) there
            ∙ ap (λ qs. decode_entry fetch ip qs op (bit_and (end + 1) 0xffff) (some e)) bytes
            ∙ ap
                (λ a.
                  decode_entry fetch ip (raw_bytes fetch ip 0 k) (byte_at fetch a)
                    (bit_and (a + 1) 0xffff) (some e))
                stop
            ∙ ap
                (λ a. decode_entry fetch ip (raw_bytes fetch ip 0 k) (opcode fetch ip k) a (some e))
                (further ip k 1),
      )
    ]

pub decode_one-Way : (fetch : ℕ → ℕ) (ip : ℕ) → ip < 65536 → Way fetch ip (decode_one fetch ip)
unfolding decode_one
decode_one-Way fetch ip h =
    decode_behind-Way fetch ip (scan fetch max_len ip []) (scan-Scanned fetch 15 ip [] h)

-- How an instruction lies in the code: its bytes are those from `ip` on, at least one and at most
-- twenty, and the first of them are its prefixes.
unfoldable pub Extent : (ℕ → ℕ) → ℕ → Inst → Type 0
Extent fetch ip i =
    (1 ≤ i.length)
    × (i.length ≤ 20)
    × (i.ip ≡ ip)
    × (i.raw ≡ raw_bytes fetch ip 0 i.length)
    × ((k : ℕ) × (k < i.length) × (i.prefixes ≡ raw_bytes fetch ip 0 k))

-- The length of the bytes up to the immediate, and with it.
pub assemble-length :
    (fetch : ℕ → ℕ) (ip : ℕ) (ps : List ℕ) (op : ℕ) (o : Operand) (n s : ℕ) (kind : Kind)
    → ip < 65536
    → s + n < 65536
    → o.imm_pos ≡ bit_and (ip + s) 0xffff
    → (assemble fetch ip ps op o n kind).length ≡ s + n
unfolding assemble
assemble-length fetch ip ps op o n s kind h room at =
    ap (λ t. distance ip (bit_and (t + n) 0xffff)) at
    ∙ ap (distance ip) (further ip s n)
    ∙ distance-mod ip (s + n) h room

-- An immediate is no longer than the rows say.
short-le :
    (imm : ImmSpec) (b : Bool) (modrm : Option ℕ)
    → (elim imm [ plain n ↦ leb n (if b then 2 else 4) | _ ↦ b ]) ≡ true
    → imm_length imm modrm ≤ (if b then 2 else 4)
unfolding imm_length
short-le (plain n) b modrm h = leb→le n (if b then 2 else 4) h
short-le grp3b true modrm h = ground arith
short-le grp3b false modrm h = absurd (true≢false (sym h))
short-le grp3w true modrm h = ground arith
short-le grp3w false modrm h = absurd (true≢false (sym h))

imm_length-le :
    (op : ℕ) (e : Entry) (modrm : Option ℕ)
    → well_shaped op e ≡ true
    → imm_length e.imm modrm ≤ (if e.has_modrm then 2 else 4)
imm_length-le op e modrm h = short-le e.imm e.has_modrm modrm (well_shaped-short op e h)

two_bounds : (b : Bool) (m n : ℕ) → m ≤ (if b then 3 else 0) → n ≤ (if b then 2 else 4) → m + n ≤ 5
two_bounds true m n h k = omega arith
two_bounds false m n h k = omega arith

-- The extent of an instruction whose opcode is in the table.
entry-Extent :
    (fetch : ℕ → ℕ) (ip k : ℕ) (op : ℕ) (e : Entry)
    → ip < 65536
    → k < 15
    → well_shaped op e ≡ true
    → Extent fetch ip
        (decode_entry fetch ip (raw_bytes fetch ip 0 k) op (bit_and (ip + (k + 1)) 0xffff) (some e))
unfolding Extent decode_entry assemble
entry-Extent fetch ip k op e h lt shaped =
    let o = operand_at fetch e.has_modrm (bit_and (ip + (k + 1)) 0xffff) in
    let (m, small, at) = operand_at-place fetch e.has_modrm ip (k + 1) in
    let n = imm_length e.imm o.modrm in
    let short : n ≤ (if e.has_modrm then 2 else 4) = imm_length-le op e o.modrm shaped in
    let total : m + n ≤ 5 = two_bounds e.has_modrm m n small short in
    let len =
      assemble-length fetch ip (raw_bytes fetch ip 0 k) op o n (k + 1 + m)
        (fixed_kind op o.modrm e.kind) h (omega arith) at in
    (omega (arith, len), omega (arith, len), refl, refl, (k, omega (arith, len), refl))

-- An instruction lies in its code: it has from one to twenty bytes, they are those at its place,
-- wrapping in the segment, and its prefixes come first.
pub decode_one-Extent :
    (fetch : ℕ → ℕ) (ip : ℕ) → ip < 65536 → Extent fetch ip (decode_one fetch ip)
unfolding Extent Way unsupported_inst
decode_one-Extent fetch ip h = elim (decode_one-Way fetch ip h) [
  | inl same ↦
      subst (Extent fetch ip) (sym same)
        (omega arith, omega arith, refl, refl, (zero, omega arith, refl))
  | inr (k, e, lt, row, same) ↦
      subst (Extent fetch ip) (sym same) (
        entry-Extent fetch ip k (opcode fetch ip k) e h lt (row_ok-shape (opcode fetch ip k) e row))
]
