-- ===== src/Lift/Decode/Target.antt =====
-- The targets that `decode_one` of dos_re/lift/decode.py gives to near transfers.
use dos_re.Prelude.{
  ℕ, ◌+◌, ◌/◌, ◌^◌, ◌<◌, ◌≤◌, bit_and, Bool, true, false, not, ◌&&◌, Option, some, none, List, ◌==◌,
  if◌then◌else◌, ◌≡◌, refl, sym, ap, ◌∙◌, subst, arith, Bool-cases, inl, inr, ◌⊎◌, all_below,
  all_below_sound,
}
use mathlib.Core.Bool.{true≢false}
use dos_re.Prelude.Int.{pos, and_mask, ◌+ℤ◌}
use dos_re.Prelude.Bits.{bit_and_mask}
use dos_re.Cpu.Machine.Address.{sign8, sign16, displaced}
use dos_re.Lift.Decode.{
  Inst, Operand, is_near, byte_at, word_of, raw_bytes, relative, immediate_at, operand_at,
  imm_length, fixed_kind, reg_of, grp5_kind, reg_is_0_or_1, assemble, unsupported_inst,
  decode_entry, decode_one,
}
use dos_re.Lift.Decode.Table.{Kind, ImmSpec, plain, grp3b, grp3w, Entry}
use dos_re.Lift.Decode.Complete.{row_ok-shape, well_shaped, near_length, not-true, well_shaped-near}
use dos_re.Lift.Decode.Extent.{operand_at-place}
use dos_re.Lift.Decode.Transfer.{relative-byte, relative-word}
use dos_re.Lift.Decode.Whole.{Way, decode_one-Way, assemble-length, opcode}

-- Where control goes: the immediate, of a word for call and jmp and of a byte for the others, is
-- added as a signed number to the offset behind the instruction.
unfoldable pub Reaches : Inst → Type 0
Reaches i =
    (d : ℕ) × (i.imm ≡ some d)
    × (i.target
        ≡ some (displaced (i.ip + i.length) (if near_length i.op == 1 then sign8 d else sign16 d)))

unfoldable pub ReachesIfNear : Inst → Type 0
unfolding Reaches
ReachesIfNear i = is_near i.kind ≡ true → Reaches i

grp5_kind-all : all_below 8 (λ r. not (is_near (grp5_kind r))) ≡ true
unfolding all_below is_near grp5_kind
grp5_kind-all = refl

reg_of-lt : (modrm : ℕ) → reg_of modrm < 8
unfolding reg_of
reg_of-lt modrm = omega (arith, bit_and_mask 3 (modrm / 2 ^ 3))

fixed_some-near :
    (op modrm : ℕ) (kind : Kind)
    → is_near (fixed_kind op (some modrm) kind) ≡ true
    → is_near kind ≡ true
unfolding fixed_kind is_near
fixed_some-near op modrm kind =
    let r = reg_of modrm in
    let other : is_near (grp5_kind r) ≡ false =
      not-true (is_near (grp5_kind r))
        (all_below_sound 8 (λ r. not (is_near (grp5_kind r))) r grp5_kind-all (reg_of-lt modrm)) in
    elim (Bool-cases (op == 0xfe && not (reg_is_0_or_1 (some modrm)))) [
      | inl c ↦ rw c (λ h. absurd (true≢false (sym h)))
      | inr c ↦ rw c (elim (Bool-cases (op == 0xff)) [
        | inl g ↦ rw g (λ h. absurd (true≢false (sym h ∙ other)))
        | inr g ↦ rw g (λ h. h)
      ])
    ]

-- The group fixes make no near transfer.
fixed_kind-near :
    (op : ℕ) (modrm : Option ℕ) (kind : Kind)
    → is_near (fixed_kind op modrm kind) ≡ true
    → is_near kind ≡ true
unfolding fixed_kind is_near
fixed_kind-near op none kind h = h
fixed_kind-near op (some modrm) kind h = fixed_some-near op modrm kind h

near_shape :
    (op : ℕ) (b : Bool) (imm : ImmSpec)
    → (not b && elim imm [ plain n ↦ n == near_length op | _ ↦ false ]) ≡ true
    → (b ≡ false) × (imm ≡ plain (near_length op))
near_shape op false (plain n) h = (refl, ap plain (ground arith))
near_shape op false grp3b h = absurd (true≢false (sym h))
near_shape op false grp3w h = absurd (true≢false (sym h))
near_shape op true imm h = absurd (true≢false (sym h))

near_length-cases : (op : ℕ) → (near_length op ≡ 1) ⊎ (near_length op ≡ 2)
near_length-cases op = ground arith

-- The target, from the bytes that the length says.
assemble-target :
    (fetch : ℕ → ℕ) (ip : ℕ) (ps : List ℕ) (op : ℕ) (o : Operand) (n len : ℕ) (kind : Kind)
    → is_near kind ≡ true
    → (assemble fetch ip ps op o n kind).length ≡ len
    → (assemble fetch ip ps op o n kind).target
      ≡ some (
          displaced
            (ip + (assemble fetch ip ps op o n kind).length)
            (relative (raw_bytes fetch ip 0 len) n))
unfolding assemble displaced
assemble-target fetch ip ps op o n len kind near size =
    ap
      (λ b.
        if b
        then some (
            and_mask
              (pos (ip + (assemble fetch ip ps op o n kind).length)
                +ℤ relative (raw_bytes fetch ip 0 (assemble fetch ip ps op o n kind).length) n)
              0xffff)
        else none)
      near
    ∙ ap
        (λ l. some (
          displaced (ip + (assemble fetch ip ps op o n kind).length)
            (relative (raw_bytes fetch ip 0 l) n)))
        size

assemble-Reaches :
    (fetch : ℕ → ℕ) (ip : ℕ) (ps : List ℕ) (op : ℕ) (o : Operand) (n s : ℕ) (kind : Kind)
    → ip < 65536
    → s < 65000
    → o.imm_pos ≡ bit_and (ip + s) 0xffff
    → n ≡ near_length op
    → is_near kind ≡ true
    → Reaches (assemble fetch ip ps op o n kind)
unfolding Reaches assemble immediate_at
assemble-Reaches fetch ip ps op o n s kind h room at size near = elim (near_length-cases op) [
  | inl short ↦
      let d = byte_at fetch o.imm_pos in
      let one : n ≡ 1 = size ∙ short in
      let i = assemble fetch ip ps op o n kind in
      let len : i.length ≡ s + n = assemble-length fetch ip ps op o n s kind h (omega arith) at in
      (
        d,
        ap (λ n. immediate_at fetch n o.imm_pos) one,
        assemble-target fetch ip ps op o n (s + n) kind near len
            ∙ ap (λ t. some (displaced (ip + i.length) (relative (raw_bytes fetch ip 0 (s + t)) t)))
                one
            ∙ ap (λ x. some (displaced (ip + i.length) x))
                (relative-byte fetch ip s ∙ ap (λ a. sign8 (byte_at fetch a)) (sym at))
            ∙ ap (λ q. some (displaced (ip + i.length) (if q == 1 then sign8 d else sign16 d)))
                (sym short),
      )
  | inr long ↦
      let d = word_of fetch o.imm_pos in
      let two : n ≡ 2 = size ∙ long in
      let i = assemble fetch ip ps op o n kind in
      let len : i.length ≡ s + n = assemble-length fetch ip ps op o n s kind h (omega arith) at in
      (
        d,
        ap (λ n. immediate_at fetch n o.imm_pos) two,
        assemble-target fetch ip ps op o n (s + n) kind near len
            ∙ ap (λ t. some (displaced (ip + i.length) (relative (raw_bytes fetch ip 0 (s + t)) t)))
                two
            ∙ ap (λ x. some (displaced (ip + i.length) x))
                (relative-word fetch ip s ∙ ap (λ a. sign16 (word_of fetch a)) (sym at))
            ∙ ap (λ q. some (displaced (ip + i.length) (if q == 1 then sign8 d else sign16 d)))
                (sym long),
      )
]

entry-ReachesIfNear :
    (fetch : ℕ → ℕ) (ip k op : ℕ) (e : Entry)
    → ip < 65536
    → k < 15
    → well_shaped op e ≡ true
    → ReachesIfNear
        (decode_entry fetch ip (raw_bytes fetch ip 0 k) op (bit_and (ip + (k + 1)) 0xffff) (some e))
unfolding ReachesIfNear decode_entry
entry-ReachesIfNear fetch ip k op e h lt shaped near =
    let o = operand_at fetch e.has_modrm (bit_and (ip + (k + 1)) 0xffff) in
    let (m, small, at) = operand_at-place fetch e.has_modrm ip (k + 1) in
    let shape =
      near_shape op e.has_modrm e.imm
        (well_shaped-near op e shaped (fixed_kind-near op o.modrm e.kind near)) in
    let bare : m ≤ 0 = subst (λ b. m ≤ (if b then 3 else 0)) shape.0 small in
    assemble-Reaches fetch ip (raw_bytes fetch ip 0 k) op o (imm_length e.imm o.modrm) (k + 1 + m)
      (fixed_kind op o.modrm e.kind) h (omega arith) at (ap (λ s. imm_length s o.modrm) shape.1)
      near

-- A conditional or unconditional near jump, a loop or a call goes where the immediate says, added
-- as a signed byte or word to the offset behind the instruction, modulo 2^16.
pub decode_one-Reaches :
    (fetch : ℕ → ℕ) (ip : ℕ)
    → ip < 65536
    → is_near (decode_one fetch ip).kind ≡ true
    → Reaches (decode_one fetch ip)
unfolding ReachesIfNear Way unsupported_inst is_near
decode_one-Reaches fetch ip h = elim (decode_one-Way fetch ip h) [
  | inl same ↦ subst ReachesIfNear (sym same) (λ near. absurd (true≢false (sym near)))
  | inr (k, e, lt, row, same) ↦ subst ReachesIfNear (sym same) (
      entry-ReachesIfNear fetch ip k (opcode fetch ip k) e h lt
        (row_ok-shape (opcode fetch ip k) e row))
]
