-- ===== src/Lift/Decode/Table.antt =====
-- The opcode table of dos_re/lift/decode.py, as the assignments that fill it, in their order.
use dos_re.Prelude.{
  ℕ, ◌+◌, Bool, true, false, ◌&&◌, Option, some, none, List, [], ◌∷◌, ◌++◌, leb, if◌then◌else◌,
}

pub data Kind : Type 0 where
  seq jcc jmp jmp_far jmp_ind call call_far call_ind ret retf iret int hlt unsupported : Kind

-- `imm_bytes`: a number of bytes, or the two cases of group 3.
pub data ImmSpec : Type 0 where
  plain : ℕ → ImmSpec
  grp3b grp3w : ImmSpec

pub record Entry : Type 0 where
  pub has_modrm : Bool
  pub imm : ImmSpec
  pub kind : Kind

-- `_T[op] = entry` for the opcodes from `first` to `last`.
pub record Row : Type 0 where
  pub first : ℕ
  pub last : ℕ
  pub entry : Entry

abbrev fill : ℕ → ℕ → Bool → ImmSpec → Kind → Row
fill first last has_modrm imm kind = record {
  first = first;
  last = last;
  entry = record { has_modrm = has_modrm; imm = imm; kind = kind };
}

abbrev one : ℕ → Bool → ImmSpec → Kind → Row
one op = fill op op

-- The six encodings of an ALU group.
abbrev alu_rows : ℕ → List Row
alu_rows base =
    fill base (base + 3) true (plain 0) seq
    ∷ one (base + 4) false (plain 1) seq
    ∷ one (base + 5) false (plain 2) seq
    ∷ []

-- Between the ALU groups, and the 286 escape.
abbrev slots : List Row
slots =
    one 0x06 false (plain 0) seq
    ∷ one 0x07 false (plain 0) seq
    ∷ one 0x0e false (plain 0) seq
    ∷ one 0x16 false (plain 0) seq
    ∷ one 0x17 false (plain 0) seq
    ∷ one 0x1e false (plain 0) seq
    ∷ one 0x1f false (plain 0) seq
    ∷ one 0x27 false (plain 0) seq
    ∷ one 0x2f false (plain 0) seq
    ∷ one 0x37 false (plain 0) seq
    ∷ one 0x3f false (plain 0) seq
    ∷ one 0x0f false (plain 0) unsupported
    ∷ []

-- 0x40 to 0x7f.
abbrev rows_40 : List Row
rows_40 =
    fill 0x40 0x47 false (plain 0) seq
    ∷ fill 0x48 0x4f false (plain 0) seq
    ∷ fill 0x50 0x57 false (plain 0) seq
    ∷ fill 0x58 0x5f false (plain 0) seq
    ∷ one 0x60 false (plain 0) seq
    ∷ one 0x61 false (plain 0) seq
    ∷ one 0x62 true (plain 0) seq
    ∷ one 0x63 true (plain 0) unsupported
    ∷ fill 0x64 0x67 false (plain 0) unsupported
    ∷ one 0x68 false (plain 2) seq
    ∷ one 0x69 true (plain 2) seq
    ∷ one 0x6a false (plain 1) seq
    ∷ one 0x6b true (plain 1) seq
    ∷ fill 0x6c 0x6f false (plain 0) seq
    ∷ fill 0x70 0x7f false (plain 1) jcc
    ∷ []

-- 0x80 to 0xbf.
abbrev rows_80 : List Row
rows_80 =
    one 0x80 true (plain 1) seq
    ∷ one 0x81 true (plain 2) seq
    ∷ one 0x82 true (plain 1) seq
    ∷ one 0x83 true (plain 1) seq
    ∷ one 0x84 true (plain 0) seq
    ∷ one 0x85 true (plain 0) seq
    ∷ one 0x86 true (plain 0) seq
    ∷ one 0x87 true (plain 0) seq
    ∷ fill 0x88 0x8b true (plain 0) seq
    ∷ one 0x8c true (plain 0) seq
    ∷ one 0x8d true (plain 0) seq
    ∷ one 0x8e true (plain 0) seq
    ∷ one 0x8f true (plain 0) seq
    ∷ fill 0x90 0x97 false (plain 0) seq
    ∷ one 0x98 false (plain 0) seq
    ∷ one 0x99 false (plain 0) seq
    ∷ one 0x9a false (plain 4) call_far
    ∷ one 0x9b false (plain 0) seq
    ∷ one 0x9c false (plain 0) seq
    ∷ one 0x9d false (plain 0) seq
    ∷ one 0x9e false (plain 0) seq
    ∷ one 0x9f false (plain 0) seq
    ∷ fill 0xa0 0xa3 false (plain 2) seq
    ∷ fill 0xa4 0xa7 false (plain 0) seq
    ∷ one 0xa8 false (plain 1) seq
    ∷ one 0xa9 false (plain 2) seq
    ∷ fill 0xaa 0xaf false (plain 0) seq
    ∷ fill 0xb0 0xb7 false (plain 1) seq
    ∷ fill 0xb8 0xbf false (plain 2) seq
    ∷ []

-- 0xc0 to 0xff.
abbrev rows_c0 : List Row
rows_c0 =
    one 0xc0 true (plain 1) seq
    ∷ one 0xc1 true (plain 1) seq
    ∷ one 0xc2 false (plain 2) ret
    ∷ one 0xc3 false (plain 0) ret
    ∷ one 0xc4 true (plain 0) seq
    ∷ one 0xc5 true (plain 0) seq
    ∷ one 0xc6 true (plain 1) seq
    ∷ one 0xc7 true (plain 2) seq
    ∷ one 0xc8 false (plain 3) seq
    ∷ one 0xc9 false (plain 0) seq
    ∷ one 0xca false (plain 2) retf
    ∷ one 0xcb false (plain 0) retf
    ∷ one 0xcc false (plain 0) int
    ∷ one 0xcd false (plain 1) int
    ∷ one 0xce false (plain 0) int
    ∷ one 0xcf false (plain 0) iret
    ∷ fill 0xd0 0xd3 true (plain 0) seq
    ∷ one 0xd4 false (plain 1) seq
    ∷ one 0xd5 false (plain 1) seq
    ∷ one 0xd6 false (plain 0) unsupported
    ∷ one 0xd7 false (plain 0) seq
    ∷ fill 0xd8 0xdf true (plain 0) seq
    ∷ one 0xe0 false (plain 1) jcc
    ∷ one 0xe1 false (plain 1) jcc
    ∷ one 0xe2 false (plain 1) jcc
    ∷ one 0xe3 false (plain 1) jcc
    ∷ one 0xe4 false (plain 1) seq
    ∷ one 0xe5 false (plain 1) seq
    ∷ one 0xe6 false (plain 1) seq
    ∷ one 0xe7 false (plain 1) seq
    ∷ one 0xe8 false (plain 2) call
    ∷ one 0xe9 false (plain 2) jmp
    ∷ one 0xea false (plain 4) jmp_far
    ∷ one 0xeb false (plain 1) jmp
    ∷ one 0xec false (plain 0) seq
    ∷ one 0xed false (plain 0) seq
    ∷ one 0xee false (plain 0) seq
    ∷ one 0xef false (plain 0) seq
    ∷ one 0xf1 false (plain 0) unsupported
    ∷ one 0xf4 false (plain 0) hlt
    ∷ one 0xf5 false (plain 0) seq
    ∷ one 0xf6 true grp3b seq
    ∷ one 0xf7 true grp3w seq
    ∷ fill 0xf8 0xfd false (plain 0) seq
    ∷ one 0xfe true (plain 0) seq
    ∷ one 0xff true (plain 0) seq
    ∷ []

abbrev pub rows : List Row
rows =
    alu_rows 0x00
    ++ (alu_rows 0x08
        ++ (alu_rows 0x10
            ++ (alu_rows 0x18
                ++ (alu_rows 0x20
                    ++ (alu_rows 0x28
                        ++ (alu_rows 0x30
                            ++ (alu_rows 0x38 ++ (slots ++ (rows_40 ++ (rows_80 ++ rows_c0))))))))))

-- The entry that the last assignment to an opcode leaves.
unfoldable pub last_entry : List Row → ℕ → Option Entry → Option Entry
last_entry [] op found = found
last_entry (r ∷ rs) op found =
    last_entry rs op (if leb r.first op && leb op r.last then some r.entry else found)

-- `_T.get(op)`
unfoldable pub entry_of : ℕ → Option Entry
unfolding last_entry
entry_of op = last_entry rows op none
