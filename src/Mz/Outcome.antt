-- ===== src/Mz/Outcome.antt =====
-- How `parse_mz` of dos_re/mz.py ends.
use dos_re.Prelude.{
  not_ltb→le, ℕ, zero, suc, ◌+◌, ◌*◌, ◌<◌, ◌≤◌, true, false, List, ◌∷◌, ltb, Option, some, length,
  get_elem?, ◌≡◌, refl, ap, subst, arith, Bool-cases, inl, inr, ltb→lt, ◌⊎◌,
}
use dos_re.Mz.{
  split_image, ◌>>=◌, MzHeader, MzExecutable, Relocation, Parsed, parsed, raised, not_mz,
  header_past_eof, table_truncated, struct_error, header_size, read_relocations, word_at,
  parse_body, parse_mz, has_signature,
}
use dos_re.Mz.Pieces.{Pieces, cut-Pieces}

-- The entry at a place of the file lies inside it, and is read as its two words.
unfoldable pub EntryAt : List ℕ → ℕ → Option Relocation → Type 0
unfolding word_at
EntryAt bytes at entry =
    (at + 4 ≤ length bytes)
    × (entry ≡ some record { offset = word_at bytes at; segment = word_at bytes (at + 2) })

-- The header that the bytes of a file spell.
unfoldable pub header_of : List ℕ → MzHeader
unfolding word_at
header_of bytes = record {
  last_page_bytes = word_at bytes 2;
  pages = word_at bytes 4;
  relocations = word_at bytes 6;
  header_paragraphs = word_at bytes 8;
  min_extra_paragraphs = word_at bytes 10;
  max_extra_paragraphs = word_at bytes 12;
  ss = word_at bytes 14;
  sp = word_at bytes 16;
  checksum = word_at bytes 18;
  ip = word_at bytes 20;
  cs = word_at bytes 22;
  relocation_table_offset = word_at bytes 24;
  overlay_number = word_at bytes 26;
}

-- What the table reader answers: all n entries, each the two words at its place, or the first
-- entry that does not fit.
unfoldable pub TableOutcome : List ℕ → ℕ → ℕ → Parsed (List Relocation) → Type 0
unfolding EntryAt
TableOutcome bytes off n (parsed rs) =
    (length rs ≡ n) × ((i : ℕ) → i < n → EntryAt bytes (off + i * 4) (get_elem? rs i))
TableOutcome bytes off n (raised table_truncated) =
    (i : ℕ) × (i < n) × (length bytes < off + i * 4 + 4)
TableOutcome bytes off n (raised not_mz) = ⊥
TableOutcome bytes off n (raised header_past_eof) = ⊥
TableOutcome bytes off n (raised struct_error) = ⊥

-- One more entry in front of a table.
entries-suc :
    (bytes : List ℕ) (off n : ℕ) (r : Relocation) (rs : List Relocation)
    → EntryAt bytes off (some r)
    → ((i : ℕ) → i < n → EntryAt bytes (off + 4 + i * 4) (get_elem? rs i))
    → (i : ℕ) → i < suc n
    → EntryAt bytes (off + i * 4) (get_elem? (r ∷ rs) i)
entries-suc bytes off n r rs first each zero below =
    subst (λ at. EntryAt bytes at (some r)) (omega arith) first
entries-suc bytes off n r rs first each (suc i) below =
    subst (λ at. EntryAt bytes at (get_elem? rs i)) (omega arith) (each i (omega arith))

TableOutcome-suc :
    (bytes : List ℕ) (off n : ℕ) (r : Relocation) (p : Parsed (List Relocation))
    → EntryAt bytes off (some r)
    → TableOutcome bytes (off + 4) n p
    → TableOutcome bytes off (suc n) (p >>= λ rs. parsed (r ∷ rs))
unfolding TableOutcome
TableOutcome-suc bytes off n r (parsed rs) first (len, each) =
    (ap suc len, entries-suc bytes off n r rs first each)
TableOutcome-suc bytes off n r (raised table_truncated) first (i, below, short) =
    (suc i, omega arith, omega arith)
TableOutcome-suc bytes off n r (raised not_mz) first bad = bad
TableOutcome-suc bytes off n r (raised header_past_eof) first bad = bad
TableOutcome-suc bytes off n r (raised struct_error) first bad = bad

read_relocations-TableOutcome :
    (bytes : List ℕ) (off n : ℕ) → TableOutcome bytes off n (read_relocations bytes off n)
unfolding TableOutcome read_relocations EntryAt
read_relocations-TableOutcome bytes off zero = (refl, λ i below. absurd (omega arith))
read_relocations-TableOutcome bytes off (suc n) = elim (Bool-cases (ltb (length bytes) (off + 4))) [
  | inl short ↦ rw short (zero, omega arith, ground (arith, ltb→lt (length bytes) (off + 4) short))
  | inr fits ↦
      let room : off + 4 ≤ length bytes = ground arith in
      rw fits (
        TableOutcome-suc bytes off n
          record { offset = word_at bytes off; segment = word_at bytes (off + 2) }
          (read_relocations bytes (off + 4) n) (room, refl)
          (read_relocations-TableOutcome bytes (off + 4) n))
]

-- What `parse_mz` may answer for a file: the executable that its bytes describe, or the one
-- exception that fits them.
unfoldable pub Outcome : List ℕ → Parsed MzExecutable → Type 0
unfolding header_of header_size TableOutcome has_signature
Outcome bytes (parsed exe) =
    (28 ≤ length bytes)
    × (has_signature bytes ≡ true)
    × (exe.header ≡ header_of bytes)
    × (header_size exe.header ≤ length bytes)
    × TableOutcome bytes exe.header.relocation_table_offset exe.header.relocations
        (parsed exe.relocations)
    × ((stop : ℕ) × Pieces bytes exe stop)
Outcome bytes (raised not_mz) = (length bytes < 28) ⊎ (has_signature bytes ≡ false)
Outcome bytes (raised header_past_eof) =
    (28 ≤ length bytes)
    × (has_signature bytes ≡ true)
    × (length bytes < header_size (header_of bytes))
Outcome bytes (raised table_truncated) =
    (28 ≤ length bytes)
    × (has_signature bytes ≡ true)
    × (header_size (header_of bytes) ≤ length bytes)
    × TableOutcome bytes (header_of bytes).relocation_table_offset (header_of bytes).relocations
        (raised table_truncated)
Outcome bytes (raised struct_error) = ⊥

split_image-Outcome :
    (bytes : List ℕ) (p : Parsed (List Relocation))
    → 28 ≤ length bytes
    → has_signature bytes ≡ true
    → header_size (header_of bytes) ≤ length bytes
    → TableOutcome bytes (header_of bytes).relocation_table_offset (header_of bytes).relocations p
    → Outcome bytes (split_image bytes (header_of bytes) p)
unfolding Outcome split_image TableOutcome
split_image-Outcome bytes (parsed rs) long signed inside table =
    (long, signed, refl, inside, table, cut-Pieces bytes _ refl refl)
split_image-Outcome bytes (raised table_truncated) long signed inside table =
    (long, signed, inside, table)
split_image-Outcome bytes (raised not_mz) long signed inside bad = absurd bad
split_image-Outcome bytes (raised header_past_eof) long signed inside bad = absurd bad
split_image-Outcome bytes (raised struct_error) long signed inside bad = absurd bad

parse_body-Outcome :
    (bytes : List ℕ)
    → 28 ≤ length bytes
    → has_signature bytes ≡ true
    → Outcome bytes (parse_body bytes (header_of bytes))
unfolding Outcome parse_body
parse_body-Outcome bytes long signed =
    let n = header_size (header_of bytes) in
    elim (Bool-cases (ltb (length bytes) n)) [
      | inl past ↦ rw past (long, signed, ltb→lt (length bytes) n past)
      | inr inside ↦ rw inside (
          split_image-Outcome bytes
            (read_relocations bytes (header_of bytes).relocation_table_offset
              (header_of bytes).relocations)
            long signed (not_ltb→le (length bytes) n inside)
            (read_relocations-TableOutcome bytes (header_of bytes).relocation_table_offset
              (header_of bytes).relocations))
    ]

-- Every file is answered by the executable that its bytes describe: header, each relocation, load
-- module up to the end of the image that the page counts of the header give, and overlay behind it; or
-- by the one ValueError that fits it. Unpacking never runs out of bytes.
pub parse_mz-Outcome : (bytes : List ℕ) → Outcome bytes (parse_mz bytes)
unfolding Outcome parse_mz
parse_mz-Outcome bytes = elim (Bool-cases (ltb (length bytes) 28)) [
  | inl short ↦ rw short (inl (ltb→lt (length bytes) 28 short))
  | inr long ↦
      let fits : 28 ≤ length bytes = ground arith in
      elim (Bool-cases (has_signature bytes)) [
        | inl signed ↦ rw (long, signed) (parse_body-Outcome bytes fits signed)
        | inr unsigned ↦ rw (long, unsigned) (inr unsigned)
      ]
]
