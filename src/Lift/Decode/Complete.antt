-- ===== src/Lift/Decode/Complete.antt =====
-- The opcode table of dos_re/lift/decode.py has an entry for every opcode that is no prefix.
use dos_re.Prelude.{
  ℕ, ◌<◌, Bool, true, false, not, ◌&&◌, ◌||◌, Option, some, none, all_below, all_below_sound, leb,
  ◌==◌, if◌then◌else◌, ◌≡◌, refl, ◌↔◌, sym, ◌∙◌,
}
use mathlib.Core.Option.{none-ne-some}
use mathlib.Core.Bool.{true≢false}
use dos_re.Lift.Decode.{is_prefix, is_near, is_far, is_int}
use dos_re.Lift.Decode.Table.{plain, Entry, entry_of}

-- What the rows keep to: a near transfer has an immediate of two bytes for call and jmp and of one
-- for the others, a far one of four,
-- neither has a ModR/M byte, an interrupt names its vector, and immediates are short.
abbrev pub near_length : ℕ → ℕ
near_length op = if op == 0xe8 || op == 0xe9 then 2 else 1

abbrev pub near_imm : ℕ → Entry → Bool
near_imm op e = not e.has_modrm && elim e.imm [ plain n ↦ n == near_length op | _ ↦ false ]

abbrev pub far_imm : Entry → Bool
far_imm e = not e.has_modrm && elim e.imm [ plain n ↦ n == 4 | _ ↦ false ]

abbrev pub named_vector : ℕ → Entry → Bool
named_vector op e = op == 0xcc || op == 0xce || elim e.imm [ plain n ↦ n == 1 | _ ↦ false ]

abbrev pub short_imm : Entry → Bool
short_imm e = elim e.imm [ plain n ↦ leb n (if e.has_modrm then 2 else 4) | _ ↦ e.has_modrm ]

abbrev near_rule : ℕ → Entry → Bool
near_rule op e = if is_near e.kind then near_imm op e else true

abbrev far_rule : Entry → Bool
far_rule e = if is_far e.kind then far_imm e else true

abbrev int_rule : ℕ → Entry → Bool
int_rule op e = if is_int e.kind then named_vector op e else true

abbrev pub well_shaped : ℕ → Entry → Bool
well_shaped op e = near_rule op e && far_rule e && int_rule op e && short_imm e

abbrev pub row_ok : ℕ → Option Entry → Bool
row_ok op none = is_prefix op
row_ok op (some e) = not (is_prefix op) && well_shaped op e

rows_ok : all_below 256 (λ op. row_ok op (entry_of op)) ≡ true
unfolding all_below entry_of is_prefix is_near is_far is_int
rows_ok = refl

pub row_ok-entry_of : (op : ℕ) → op < 256 → row_ok op (entry_of op) ≡ true
row_ok-entry_of op below = all_below_sound 256 (λ op. row_ok op (entry_of op)) op rows_ok below

pub both-true : (a b : Bool) → (a && b) ≡ true → (a ≡ true) × (b ≡ true)
both-true true true h = (refl, refl)
both-true true false h = absurd (true≢false (sym h))
both-true false b h = absurd (true≢false (sym h))

first_of : (a b c d : Bool) → (a && b && c && d) ≡ true → a ≡ true
first_of true b c d h = refl
first_of false b c d h = h

last_of : (a b c d : Bool) → (a && b && c && d) ≡ true → d ≡ true
last_of true true true d h = h
last_of true true false d h = absurd (true≢false (sym h))
last_of true false c d h = absurd (true≢false (sym h))
last_of false b c d h = absurd (true≢false (sym h))

pub not-true : (a : Bool) → not a ≡ true → a ≡ false
not-true false h = refl
not-true true h = absurd (true≢false (sym h))

pub row_ok-prefix : (op : ℕ) (e : Entry) → row_ok op (some e) ≡ true → is_prefix op ≡ false
row_ok-prefix op e ok =
    not-true (is_prefix op) (both-true (not (is_prefix op)) (well_shaped op e) ok).0

pub row_ok-shape : (op : ℕ) (e : Entry) → row_ok op (some e) ≡ true → well_shaped op e ≡ true
row_ok-shape op e ok = (both-true (not (is_prefix op)) (well_shaped op e) ok).1

pub well_shaped-short : (op : ℕ) (e : Entry) → well_shaped op e ≡ true → short_imm e ≡ true
well_shaped-short op e h = last_of (near_rule op e) (far_rule e) (int_rule op e) (short_imm e) h

implied : (a b : Bool) → (if a then b else true) ≡ true → a ≡ true → b ≡ true
implied true b h t = h
implied false b h t = absurd (true≢false (sym t))

pub well_shaped-near :
    (op : ℕ) (e : Entry) → well_shaped op e ≡ true → is_near e.kind ≡ true → near_imm op e ≡ true
well_shaped-near op e h near =
    implied (is_near e.kind) (near_imm op e)
      (first_of (near_rule op e) (far_rule e) (int_rule op e) (short_imm e) h) near

none_iff : (op : ℕ) (e : Option Entry) → row_ok op e ≡ true → (e ≡ none) ↔ (is_prefix op ≡ true)
none_iff op none ok = (λ h. ok, λ h. refl)
none_iff op (some e) ok =
    (λ h. absurd (none-ne-some e (sym h)), λ h. absurd (true≢false (sym h ∙ row_ok-prefix op e ok)))

-- A byte has an entry in the opcode table exactly when it is no prefix, so that the decoder's
-- branch for an unknown opcode is never taken.
pub entry_of-none_iff : (op : ℕ) → op < 256 → (entry_of op ≡ none) ↔ (is_prefix op ≡ true)
entry_of-none_iff op below = none_iff op (entry_of op) (row_ok-entry_of op below)
