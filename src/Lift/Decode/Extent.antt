-- ===== src/Lift/Decode/Extent.antt =====
-- Where the parts of an instruction lie, for `decode_one` of dos_re/lift/decode.py.
use dos_re.Prelude.{
  ℕ, zero, suc, ◌+◌, ◌<◌, ◌≤◌, bit_and, Bool, true, false, Option, some, none, List, [], ◌∷◌, ◌++◌,
  length, get_or, if◌then◌else◌, ◌≡◌, refl, sym, ap, ◌∙◌, arith, Bool-cases, inl, inr,
}
use dos_re.Prelude.Bits.{bit_and_mask}
use mathlib.Core.List.{append_assoc, append-nil}
use dos_re.Cpu.Machine.Address.Signed.{lowered}
use dos_re.Lift.Decode.{is_prefix, modrm_disp_len, byte_at, raw_bytes, scan, operand_at, distance}

step_mod : (a j : ℕ) → bit_and (bit_and (a + 1) 0xffff + j) 0xffff ≡ bit_and (a + suc j) 0xffff
step_mod a j = omega (
  arith,
  bit_and_mask 16 (a + 1),
  bit_and_mask 16 (bit_and (a + 1) 0xffff + j),
  bit_and_mask 16 (a + suc j),
)

-- The bytes from the next place on.
raw_bytes-next :
    (fetch : ℕ → ℕ) (at i n : ℕ)
    → raw_bytes fetch (bit_and (at + 1) 0xffff) i n ≡ raw_bytes fetch at (suc i) n
unfolding raw_bytes
raw_bytes-next fetch at i zero = refl
raw_bytes-next fetch at i (suc n) = rw (step_mod at i, raw_bytes-next fetch at (suc i) n) refl

pub length-raw_bytes : (fetch : ℕ → ℕ) (ip i n : ℕ) → length (raw_bytes fetch ip i n) ≡ n
unfolding raw_bytes
length-raw_bytes fetch ip i zero = refl
length-raw_bytes fetch ip i (suc n) = ap suc (length-raw_bytes fetch ip (suc i) n)

pub get_or-raw_bytes :
    (fetch : ℕ → ℕ) (ip i n j : ℕ)
    → j < n
    → get_or (raw_bytes fetch ip i n) j 0 ≡ byte_at fetch (bit_and (ip + (i + j)) 0xffff)
unfolding raw_bytes
get_or-raw_bytes fetch ip i zero j h = absurd (omega arith)
get_or-raw_bytes fetch ip i (suc n) zero h =
    ap (λ k. byte_at fetch (bit_and (ip + k) 0xffff)) (omega arith)
get_or-raw_bytes fetch ip i (suc n) (suc j) h =
    get_or-raw_bytes fetch ip (suc i) n j (omega arith)
    ∙ ap (λ k. byte_at fetch (bit_and (ip + k) 0xffff)) (omega arith)

here : (at : ℕ) → at < 65536 → bit_and (at + 0) 0xffff ≡ at
here at below = omega (arith, bit_and_mask 16 (at + 0))

-- What the prefix loop finds: k prefixes and then none, or n prefixes.
unfoldable pub Scanned : (ℕ → ℕ) → ℕ → ℕ → List ℕ → Option (List ℕ × ℕ) → Type 0
Scanned fetch at n ps none =
    (i : ℕ) → i < n → is_prefix (byte_at fetch (bit_and (at + i) 0xffff)) ≡ true
Scanned fetch at n ps (some (qs, end)) =
    (k : ℕ) × (k < n)
    × (end ≡ bit_and (at + k) 0xffff)
    × (qs ≡ ps ++ raw_bytes fetch at 0 k)
    × (is_prefix (byte_at fetch end) ≡ false)

one_more :
    (fetch : ℕ → ℕ) (at n : ℕ)
    → at < 65536
    → is_prefix (byte_at fetch at) ≡ true
    → ((i : ℕ)
        → i < n
        → is_prefix (byte_at fetch (bit_and (bit_and (at + 1) 0xffff + i) 0xffff)) ≡ true)
    → (i : ℕ) → i < suc n
    → is_prefix (byte_at fetch (bit_and (at + i) 0xffff)) ≡ true
one_more fetch at n below first rest zero h =
    ap (λ x. is_prefix (byte_at fetch x)) (here at below) ∙ first
one_more fetch at n below first rest (suc i) h =
    ap (λ x. is_prefix (byte_at fetch x)) (sym (step_mod at i)) ∙ rest i (omega arith)

Scanned-suc :
    (fetch : ℕ → ℕ) (at n : ℕ) (ps : List ℕ) (o : Option (List ℕ × ℕ))
    → at < 65536
    → is_prefix (byte_at fetch at) ≡ true
    → Scanned fetch (bit_and (at + 1) 0xffff) n (ps ++ (byte_at fetch at ∷ [])) o
    → Scanned fetch at (suc n) ps o
unfolding Scanned raw_bytes
Scanned-suc fetch at n ps none below first rest = one_more fetch at n below first rest
Scanned-suc fetch at n ps (some (qs, end)) below first (k, lt, stop, bytes, last) = (
  suc k,
  omega arith,
  stop ∙ step_mod at k,
  bytes
      ∙ append_assoc ps (byte_at fetch at ∷ []) (raw_bytes fetch (bit_and (at + 1) 0xffff) 0 k)
      ∙ ap (λ xs. ps ++ (byte_at fetch at ∷ xs)) (raw_bytes-next fetch at 0 k)
      ∙ ap (λ x. ps ++ (byte_at fetch x ∷ raw_bytes fetch at 1 k)) (sym (here at below)),
  last,
)

pub scan-Scanned :
    (fetch : ℕ → ℕ) (n at : ℕ) (ps : List ℕ)
    → at < 65536
    → Scanned fetch at n ps (scan fetch n at ps)
unfolding scan Scanned raw_bytes
scan-Scanned fetch zero at ps below = λ i h. absurd (omega arith)
scan-Scanned fetch (suc n) at ps below = elim (Bool-cases (is_prefix (byte_at fetch at))) [
  | inl more ↦ rw more (
      Scanned-suc fetch at n ps
        (scan fetch n (bit_and (at + 1) 0xffff) (ps ++ (byte_at fetch at ∷ []))) below more
        (scan-Scanned fetch n (bit_and (at + 1) 0xffff) (ps ++ (byte_at fetch at ∷ []))
          (omega (arith, bit_and_mask 16 (at + 1)))))
  | inr last ↦ rw last (zero, omega arith, sym (here at below), sym (append-nil ps), last)
]

pub distance-mod : (ip n : ℕ) → ip < 65536 → n < 65536 → distance ip (bit_and (ip + n) 0xffff) ≡ n
unfolding distance
distance-mod ip n h k =
    lowered (bit_and (ip + n) 0xffff) ip (omega arith) ∙ omega (arith, bit_and_mask 16 (ip + n))

-- The place after n more bytes.
pub further :
    (ip s n : ℕ) → bit_and (bit_and (ip + s) 0xffff + n) 0xffff ≡ bit_and (ip + (s + n)) 0xffff
further ip s n = omega (
  arith,
  bit_and_mask 16 (ip + s),
  bit_and_mask 16 (bit_and (ip + s) 0xffff + n),
  bit_and_mask 16 (ip + (s + n)),
)

pub modrm_disp_len-le : (modrm : ℕ) → modrm_disp_len modrm ≤ 2
unfolding modrm_disp_len
modrm_disp_len-le modrm = ground arith

-- The immediate follows the ModR/M byte and its displacement.
pub operand_at-place :
    (fetch : ℕ → ℕ) (b : Bool) (ip s : ℕ)
    → (m : ℕ) × (m ≤ (if b then 3 else 0))
      × ((operand_at fetch b (bit_and (ip + s) 0xffff)).imm_pos ≡ bit_and (ip + (s + m)) 0xffff)
unfolding operand_at
operand_at-place fetch false ip s =
    (zero, omega arith, ap (λ t. bit_and (ip + t) 0xffff) (omega arith))
operand_at-place fetch true ip s =
    let d = modrm_disp_len (byte_at fetch (bit_and (ip + s) 0xffff)) in
    (
      1 + d,
      omega (arith, modrm_disp_len-le (byte_at fetch (bit_and (ip + s) 0xffff))),
      ap (λ t. bit_and (t + d) 0xffff) (further ip s 1)
          ∙ further ip (s + 1) d
          ∙ ap (λ t. bit_and (ip + t) 0xffff) (omega arith),
    )
