-- ===== src/Memory/Block/Store.antt =====
-- `write_external_block` and `try_forward_bulk_fill` of dos_re/memory.py against the loop of `wb`
-- calls that each of them stands for.
use dos_re.Prelude.{
  ℕ, zero, suc, ◌+◌, ◌*◌, ◌%◌, ◌<◌, ◌≤◌, bit_and, Bool, true, false, Option, some, none, List, [],
  ◌∷◌, ◌++◌, ◌==◌, if◌then◌else◌, length, length-append, Bool-cases, ◌≡◌, refl, sym, ap, ◌∙◌, arith,
  ◌⊎◌, inl, inr,
}
use mathlib.Core.Option.{none-ne-some}
use native.Mathlib.Nat.{mul-suc}
use dos_re.Prelude.Bits.{bit_and_mask}
use dos_re.Memory.State.{Memory, ok, update, linear, bios_rom_base}
use dos_re.Memory.State.Steps.{bind_ok}
use dos_re.Memory.Access.{wb}
use dos_re.Memory.Access.Plain.{linear-next, wb-plain}
use dos_re.Memory.Block.{
  ordinary_real_mode_range, store_slice, unobserved, wb_each, repeated, write_external_block,
  try_forward_bulk_fill, Bulk,
}
use dos_re.Memory.Block.Range.{Contiguous, Contiguous-stored, ordinary_real_mode_range-Contiguous}

-- Every element is a byte.
unfoldable pub AllBytes : List ℕ → Type 0
AllBytes [] = Unit
AllBytes (v ∷ vs) = (v < 256) × AllBytes vs

pub unobserved_lem : (m : Memory) → unobserved m ≡ true → (m.sel_base ≡ none) × (m.watched ≡ false)
unfolding unobserved
unobserved_lem m h = ground arith

-- From the k-th byte of the range on, at cell b, the loop stores the rest of the payload as a slice.
wb_each-slice :
    (m : Memory) (seg off n a k b : ℕ) (vs : List ℕ)
    → m.sel_base ≡ none
    → m.watched ≡ false
    → Contiguous m seg off n a
    → a + n ≤ bios_rom_base
    → k + length vs ≡ n
    → b ≡ a + k
    → AllBytes vs
    → wb_each seg (off % 65536) k vs m ≡ ok (tt, record m { cells = store_slice m.cells b vs })
unfolding wb_each store_slice AllBytes
wb_each-slice m seg off n a k b [] real quiet c ram len at bytes = refl
wb_each-slice m seg off n a k b (v ∷ vs) real quiet c ram len at bytes =
    let here : linear seg (bit_and (off % 65536 + k) 0xffff) ≡ b =
      linear-next seg off k (omega (arith, c.in_segment)) (omega (arith, c.start))
      ∙ omega (arith, c.start, at) in
    let next = record m { cells = update m.cells b v } in
    bind_ok (wb seg (bit_and (off % 65536 + k) 0xffff) v)
      (λ _. wb_each seg (off % 65536) (suc k) vs) m
      (wb-plain m seg (bit_and (off % 65536 + k) 0xffff) b v real quiet here (omega arith)
        (omega (arith, c.in_store)) (rw at (c.outside k (omega arith))) bytes.0)
    ∙ wb_each-slice next seg off n a (suc k) (suc b) vs real quiet (Contiguous-stored next.cells c)
        ram (omega arith) (omega arith) bytes.1

-- The whole loop, at an address that the range test has passed.
wb_each-ordinary :
    (m : Memory) (seg off a : ℕ) (vs : List ℕ)
    → unobserved m ≡ true
    → ordinary_real_mode_range m seg off (length vs) true ≡ some a
    → AllBytes vs
    → wb_each seg (bit_and off 0xffff) 0 vs m
      ≡ ok (tt, record m { cells = store_slice m.cells a vs })
wb_each-ordinary m seg off a vs plain range bytes =
    let u = unobserved_lem m plain in
    let c = ordinary_real_mode_range-Contiguous m seg off (length vs) a true range in
    let rom = c.1 in
    ap (λ o. wb_each seg o 0 vs m) (bit_and_mask 16 off)
    ∙ wb_each-slice m seg off (length vs) a 0 a vs u.0 u.1 c.0 (ground arith) (omega arith)
        (omega arith) bytes

-- A fast path that agrees with the slow one wherever it is taken changes nothing.
either_way :
    {X : Type 0} (r : Option ℕ) (fast : ℕ → X) (slow : X)
    → ((a : ℕ) → r ≡ some a → fast a ≡ slow)
    → elim r [ some a ↦ fast a | none ↦ slow ] ≡ slow
either_way none fast slow h = refl
either_way (some a) fast slow h = h a refl

guarded :
    (b : Bool) {r : Option ℕ} {a : ℕ} → (if b then r else none) ≡ some a → (b ≡ true) × (r ≡ some a)
guarded true h = (refl, h)
guarded false {a = a} h = absurd (none-ne-some a h)

-- The transfer of a block of bytes gives what the loop of byte stores gives: the same memory, the
-- same reports to watchers, and the same failure.
pub write_external_block-wb_each :
    (m : Memory) (seg off : ℕ) (payload : List ℕ)
    → AllBytes payload
    → write_external_block seg off payload m ≡ wb_each seg (bit_and off 0xffff) 0 payload m
unfolding write_external_block
write_external_block-wb_each m seg off [] bytes = unfold wb_each in refl
write_external_block-wb_each m seg off (v ∷ vs) bytes =
    let filled : (length (v ∷ vs) == 0) ≡ false = ground arith in
    rw filled (
      either_way
        (if unobserved m then ordinary_real_mode_range m seg off (length (v ∷ vs)) true else none)
        (λ a. ok (tt, record m { cells = store_slice m.cells a (v ∷ vs) }))
        (wb_each seg (bit_and off 0xffff) 0 (v ∷ vs) m)
        (λ a e.
          let g = guarded (unobserved m) e in
          sym (wb_each-ordinary m seg off a (v ∷ vs) g.0 g.1 bytes)))

pub on_range :
    {X : Type 0} (P : X → Type 0) (r : Option ℕ) (f : ℕ → X) (out : X)
    → (r ≡ none → P out)
    → ((a : ℕ) → r ≡ some a → P (f a))
    → P (elim r [ some a ↦ f a | none ↦ out ])
on_range P none f out h k = h refl
on_range P (some a) f out h k = k a refl

length-zero : (vs : List ℕ) → length vs ≡ 0 → vs ≡ []
length-zero [] h = refl
length-zero (v ∷ vs) h = absurd (omega arith)

length-repeated :
    (pattern : List ℕ) (count : ℕ) → length (repeated pattern count) ≡ length pattern * count
unfolding repeated
length-repeated pattern zero = omega arith
length-repeated pattern (suc count) =
    length-append pattern (repeated pattern count)
    ∙ ap (λ t. length pattern + t) (length-repeated pattern count)
    ∙ ground (arith, mul-suc (length pattern) count)

AllBytes-append : (xs ys : List ℕ) → AllBytes xs → AllBytes ys → AllBytes (xs ++ ys)
unfolding AllBytes
AllBytes-append [] ys hx hy = hy
AllBytes-append (x ∷ xs) ys hx hy = (hx.0, AllBytes-append xs ys hx.1 hy)

AllBytes-repeated :
    (pattern : List ℕ) (count : ℕ) → AllBytes pattern → AllBytes (repeated pattern count)
unfolding repeated
AllBytes-repeated pattern zero h = unfold AllBytes in tt
AllBytes-repeated pattern (suc count) h =
    AllBytes-append pattern (repeated pattern count) h (AllBytes-repeated pattern count h)

-- Why a bulk operation leaves a range of n bytes to its caller.
unfoldable pub Refuses : Memory → ℕ → ℕ → ℕ → Bool → Type 0
Refuses m seg off n writable =
    (unobserved m ≡ false) ⊎ (ordinary_real_mode_range m seg off n writable ≡ none)

-- A bulk fill never fails on a pattern that is not empty: it answers true with the memory that the
-- loop of byte stores gives, or false with the memory as it was, and false only where there are
-- selectors or watchers or the range is not ordinary.
pub try_forward_bulk_fill-Bulk :
    (m : Memory) (seg off : ℕ) (pattern : List ℕ) (count : ℕ)
    → 0 < length pattern
    → AllBytes pattern
    → Bulk m
        (wb_each seg (bit_and off 0xffff) 0 (repeated pattern count) m)
        (Refuses m seg off (length pattern * count) true)
        (try_forward_bulk_fill seg off pattern count m)
unfolding try_forward_bulk_fill
try_forward_bulk_fill-Bulk m seg off pattern count some_pattern bytes =
    let filled : (length pattern == 0) ≡ false = ground arith in
    let n = length pattern * count in
    let long = length-repeated pattern count in
    rw filled (elim (Bool-cases (n == 0)) [
      | inl e ↦ rw e (
          unfold Bulk wb_each in
          ap (λ vs. wb_each seg (bit_and off 0xffff) 0 vs m)
            (length-zero (repeated pattern count) (long ∙ ground arith)))
      | inr e ↦ rw e (elim (Bool-cases (unobserved m)) [
        | inr seen ↦ rw seen (unfold Bulk in (refl, unfold Refuses in inl seen))
        | inl plain ↦ rw plain (
            on_range
              (Bulk m (wb_each seg (bit_and off 0xffff) 0 (repeated pattern count) m)
                (Refuses m seg off n true))
              (ordinary_real_mode_range m seg off n true)
              (λ a. ok (true, record m { cells = store_slice m.cells a (repeated pattern count) }))
              (ok (false, m)) (λ e. unfold Bulk in (refl, unfold Refuses in inr e))
              (λ a range.
                unfold Bulk in
                wb_each-ordinary m seg off a (repeated pattern count) plain (rw long range)
                  (AllBytes-repeated pattern count bytes)))
      ])
    ])
