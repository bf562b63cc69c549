-- ===== src/Loader/Sites.antt =====
-- The words that the relocations of dos_re/memory.py's loader change.
use dos_re.Prelude.{
  ℕ, ◌+◌, ◌*◌, ◌%◌, ◌^◌, ◌<◌, bit_or, List, [], ◌∷◌, ◌≡◌, ◌≢◌, ap, ap₂, ◌∙◌, ◌⊎◌, arith,
}
use dos_re.Mz.{Relocation}
use dos_re.Memory.State.{Memory, linear}
use dos_re.Memory.Access.Word.{PlainWord, HoldsWord, PlainWord-stored}

-- The address of the word that a relocation names.
abbrev pub site : ℕ → Relocation → ℕ
site load_segment r = linear (load_segment + r.segment) r.offset

abbrev pub word_in : Memory → ℕ → ℕ
word_in m a = bit_or (m.cells a) (m.cells (a + 1) * 2 ^ 8)

-- Two words without a common byte.
unfoldable pub Disjoint : ℕ → ℕ → Type 0
Disjoint a b = (a + 1 < b) ⊎ (b + 1 < a)

-- A word without a byte in common with any of the relocated ones.
unfoldable pub Apart : ℕ → ℕ → List Relocation → Type 0
unfolding Disjoint
Apart ls a [] = Unit
Apart ls a (r ∷ rs) = Disjoint (site ls r) a × Apart ls a rs

-- Ordinary words, none of which has a byte in common with another.
unfoldable pub Sites : Memory → ℕ → List Relocation → Type 0
unfolding Apart
Sites m ls [] = Unit
Sites m ls (r ∷ rs) =
    PlainWord m (ls + r.segment) r.offset (site ls r) × Apart ls (site ls r) rs × Sites m ls rs

-- A byte of none of the words.
unfoldable pub Outside : ℕ → ℕ → List Relocation → Type 0
Outside ls x [] = Unit
Outside ls x (r ∷ rs) = (x ≢ site ls r) × (x ≢ site ls r + 1) × Outside ls x rs

-- Each word has grown by the load segment, modulo 2^16.
unfoldable pub Relocated : Memory → Memory → ℕ → List Relocation → Type 0
unfolding HoldsWord
Relocated m n ls [] = Unit
Relocated m n ls (r ∷ rs) =
    HoldsWord n (site ls r) ((word_in m (site ls r) + ls) % 65536) × Relocated m n ls rs

pub Apart-Outside :
    (ls a : ℕ) (rs : List Relocation) → Apart ls a rs → Outside ls a rs × Outside ls (a + 1) rs
unfolding Apart Outside Disjoint
Apart-Outside ls a [] h = (tt, tt)
Apart-Outside ls a (r ∷ rs) (here, rest) =
    let both = Apart-Outside ls a rs rest in
    ((λ e. ground arith, λ e. ground arith, both.0), (λ e. ground arith, λ e. ground arith, both.1))

pub Sites-stored :
    (m : Memory) (cells : ℕ → ℕ) (ls : ℕ) (rs : List Relocation)
    → Sites m ls rs
    → Sites (record m { cells = cells }) ls rs
unfolding Sites
Sites-stored m cells ls [] h = tt
Sites-stored m cells ls (r ∷ rs) (plain, apart, rest) =
    (PlainWord-stored cells plain, apart, Sites-stored m cells ls rs rest)

-- Words that a store elsewhere has not changed are relocated from what they were.
pub Relocated-before :
    (m k n : Memory) (a ls : ℕ) (rs : List Relocation)
    → ((x : ℕ) → x ≢ a → x ≢ a + 1 → k.cells x ≡ m.cells x)
    → Apart ls a rs
    → Relocated k n ls rs
    → Relocated m n ls rs
unfolding Relocated Apart Disjoint HoldsWord
Relocated-before m k n a ls [] frame apart h = tt
Relocated-before m k n a ls (r ∷ rs) frame (here, apart) (word, rest) =
    let s = site ls r in
    let same : word_in k s ≡ word_in m s =
      ap₂ (λ l t. bit_or l (t * 2 ^ 8)) (frame s (λ e. ground arith) (λ e. ground arith))
        (frame (s + 1) (λ e. ground arith) (λ e. ground arith)) in
    (word ∙ ap (λ w. (w + ls) % 65536) same, Relocated-before m k n a ls rs frame apart rest)
