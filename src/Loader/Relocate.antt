-- ===== src/Loader/Relocate.antt =====
-- The relocation loop of dos_re/memory.py's loader on ordinary words.
use dos_re.Prelude.{
  ℕ, ◌+◌, ◌%◌, bit_and, bit_or, ◌*◌, ◌^◌, ap₂, List, [], ◌∷◌, ◌≡◌, ◌≢◌, refl, ◌∙◌, arith,
}
use dos_re.Prelude.Bits.{bit_and_mask}
use dos_re.Mz.{Relocation}
use dos_re.Memory.State.{Memory, ok}
use dos_re.Memory.State.Steps.{bind_ok}
use dos_re.Memory.Access.{ww}
use dos_re.Memory.Access
use dos_re.Memory.Access.Word.{PlainWord, HoldsWord, rw-HoldsWord, ww-HoldsWord}
use dos_re.Loader.{relocate, apply_relocations}
use dos_re.Loader.Sites.{
  site, word_in, Sites, Outside, Relocated, Apart-Outside, Sites-stored, Relocated-before,
}

-- One relocation of an ordinary word.
relocate_word :
    (m : Memory) (ls : ℕ) (r : Relocation)
    → PlainWord m (ls + r.segment) r.offset (site ls r)
    → (cells : ℕ → ℕ) × (relocate ls r m ≡ ok (tt, record m { cells = cells }))
      × HoldsWord (record m { cells = cells }) (site ls r) ((word_in m (site ls r) + ls) % 65536)
      × ((x : ℕ) → x ≢ site ls r → x ≢ site ls r + 1 → cells x ≡ m.cells x)
unfolding relocate HoldsWord
relocate_word m ls r plain =
    let a = site ls r in
    let seg = ls + r.segment in
    let v = word_in m a in
    let w = bit_and (v + ls) 0xffff in
    let stored = ww-HoldsWord m seg r.offset a w plain in
    (
      stored.0,
      bind_ok (Access.rw seg r.offset) (λ value. ww seg r.offset (bit_and (value + ls) 0xffff)) m
            (rw-HoldsWord m seg r.offset a v plain refl)
          ∙ stored.1,
      stored.2 ∙ omega (arith, bit_and_mask 16 (v + ls)),
      stored.3,
    )

-- Relocating ordinary words that do not overlap never fails, adds the load segment to each of them
-- modulo 2^16, and changes no other byte.
pub apply_relocations-Relocated :
    (m : Memory) (ls : ℕ) (rs : List Relocation)
    → Sites m ls rs
    → (cells : ℕ → ℕ) × (apply_relocations ls rs m ≡ ok (tt, record m { cells = cells }))
      × Relocated m (record m { cells = cells }) ls rs
      × ((x : ℕ) → Outside ls x rs → cells x ≡ m.cells x)
unfolding apply_relocations Relocated Sites Outside HoldsWord
apply_relocations-Relocated m ls [] sites = (m.cells, refl, tt, λ x out. refl)
apply_relocations-Relocated m ls (r ∷ rs) (plain, apart, sites) =
    let one = relocate_word m ls r plain in
    let k = record m { cells = one.0 } in
    let more = apply_relocations-Relocated k ls rs (Sites-stored m one.0 ls rs sites) in
    let kept = Apart-Outside ls (site ls r) rs apart in
    (
      more.0,
      bind_ok (relocate ls r) (λ _. apply_relocations ls rs) m one.1 ∙ more.1,
      (
        ap₂ (λ l t. bit_or l (t * 2 ^ 8)) (more.3 (site ls r) kept.0)
              (more.3 (site ls r + 1) kept.1)
            ∙ one.2,
        Relocated-before m k (record m { cells = more.0 }) (site ls r) ls rs one.3 apart more.2,
      ),
      λ x out. more.3 x out.2 ∙ one.3 x out.0 out.1,
    )
