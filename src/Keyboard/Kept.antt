-- ===== src/Keyboard/Kept.antt =====
-- One key of the `KeyDispatcher` of dos_re/keyboard.py in the release loop of a frame.
use dos_re.Prelude.{
  ℕ, suc, ◌+◌, ◌<◌, bit_or, true, false, not, ◌||◌, ◌==◌, none, List, [], ◌∷◌, if◌then◌else◌, ◌≡◌,
  ◌≢◌, refl, sym, ap, ◌∙◌, subst, arith, Bool-cases, inl, inr, ==_self,
}
use mathlib.Core.Bool.{true≢false}
use dos_re.Prelude.Bits.{or_comm, or_fields}
use dos_re.Keyboard.{KeyDispatcher, member, discard, set_down, held, release_each}

-- How often a code has been delivered.
unfoldable pub occurrences : ℕ → List ℕ → ℕ
occurrences c [] = 0
occurrences c (x ∷ xs) = if x == c then suc (occurrences c xs) else occurrences c xs

-- Make codes, which have their top bit clear.
unfoldable pub MakeCodes : List ℕ → Type 0
MakeCodes [] = Unit
MakeCodes (x ∷ xs) = (x < 128) × MakeCodes xs

pub break_code : (x : ℕ) → x < 128 → bit_or x 0x80 ≡ x + 128
break_code x h = omega (arith, or_comm x 0x80, or_fields 7 1 x h)

pub occurrences-other : (c x : ℕ) (xs : List ℕ) → x ≢ c → occurrences c (x ∷ xs) ≡ occurrences c xs
unfolding occurrences
occurrences-other c x xs h = let apart : (x == c) ≡ false = ground arith in rw apart refl

pub occurrences-same : (c : ℕ) (xs : List ℕ) → occurrences c (c ∷ xs) ≡ suc (occurrences c xs)
unfolding occurrences
occurrences-same c xs = rw (==_self c) refl

pub discard-MakeCodes : (k : ℕ) (xs : List ℕ) → MakeCodes xs → MakeCodes (discard k xs)
unfolding MakeCodes discard
discard-MakeCodes k [] h = tt
discard-MakeCodes k (x ∷ xs) h = elim (Bool-cases (x == k)) [
  | inl e ↦ rw e (discard-MakeCodes k xs h.1)
  | inr e ↦ rw e (h.0, discard-MakeCodes k xs h.1)
]

pub member-discard : (k x : ℕ) (xs : List ℕ) → x ≢ k → member k (discard x xs) ≡ member k xs
unfolding member discard
member-discard k x [] h = refl
member-discard k x (y ∷ ys) h = elim (Bool-cases (y == x)) [
  | inl e ↦ let apart : (y == k) ≡ false = ground arith in rw (e, apart) (member-discard k x ys h)
  | inr e ↦ rw (e, member-discard k x ys h) refl
]

-- What does not concern the key k: its state, its codes and whether its release is pending.
pub record Kept (k : ℕ) (d e : KeyDispatcher) : Type 0 where
  pub state : e.down k ≡ d.down k
  pub breaks : occurrences (k + 128) e.delivered ≡ occurrences (k + 128) d.delivered
  pub makes : occurrences k e.delivered ≡ occurrences k d.delivered
  pub pending : member k e.release ≡ member k d.release
  pub codes : MakeCodes d.release → MakeCodes e.release

-- One round of the release loop.
abbrev pub round : ℕ → KeyDispatcher → KeyDispatcher
round sc d =
    if held (d.down sc) || not true
    then record d {
      delivered = bit_or sc 0x80 ∷ d.delivered;
      down = set_down sc none d.down;
      release = discard sc d.release;
    }
    else d

pub Kept-self : (k : ℕ) (d : KeyDispatcher) → Kept k d d
Kept-self k d = record { state = refl; breaks = refl; makes = refl; pending = refl; codes = λ h. h }

pub Kept-trans : (k : ℕ) (d e f : KeyDispatcher) → Kept k d e → Kept k e f → Kept k d f
Kept-trans k d e f p q = record {
  state = q.state ∙ p.state;
  breaks = q.breaks ∙ p.breaks;
  makes = q.makes ∙ p.makes;
  pending = q.pending ∙ p.pending;
  codes = λ h. q.codes (p.codes h);
}

pub round-Kept : (k x : ℕ) (d : KeyDispatcher) → k < 128 → x < 128 → x ≢ k → Kept k d (round x d)
unfolding set_down
round-Kept k x d low small apart = elim (Bool-cases (held (d.down x))) [
  | inr free ↦ rw free (Kept-self k d)
  | inl ready ↦
      let code = break_code x small in
      let elsewhere : (k == x) ≡ false = ground arith in
      rw ready record {
        state = rw elsewhere refl;
        breaks = occurrences-other (k + 128) (bit_or x 0x80) d.delivered (λ e. apart (omega arith));
        makes = occurrences-other k (bit_or x 0x80) d.delivered (λ e. absurd (omega arith));
        pending = member-discard k x d.release apart;
        codes = discard-MakeCodes x d.release;
      }
]

-- A key that is not held is left alone by the release loop of a frame.
pub each-Kept :
    (k : ℕ) (xs : List ℕ) (d : KeyDispatcher)
    → k < 128
    → MakeCodes xs
    → held (d.down k) ≡ false
    → Kept k d (release_each true xs d)
unfolding release_each MakeCodes
each-Kept k [] d low codes free = Kept-self k d
each-Kept k (x ∷ xs) d low codes free = elim (Bool-cases (x == k)) [
  | inl e ↦
      let here : x ≡ k = ground arith in
      let still : held (d.down x) ≡ false = ap (λ t. held (d.down t)) here ∙ free in
      rw still (each-Kept k xs d low codes.1 free)
  | inr e ↦
      let one = round-Kept k x d low codes.0 (λ t. absurd (true≢false (sym (ground arith) ∙ e))) in
      Kept-trans k d (round x d) (release_each true xs (round x d)) one
        (each-Kept k xs (round x d) low codes.1 (ap held one.state ∙ free))
]

-- The release of a key that has been held.
pub record Released (k : ℕ) (d e : KeyDispatcher) : Type 0 where
  pub up : e.down k ≡ none
  pub break_sent : occurrences (k + 128) e.delivered ≡ suc (occurrences (k + 128) d.delivered)

pub round-Released :
    (k : ℕ) (xs : List ℕ) (d : KeyDispatcher)
    → k < 128
    → MakeCodes xs
    → held (d.down k) ≡ true
    → Released k d (release_each true xs (round k d))
unfolding set_down held
round-Released k xs d low codes ready =
    let gone = record d {
      delivered = bit_or k 0x80 ∷ d.delivered;
      down = set_down k none d.down;
      release = discard k d.release;
    } in
    let self = ==_self k in
    let no_more : gone.down k ≡ none = rw self refl in
    let kept = each-Kept k xs gone low codes (ap held no_more) in
    rw ready record {
      up = kept.state ∙ no_more;
      break_sent =
          kept.breaks
          ∙ ap (λ c. occurrences (k + 128) (c ∷ d.delivered)) (break_code k low)
          ∙ occurrences-same (k + 128) d.delivered;
    }

-- A held key with a pending release is released once by the loop of a frame.
pub each-Released :
    (k : ℕ) (xs : List ℕ) (d : KeyDispatcher)
    → k < 128
    → MakeCodes xs
    → member k xs ≡ true
    → held (d.down k) ≡ true
    → Released k d (release_each true xs d)
unfolding release_each MakeCodes member set_down
each-Released k [] d low codes there ready = absurd (true≢false (sym there))
each-Released k (x ∷ xs) d low codes there ready = elim (Bool-cases (x == k)) [
  | inl e ↦
      let here : x ≡ k = ground arith in
      subst (λ t. Released k d (release_each true xs (round t d))) (sym here)
        (round-Released k xs d low codes.1 ready)
  | inr e ↦
      let one = round-Kept k x d low codes.0 (λ t. absurd (true≢false (sym (ground arith) ∙ e))) in
      let rest =
        each-Released k xs (round x d) low codes.1 (ground arith) (ap held one.state ∙ ready) in
      record { up = rest.up; break_sent = rest.break_sent ∙ ap suc one.breaks }
]
