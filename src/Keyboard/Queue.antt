-- ===== src/Keyboard/Queue.antt =====
-- Queued events of other keys in `_drain_events` of dos_re/keyboard.py.
use dos_re.Prelude.{
  ℕ, ◌+◌, ◌<◌, false, List, [], ◌∷◌, ◌++◌, ◌==◌, ◌≡◌, ◌≢◌, refl, sym, ap, ◌∙◌, arith, Bool-cases,
  Option-cases, inl, inr, bit_and,
}
use dos_re.Keyboard.{
  KeyEvent, down_event, up_event, KeyDispatcher, post_down, post_up, member, add, set_down,
  take_event, take_all, drain_events,
}
use dos_re.Keyboard.Kept.{
  MakeCodes, discard-MakeCodes, member-discard, occurrences-other, Kept, Kept-self, Kept-trans,
}

-- Events of keys other than k, by their make codes.
unfoldable pub Others : ℕ → List KeyEvent → Type 0
Others k [] = Unit
Others k (down_event x ∷ es) = (x < 128) × (x ≢ k) × Others k es
Others k (up_event x ∷ es) = (x < 128) × (x ≢ k) × Others k es

member-add_other : (k x : ℕ) (xs : List ℕ) → x ≢ k → member k (add x xs) ≡ member k xs
unfolding member add
member-add_other k x xs apart =
    let elsewhere : (x == k) ≡ false = ground arith in
    elim (Bool-cases (member x xs)) [ inl e ↦ rw e refl | inr e ↦ rw (e, elsewhere) refl ]

pub add-MakeCodes : (k : ℕ) (xs : List ℕ) → k < 128 → MakeCodes xs → MakeCodes (add k xs)
unfolding MakeCodes add
add-MakeCodes k xs low codes = elim (Bool-cases (member k xs)) [
  | inl e ↦ rw e codes
  | inr e ↦ rw e (low, codes)
]

up-Kept : (k x : ℕ) (d : KeyDispatcher) → x < 128 → x ≢ k → Kept k d (take_event (up_event x) d)
unfolding take_event
up-Kept k x d small apart = record {
  state = refl;
  breaks = refl;
  makes = refl;
  pending = member-add_other k x d.release apart;
  codes = add-MakeCodes x d.release small;
}

down-Kept : (k x : ℕ) (d : KeyDispatcher) → x < 128 → x ≢ k → Kept k d (take_event (down_event x) d)
unfolding take_event set_down
down-Kept k x d small apart =
    let elsewhere : (k == x) ≡ false = ground arith in
    let pending = member-discard k x d.release apart in
    let codes = discard-MakeCodes x d.release in
    elim (Option-cases (d.down x)) [
      | inl e ↦
          rw (e, take_event)
            record {
              state = rw elsewhere refl;
              breaks = occurrences-other (k + 128) x d.delivered (λ t. absurd (omega arith));
              makes = occurrences-other k x d.delivered apart;
              pending = pending;
              codes = codes;
            }
      | inr (frames, e) ↦
          rw (e, take_event)
            record { state = refl; breaks = refl; makes = refl; pending = pending; codes = codes }
    ]

pub take_all-Kept :
    (k : ℕ) (es : List KeyEvent) (d : KeyDispatcher) → Others k es → Kept k d (take_all es d)
unfolding take_all Others
take_all-Kept k [] d h = Kept-self k d
take_all-Kept k (down_event x ∷ es) d (small, apart, h) =
    let n = take_event (down_event x) d in
    Kept-trans k d n (take_all es n) (down-Kept k x d small apart) (take_all-Kept k es n h)
take_all-Kept k (up_event x ∷ es) d (small, apart, h) =
    let n = take_event (up_event x) d in
    Kept-trans k d n (take_all es n) (up-Kept k x d small apart) (take_all-Kept k es n h)

take_all-append :
    (es fs : List KeyEvent) (d : KeyDispatcher)
    → take_all (es ++ fs) d ≡ take_all fs (take_all es d)
unfolding take_all
take_all-append [] fs d = refl
take_all-append (e ∷ es) fs d = take_all-append es fs (take_event e d)

events-take_event : (e : KeyEvent) (d : KeyDispatcher) → (take_event e d).events ≡ d.events
unfolding take_event
events-take_event (up_event x) d = refl
events-take_event (down_event x) d = elim (Option-cases (d.down x)) [
  | inl e ↦ rw (e, take_event) refl
  | inr (frames, e) ↦ rw (e, take_event) refl
]

events-take_all : (es : List KeyEvent) (d : KeyDispatcher) → (take_all es d).events ≡ d.events
unfolding take_all
events-take_all [] d = refl
events-take_all (e ∷ es) d = events-take_all es (take_event e d) ∙ events-take_event e d

pub events-drain_events : (d : KeyDispatcher) → (drain_events d).events ≡ []
unfolding drain_events
events-drain_events d = events-take_all d.events (record d { events = [] })

-- Events behind a queue are taken after it.
pub drain_events-post :
    (k : ℕ) (d : KeyDispatcher)
    → drain_events (post_up k (post_down k d))
      ≡ drain_events (post_up k (post_down k (drain_events d)))
unfolding drain_events post_up post_down
drain_events-post k d =
    let c = bit_and k 0xff in
    let last : List KeyEvent = up_event c ∷ [] in
    let start = record d { events = [] } in
    let e = take_all d.events start in
    let empty : e.events ≡ [] = events-take_all d.events start in
    take_all-append (d.events ++ (down_event c ∷ [])) last start
    ∙ ap (take_all last) (take_all-append d.events (down_event c ∷ []) start)
    ∙ ap
        (λ (es : List KeyEvent).
          take_all last (take_all (down_event c ∷ []) (record e { events = es })))
        empty
    ∙ ap
        (λ (es : List KeyEvent).
          take_all ((es ++ (down_event c ∷ [])) ++ last) (record e { events = [] }))
        (sym empty)
