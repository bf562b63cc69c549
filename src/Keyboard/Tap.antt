-- ===== src/Keyboard/Tap.antt =====
-- A quick tap through the `KeyDispatcher` of dos_re/keyboard.py.
use dos_re.Prelude.{
  ℕ, suc, ◌+◌, ◌<◌, bit_and, true, Option, some, none, List, [], ◌∷◌, ◌++◌, ◌≡◌, refl, sym, ap, ◌∙◌,
  subst, arith, Bool-cases, inl, inr, ==_self,
}
use dos_re.Prelude.Bits.{bit_and_mask}
use dos_re.Keyboard.{
  KeyEvent, down_event, up_event, KeyDispatcher, post_down, post_up, member, discard, add, set_down,
  take_event, take_all, drain_events, held, release_each, release_ready, older, pump,
}
use dos_re.Keyboard.Kept.{
  occurrences, MakeCodes, discard-MakeCodes, occurrences-other, occurrences-same, round, each-Kept,
  each-Released, Kept,
}
use dos_re.Keyboard.Queue.{
  Others, add-MakeCodes, take_all-Kept, events-drain_events, drain_events-post,
}

-- The queue of a tap, drained.
drained :
    (k : ℕ) (d : KeyDispatcher)
    → k < 128
    → d.events ≡ []
    → d.down k ≡ none
    → drain_events (post_up k (post_down k d)) ≡ record {
      delivered = k ∷ d.delivered;
      events = [];
      down = set_down k (some 0) d.down;
      release = add k (discard k d.release);
    }
unfolding drain_events post_up post_down take_event
drained k d low quiet free =
    let base = record d { events = [] } in
    let code : bit_and k 0xff ≡ k = omega (arith, bit_and_mask 8 k) in
    let pressed = record base { release = discard k d.release } in
    ap
      (λ (es : List KeyEvent).
        take_all ((es ++ (down_event (bit_and k 0xff) ∷ [])) ++ (up_event (bit_and k 0xff) ∷ []))
          base)
      quiet
    ∙ ap (λ c. take_all (down_event c ∷ up_event c ∷ []) base) code
    ∙ ap
        (λ (o : Option ℕ). take_event (up_event k) (elim o [
          | some frames ↦ pressed
          | none ↦ record pressed { delivered = k ∷ d.delivered; down = set_down k (some 0) d.down }
        ]))
        free

member-add : (k : ℕ) (xs : List ℕ) → member k (add k xs) ≡ true
unfolding member add
member-add k xs = elim (Bool-cases (member k xs)) [
  | inl e ↦ rw e e
  | inr e ↦ rw (e, ==_self k) refl
]

-- The two frames of a tap: pressed and still down in the first, released in the second.
pub record TapSeen (k : ℕ) (d e f : KeyDispatcher) : Type 0 where
  pub make_sent : occurrences k e.delivered ≡ suc (occurrences k d.delivered)
  pub not_released : occurrences (k + 128) e.delivered ≡ occurrences (k + 128) d.delivered
  pub still_down : e.down k ≡ some 1
  pub break_sent : occurrences (k + 128) f.delivered ≡ suc (occurrences (k + 128) d.delivered)
  pub up : f.down k ≡ none

-- A frame after its queue has been drained.
abbrev frame : KeyDispatcher → KeyDispatcher
frame d = let f = release_each true d.release d in record f { down = λ sc. older (f.down sc) }

pump-frame : (d : KeyDispatcher) → pump true d ≡ frame (drain_events d)
unfolding pump release_ready
pump-frame d = refl

events-round : (x : ℕ) (d : KeyDispatcher) → (round x d).events ≡ d.events
events-round x d = elim (Bool-cases (held (d.down x))) [ inl e ↦ rw e refl | inr e ↦ rw e refl ]

events-release_each : (xs : List ℕ) (d : KeyDispatcher) → (release_each true xs d).events ≡ d.events
unfolding release_each
events-release_each [] d = refl
events-release_each (x ∷ xs) d = events-release_each xs (round x d) ∙ events-round x d

pump-idle : (d : KeyDispatcher) → d.events ≡ [] → pump true d ≡ frame (record d { events = [] })
unfolding pump release_ready drain_events
pump-idle d quiet =
    ap (λ (es : List KeyEvent). frame (take_all es (record d { events = [] }))) quiet

-- The two frames, from a key that has just been pressed and whose release is pending.
two_frames :
    (k : ℕ) (d : KeyDispatcher)
    → k < 128
    → d.events ≡ []
    → d.down k ≡ some 0
    → member k d.release ≡ true
    → MakeCodes d.release
    → ((frame d).down k ≡ some 1)
      × (occurrences k (frame d).delivered ≡ occurrences k d.delivered)
      × (occurrences (k + 128) (frame d).delivered ≡ occurrences (k + 128) d.delivered)
      × ((pump true (frame d)).down k ≡ none)
      × (occurrences (k + 128) (pump true (frame d)).delivered
          ≡ suc (occurrences (k + 128) d.delivered))
unfolding older held
two_frames k d low quiet new there codes =
    let f = release_each true d.release d in
    let kept = each-Kept k d.release d low codes (ap held new) in
    let g = record (frame d) { events = [] } in
    let old : (frame d).down k ≡ some 1 = ap older (kept.state ∙ new) in
    let out =
      each-Released k f.release g low (kept.codes codes) (kept.pending ∙ there) (ap held old) in
    let next = pump-idle (frame d) (events-release_each d.release d ∙ quiet) in
    (
      old,
      kept.makes,
      kept.breaks,
      ap (λ (t : KeyDispatcher). t.down k) next ∙ ap older out.up,
      ap (λ (t : KeyDispatcher). occurrences (k + 128) t.delivered) next
          ∙ out.break_sent
          ∙ ap suc kept.breaks,
    )

-- A tap on an empty queue.
tap_alone :
    (k : ℕ) (d : KeyDispatcher)
    → k < 128
    → d.events ≡ []
    → d.down k ≡ none
    → MakeCodes d.release
    → TapSeen k d
        (pump true (post_up k (post_down k d)))
        (pump true (pump true (post_up k (post_down k d))))
unfolding set_down
tap_alone k d low quiet free codes =
    let d1 : KeyDispatcher = record {
      delivered = k ∷ d.delivered;
      events = [];
      down = set_down k (some 0) d.down;
      release = add k (discard k d.release);
    } in
    let queued = post_up k (post_down k d) in
    let first : pump true queued ≡ frame d1 =
      pump-frame queued ∙ ap frame (drained k d low quiet free) in
    let self = ==_self k in
    let new : d1.down k ≡ some 0 = rw self refl in
    let seen =
      two_frames k d1 low refl new (member-add k (discard k d.release))
        (add-MakeCodes k (discard k d.release) low (discard-MakeCodes k d.release codes)) in
    let breaks = occurrences-other (k + 128) k d.delivered (λ e. absurd (omega arith)) in
    subst (λ e. TapSeen k d e (pump true e)) (sym first)
      record {
        make_sent = seen.1 ∙ occurrences-same k d.delivered;
        not_released = seen.2 ∙ breaks;
        still_down = seen.0;
        break_sent = seen.4 ∙ ap suc breaks;
        up = seen.3;
      }

-- The same frames, seen from a dispatcher that differs from d in what does not concern the key.
TapSeen-Kept : (k : ℕ) (d e f g : KeyDispatcher) → Kept k d e → TapSeen k e f g → TapSeen k d f g
TapSeen-Kept k d e f g kept seen = record {
  make_sent = seen.make_sent ∙ ap suc kept.makes;
  not_released = seen.not_released ∙ kept.breaks;
  still_down = seen.still_down;
  break_sent = seen.break_sent ∙ ap suc kept.breaks;
  up = seen.up;
}

-- A key with a make code below 128 that is up is pressed and released before a frame starts, behind
-- any queued events of other keys, with only make codes waiting for release, and nothing is posted
-- until the end of the next frame: the key is delivered as pressed in the first frame, stays down over
-- it, and is delivered as released, once, in the next.
pub pump-TapSeen :
    (k : ℕ) (d : KeyDispatcher)
    → k < 128
    → Others k d.events
    → d.down k ≡ none
    → MakeCodes d.release
    → TapSeen k d
        (pump true (post_up k (post_down k d)))
        (pump true (pump true (post_up k (post_down k d))))
unfolding drain_events
pump-TapSeen k d low others free codes =
    let start = record d { events = [] } in
    let e = drain_events d in
    let kept : Kept k start e = take_all-Kept k d.events start others in
    let same : pump true (post_up k (post_down k d)) ≡ pump true (post_up k (post_down k e)) =
      pump-frame (post_up k (post_down k d))
      ∙ ap frame (drain_events-post k d)
      ∙ sym (pump-frame (post_up k (post_down k e))) in
    let alone = tap_alone k e low (events-drain_events d) (kept.state ∙ free) (kept.codes codes) in
    subst (λ p. TapSeen k d p (pump true p)) (sym same)
      (TapSeen-Kept k d e (pump true (post_up k (post_down k e)))
        (pump true (pump true (post_up k (post_down k e))))
        (record {
          state = kept.state;
          breaks = kept.breaks;
          makes = kept.makes;
          pending = kept.pending;
          codes = kept.codes;
        })
        alone)
