-- ===== src/Regions/Owner.antt =====
-- Who owns execution, over the calls of dos_re/regions.py in any order.
use dos_re.Prelude.{
  true, false, Option, some, none, List, [], ◌∷◌, ◌≡◌, refl, sym, ap, subst, inl, inr, Bool-cases,
}
use mathlib.Core.Bool.{true≢false}
use dos_re.Regions.{
  Name, Binding, RegionProgress, Reply, returned, raised, unwound, Adapters, ActiveRegion,
  Dispatcher, is_active, entry_declared, enter, handoff, advance, reset,
}
use dos_re.Regions.Outcome.{Outcome, Progressed, advance-Outcome}

module _ (A : Adapters) where
  pub data Call : Type 0 where
    enter_call handoff_call : Binding → Name → A.Session → A.Complete → Call
    advance_call reset_call : Call

  -- The dispatcher and the adapters' world after a call.
  unfoldable pub perform : Call → Dispatcher A × A.World → Dispatcher A × A.World
  unfolding enter handoff advance reset
  perform (enter_call b e s k) (d, w) = ((enter A b e s k d).1, w)
  perform (handoff_call b e s k) (d, w) = ((handoff A b e s k d).1, w)
  perform advance_call (d, w) = let (reply, n, w') = advance A d w in (n, w')
  perform reset_call (d, w) = (reset A d, w)

  unfoldable pub run : List Call → Dispatcher A × A.World → Dispatcher A × A.World
  unfolding perform
  run [] t = t
  run (c ∷ cs) t = run cs (perform c t)

  -- The abstract state: the region and the entry that own execution.
  unfoldable pub owner_of : Option (ActiveRegion A) → Option (Name × Name)
  owner_of none = none
  owner_of (some r) = some (r.binding.region_id, r.entry_id)

  abbrev pub owner : Dispatcher A → Option (Name × Name)
  owner d = owner_of d.holder

  -- What a call may do to the owner.
  pub data Moves : Call → Option (Name × Name) → Option (Name × Name) → Type 0 where
    keeps : (c : Call) (o : Option (Name × Name)) → Moves c o o
    starts :
        (b : Binding) (e : Name) (s : A.Session) (k : A.Complete)
        → entry_declared A b e ≡ true
        → Moves (enter_call b e s k) none (some (b.region_id, e))
    hands_off :
        (b : Binding) (e : Name) (s : A.Session) (k : A.Complete)
        → entry_declared A b e ≡ true
        → Moves (handoff_call b e s k) none (some (b.region_id, e))
    leaves : (o : Name × Name) → Moves advance_call (some o) none
    drops : (o : Option (Name × Name)) → Moves reset_call o none

  is_active-none : (d : Dispatcher A) → is_active A d ≡ false → owner d ≡ none
  unfolding is_active owner_of
  is_active-none d h = inactive d.holder h
    where
      inactive :
          (o : Option (ActiveRegion A))
          → elim o [ none ↦ false | some r ↦ true ] ≡ false
          → owner_of o ≡ none
      inactive none h = refl
      inactive (some r) h = absurd (true≢false h)

  -- What `enter` answers: an exception with the dispatcher as it was, or the region as the owner.
  unfoldable pub EnterOutcome :
      Binding
      → Name
      → A.Session
      → A.Complete
      → Dispatcher A
      → Reply (Unit {0}) × Dispatcher A
      → Type 0
  EnterOutcome b e s k d (raised x, n) = n ≡ d
  EnterOutcome b e s k d (returned u, n) =
      (owner d ≡ none)
      × (entry_declared A b e ≡ true)
      × (n ≡ record {
        holder = some record { binding = b; entry_id = e; session = s; complete = k };
        last_region_id = b.region_id;
        last_entry_id = e;
        last_exit_id = [];
      })

  pub enter-EnterOutcome :
      (b : Binding) (e : Name) (s : A.Session) (k : A.Complete) (d : Dispatcher A)
      → EnterOutcome b e s k d (enter A b e s k d)
  unfolding enter EnterOutcome
  enter-EnterOutcome b e s k d = elim (Bool-cases (is_active A d)) [
    | inl held ↦ rw held refl
    | inr free ↦ elim (Bool-cases (entry_declared A b e)) [
      | inl there ↦ rw (free, there) (is_active-none d free, there, refl)
      | inr missing ↦ rw (free, missing) refl
    ]
  ]

  unwound-keeps :
      (b : Binding) (e : Name) (q : Reply (Unit {0}) × Dispatcher A) → (unwound A b e q).1 ≡ q.1
  unfolding unwound
  unwound-keeps b e (raised x, n) = refl
  unwound-keeps b e (returned u, n) = refl

  -- The exception of `handoff` changes no more than `enter`.
  pub handoff-enter :
      (b : Binding) (e : Name) (s : A.Session) (k : A.Complete) (d : Dispatcher A)
      → (handoff A b e s k d).1 ≡ (enter A b e s k d).1
  unfolding handoff
  handoff-enter b e s k d = unwound-keeps b e (enter A b e s k d)

  entered-Moves :
      (c : Call) (b : Binding) (e : Name) (s : A.Session) (k : A.Complete) (d : Dispatcher A)
      (q : Reply (Unit {0}) × Dispatcher A)
      → (entry_declared A b e ≡ true → Moves c none (some (b.region_id, e)))
      → EnterOutcome b e s k d q
      → Moves c (owner d) (owner q.1)
  unfolding EnterOutcome owner_of
  entered-Moves c b e s k d (raised x, n) start h =
      subst (λ t. Moves c (owner d) (owner t)) (sym h) (keeps c (owner d))
  entered-Moves c b e s k d (returned u, n) start (free, there, same_n) =
      subst (λ o. Moves c o (owner n)) (sym free)
        (subst (λ t. Moves c none (owner t)) (sym same_n) (start there))

  Progressed-Moves :
      (r : ActiveRegion A) (p : RegionProgress) (d n : Dispatcher A)
      → d.holder ≡ some r
      → Progressed A r p d n
      → Moves advance_call (owner d) (owner n)
  unfolding Progressed owner_of
  Progressed-Moves r p d n held (inl (yields, there, same_n)) =
      subst (λ t. Moves advance_call (owner d) (owner t)) (sym same_n)
        (keeps advance_call (owner d))
  Progressed-Moves r p d n held (inr (unset, there, same_n)) =
      subst (λ t. Moves advance_call (owner d) (owner t)) (sym same_n)
        (subst (λ o. Moves advance_call o none) (sym (ap owner_of held))
          (leaves (r.binding.region_id, r.entry_id)))

  advanced-Moves :
      (d : Dispatcher A) (w : A.World) (q : Reply RegionProgress × Dispatcher A × A.World)
      → Outcome A d w q
      → Moves advance_call (owner d) (owner q.1)
  unfolding Outcome
  advanced-Moves d w (raised e, n, w') same_n =
      subst (λ t. Moves advance_call (owner d) (owner t)) (sym same_n)
        (keeps advance_call (owner d))
  advanced-Moves d w (returned p, n, w') (r, held, replied, valid, progressed) =
      Progressed-Moves r p d n held progressed

  -- Every call, whether it returns or raises, moves the owner as the specification allows: from no
  -- owner to a region at an entry that it declares, from an owner to none, or not at all; never
  -- from one region to another.
  pub perform-Moves :
      (c : Call) (d : Dispatcher A) (w : A.World) → Moves c (owner d) (owner (perform c (d, w)).0)
  unfolding perform owner_of
  perform-Moves (enter_call b e s k) d w =
      entered-Moves (enter_call b e s k) b e s k d (enter A b e s k d) (starts b e s k)
        (enter-EnterOutcome b e s k d)
  perform-Moves (handoff_call b e s k) d w =
      subst (λ t. Moves (handoff_call b e s k) (owner d) (owner t)) (sym (handoff-enter b e s k d))
        (entered-Moves (handoff_call b e s k) b e s k d (enter A b e s k d) (hands_off b e s k)
          (enter-EnterOutcome b e s k d))
  perform-Moves advance_call d w = advanced-Moves d w (advance A d w) (advance-Outcome A d w)
  perform-Moves reset_call d w = drops (owner d)
