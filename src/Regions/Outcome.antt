-- ===== src/Regions/Outcome.antt =====
-- How `advance` of dos_re/regions.py ends.
use dos_re.Prelude.{
  Bool, true, false, ◌||◌, Option, some, none, List, [], ◌∷◌, map, if◌then◌else◌, ◌≡◌, refl, sym,
  ap, subst, ◌∙◌, ◌⊎◌, inl, inr, Bool-cases,
}
use mathlib.Core.Option.{none-ne-some}
use dos_re.Regions.{
  Name, same, is_set, declares, RegionProgress, region_progress, ExitPoint, Reply, returned, raised,
  none_active, Adapters, ActiveRegion, Dispatcher, find_exit, leave, follow, advance,
}

or-right : (a b : Bool) → b ≡ true → (a || b) ≡ true
or-right true b h = refl
or-right false b h = h

or-left : (a b : Bool) → a ≡ true → (a || b) ≡ true
or-left a b h = ap (λ t. t || b) h

module _ (A : Adapters) where
  -- An exit point that is found is declared, or was found before.
  find_exit-declares :
      (xs : List ExitPoint) (exit : Name) (found : Option ExitPoint) (x : ExitPoint)
      → find_exit A xs exit found ≡ some x
      → (declares (map (λ x. x.exit_id) xs) exit ≡ true) ⊎ (found ≡ some x)
  unfolding find_exit declares
  find_exit-declares [] exit found x h = inr h
  find_exit-declares (y ∷ ys) exit found x h = elim (Bool-cases (same y.exit_id exit)) [
    | inl e ↦ inl (or-left (same y.exit_id exit) (declares (map (λ x. x.exit_id) ys) exit) e)
    | inr e ↦
        elim (find_exit-declares ys exit (if same y.exit_id exit then some y else found) x h) [
          | inl later ↦
              inl (or-right (same y.exit_id exit) (declares (map (λ x. x.exit_id) ys) exit) later)
          | inr before ↦ inr (sym (ap (λ b. if b then some y else found) e) ∙ before)
        ]
  ]

  -- A yield at a declared replay boundary keeps the region, a declared exit releases it.
  unfoldable pub Progressed : ActiveRegion A → RegionProgress → Dispatcher A → Dispatcher A → Type 0
  Progressed r p d n =
      ((is_set p.boundary_id ≡ true)
        × (declares r.binding.replay_boundaries p.boundary_id ≡ true)
        × (n ≡ d))
      ⊎ ((is_set p.boundary_id ≡ false)
          × (declares (map (λ x. x.exit_id) r.binding.exits) p.exit_id ≡ true)
          × (n ≡ record d { holder = none; last_exit_id = p.exit_id }))

  -- An exception leaves the dispatcher as it was.
  unfoldable pub FollowOutcome :
      ActiveRegion A
      → RegionProgress
      → Dispatcher A
      → Reply RegionProgress × Dispatcher A × A.World
      → Type 0
  unfolding Progressed
  FollowOutcome r p d (returned q, n, w) = (q ≡ p) × Progressed r p d n
  FollowOutcome r p d (raised e, n, w) = n ≡ d

  -- Once the completion callback has answered.
  completed :
      (r : ActiveRegion A) (p : RegionProgress) (d : Dispatcher A) (reply : Reply (Unit {0}))
      (w : A.World)
      → is_set p.boundary_id ≡ false
      → declares (map (λ x. x.exit_id) r.binding.exits) p.exit_id ≡ true
      → FollowOutcome r p d (elim reply [
        | raised e ↦ (raised e, d, w)
        | returned _ ↦ (returned p, record d { holder = none; last_exit_id = p.exit_id }, w)
      ])
  unfolding FollowOutcome
  completed r p d (raised e) w unset there = refl
  completed r p d (returned u) w unset there = (refl, inr (unset, there, refl))

  leave-FollowOutcome :
      (r : ActiveRegion A) (p : RegionProgress) (x : Option ExitPoint) (d : Dispatcher A)
      (w : A.World)
      → is_set p.boundary_id ≡ false
      → find_exit A r.binding.exits p.exit_id none ≡ x
      → FollowOutcome r p d (leave A r p x d w)
  unfolding FollowOutcome leave
  leave-FollowOutcome r p none d w unset found = refl
  leave-FollowOutcome r p (some x) d w unset found =
      let answer = A.run_complete r.complete x w in
      elim (find_exit-declares r.binding.exits p.exit_id none x found) [
        | inl there ↦ completed r p d answer.0 answer.1 unset there
        | inr never ↦ absurd (none-ne-some x never)
      ]

  follow-FollowOutcome :
      (r : ActiveRegion A) (p : RegionProgress) (d : Dispatcher A) (w : A.World)
      → FollowOutcome r p d (follow A r p d w)
  unfolding FollowOutcome follow
  follow-FollowOutcome r p d w = elim (Bool-cases (is_set p.boundary_id)) [
    | inl yields ↦ elim (Bool-cases (declares r.binding.replay_boundaries p.boundary_id)) [
      | inl there ↦ rw (yields, there) (refl, inl (yields, there, refl))
      | inr missing ↦ rw (yields, missing) refl
    ]
    | inr unset ↦
        rw unset
          (leave-FollowOutcome r p (find_exit A r.binding.exits p.exit_id none) d w unset refl)
  ]

  unfoldable pub Outcome :
      Dispatcher A → A.World → Reply RegionProgress × Dispatcher A × A.World → Type 0
  unfolding Progressed
  Outcome d w (returned p, n, w') =
      (r : ActiveRegion A) × (d.holder ≡ some r)
      × ((A.advance_session r.session w).0 ≡ returned p)
      × (region_progress p.boundary_id p.exit_id ≡ some p)
      × Progressed r p d n
  Outcome d w (raised e, n, w') = n ≡ d

  from_follow :
      (r : ActiveRegion A) (p : RegionProgress) (d : Dispatcher A) (w : A.World)
      (end : Reply RegionProgress × Dispatcher A × A.World)
      → d.holder ≡ some r
      → (A.advance_session r.session w).0 ≡ returned p
      → FollowOutcome r p d end
      → Outcome d w end
  unfolding Outcome FollowOutcome
  from_follow r p d w (returned q, n, w') held replied (same_p, progressed) =
      let reply = replied ∙ ap returned (sym same_p) in
      (
        r,
        held,
        reply,
        A.built r.session w q reply,
        subst (λ t. Progressed r t d n) (sym same_p) progressed,
      )
  from_follow r p d w (raised e, n, w') held replied same_d = same_d

  replied-Outcome :
      (d : Dispatcher A) (w w' : A.World) (r : ActiveRegion A) (reply : Reply RegionProgress)
      → d.holder ≡ some r
      → (A.advance_session r.session w).0 ≡ reply
      → Outcome d w (elim reply [ raised e ↦ (raised e, d, w') | returned p ↦ follow A r p d w' ])
  unfolding Outcome
  replied-Outcome d w w' r (raised e) held replied = refl
  replied-Outcome d w w' r (returned p) held replied =
      from_follow r p d w (follow A r p d w') held replied (follow-FollowOutcome r p d w')

  held-Outcome :
      (d : Dispatcher A) (w : A.World) (holder : Option (ActiveRegion A))
      → d.holder ≡ holder
      → Outcome d w (elim holder [
        | none ↦ (raised none_active, d, w)
        | some r ↦
            let (reply, w') = A.advance_session r.session w in
            elim reply [ raised e ↦ (raised e, d, w') | returned p ↦ follow A r p d w' ]
      ])
  unfolding Outcome
  held-Outcome d w none held = refl
  held-Outcome d w (some r) held =
      let answer = A.advance_session r.session w in
      replied-Outcome d w answer.1 r answer.0 held refl

  -- What `advance` may answer: an exception with the dispatcher as it was, or the progress of the
  -- region's own session, which has one identifier; a declared boundary then keeps the region,
  -- and a declared exit releases it and is remembered.
  pub advance-Outcome : (d : Dispatcher A) (w : A.World) → Outcome d w (advance A d w)
  unfolding Outcome advance
  advance-Outcome d w = held-Outcome d w d.holder refl
