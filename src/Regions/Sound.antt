-- ===== src/Regions/Sound.antt =====
-- What the dispatcher of dos_re/regions.py remembers, over any sequence of calls.
use dos_re.Prelude.{true, Option, some, none, List, [], ◌∷◌, ◌≡◌, refl, sym, subst, inl, inr}
use dos_re.Regions.{
  Name, Binding, RegionProgress, Reply, returned, raised, Adapters, ActiveRegion, Dispatcher,
  new_dispatcher, entry_declared, enter, advance,
}
use dos_re.Regions.Outcome.{Outcome, Progressed, advance-Outcome}
use dos_re.Regions.Owner.{
  Call, enter_call, handoff_call, advance_call, reset_call, perform, run, EnterOutcome,
  enter-EnterOutcome, handoff-enter,
}

module _ (A : Adapters) where
  -- What the dispatcher remembers of the region that owns execution: it was entered where it
  -- declares an entry, and the last identifiers are those of this entry, without an exit.
  unfoldable pub Remembers : Dispatcher A → Option (ActiveRegion A) → Type 0
  Remembers d none = Unit
  Remembers d (some r) =
      (entry_declared A r.binding r.entry_id ≡ true)
      × (d.last_region_id ≡ r.binding.region_id)
      × (d.last_entry_id ≡ r.entry_id)
      × (d.last_exit_id ≡ [])

  abbrev pub Sound : Dispatcher A → Type 0
  Sound d = Remembers d d.holder

  entered-Sound :
      (b : Binding) (e : Name) (s : A.Session) (k : A.Complete) (d : Dispatcher A)
      (q : Reply (Unit {0}) × Dispatcher A)
      → Sound d
      → EnterOutcome A b e s k d q
      → Sound q.1
  unfolding EnterOutcome Remembers
  entered-Sound b e s k d (raised x, n) sound h = subst Sound (sym h) sound
  entered-Sound b e s k d (returned u, n) sound (free, there, same_n) =
      subst Sound (sym same_n) (there, refl, refl, refl)

  advanced-Sound :
      (d : Dispatcher A) (w : A.World) (q : Reply RegionProgress × Dispatcher A × A.World)
      → Sound d
      → Outcome A d w q
      → Sound q.1
  unfolding Outcome Progressed Remembers
  advanced-Sound d w (raised e, n, w') sound same_n = subst Sound (sym same_n) sound
  advanced-Sound d w (returned p, n, w') sound
        (r, held, replied, valid, inl (yields, there, same_n)) =
      subst Sound (sym same_n) sound
  advanced-Sound d w (returned p, n, w') sound
        (r, held, replied, valid, inr (unset, there, same_n)) =
      subst Sound (sym same_n) tt

  perform-Sound :
      (c : Call A) (d : Dispatcher A) (w : A.World) → Sound d → Sound (perform A c (d, w)).0
  unfolding perform Remembers
  perform-Sound (enter_call b e s k) d w sound =
      entered-Sound b e s k d (enter A b e s k d) sound (enter-EnterOutcome A b e s k d)
  perform-Sound (handoff_call b e s k) d w sound =
      subst Sound (sym (handoff-enter A b e s k d))
        (entered-Sound b e s k d (enter A b e s k d) sound (enter-EnterOutcome A b e s k d))
  perform-Sound advance_call d w sound =
      advanced-Sound d w (advance A d w) sound (advance-Outcome A d w)
  perform-Sound reset_call d w sound = tt

  run-from :
      (cs : List (Call A)) (d : Dispatcher A) (w : A.World) → Sound d → Sound (run A cs (d, w)).0
  unfolding run
  run-from [] d w sound = sound
  run-from (c ∷ cs) d w sound =
      run-from cs (perform A c (d, w)).0 (perform A c (d, w)).1 (perform-Sound c d w sound)

  -- After any calls to a new dispatcher, the region that owns execution, if one does, was entered
  -- at an entry that it declares, and the dispatcher remembers this entry and no exit.
  pub run-Sound : (cs : List (Call A)) (w : A.World) → Sound (run A cs (new_dispatcher A, w)).0
  unfolding Remembers
  run-Sound cs w = run-from cs (new_dispatcher A) w tt
