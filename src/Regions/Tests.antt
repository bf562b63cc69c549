-- ===== src/Regions/Tests.antt =====
-- A region that yields once and then leaves, for the dispatcher of dos_re/regions.py.
use dos_re.Prelude.{ℕ, zero, suc, some, none, [], ◌∷◌, ◌≡◌, refl, subst, ap}
use dos_re.Regions.{
  RegionProgress, region_progress, Binding, Reply, returned, raised, Adapters, Dispatcher,
  new_dispatcher, advance, yielded, exited,
}
use dos_re.Regions.Outcome.{Outcome, advance-Outcome}
use dos_re.Regions.Owner.{
  enter_call, advance_call, perform, run, owner, owner_of, Moves, perform-Moves,
}
use dos_re.Regions.Sound.{Sound, run-Sound}

abbrev tick : RegionProgress
tick = record { boundary_id = 116 ∷ []; exit_id = [] }

abbrev over : RegionProgress
over = record { boundary_id = []; exit_id = 111 ∷ [] }

-- The world counts the advances.
abbrev step : Unit {0} → ℕ → Reply RegionProgress × ℕ
step s zero = (returned tick, 1)
step s (suc w) = (returned over, suc (suc w))

abbrev finish : Unit {0} → ℕ → Reply (Unit {0}) × ℕ
finish k w = (returned tt, w)

progress_of : Reply RegionProgress → RegionProgress
progress_of (returned p) = p
progress_of (raised e) = tick

step-built :
    (s : Unit {0}) (w : ℕ) (p : RegionProgress)
    → (step s w).0 ≡ returned p
    → region_progress p.boundary_id p.exit_id ≡ some p
unfolding progress_of region_progress
step-built s zero p h =
    subst (λ q. region_progress q.boundary_id q.exit_id ≡ some q) (ap progress_of h) refl
step-built s (suc w) p h =
    subst (λ q. region_progress q.boundary_id q.exit_id ≡ some q) (ap progress_of h) refl

abbrev adapters : Adapters
adapters = record {
  Session = Unit;
  Complete = Unit;
  World = ℕ;
  advance_session = step;
  run_complete = λ k x w. finish k w;
  built = step-built;
}

abbrev island : Binding
island = record {
  region_id = 105 ∷ [];
  entries = record { entry_id = 101 ∷ []; target = 1 ∷ [] } ∷ [];
  exits = record { exit_id = 111 ∷ []; continuation = 2 ∷ [] } ∷ [];
  replay_boundaries = (116 ∷ []) ∷ [];
}

abbrev begun : Dispatcher adapters × ℕ
begun = run adapters (enter_call island (101 ∷ []) tt tt ∷ []) (new_dispatcher adapters, 0)

owned : owner adapters begun.0 ≡ some (105 ∷ [], 101 ∷ [])
unfolding run owner_of
owned = refl

built_progress : (yielded (116 ∷ []) ≡ some tick) × (exited (111 ∷ []) ≡ some over)
unfolding yielded exited
built_progress = (refl, refl)

neither : region_progress [] [] ≡ none
unfolding region_progress
neither = refl

left : (advance adapters (perform adapters advance_call begun).0 1).1 ≡ record {
  holder = none;
  last_region_id = 105 ∷ [];
  last_entry_id = 101 ∷ [];
  last_exit_id = 111 ∷ [];
}
unfolding run advance
left = refl

advance-Outcome_example : Outcome adapters begun.0 0 (advance adapters begun.0 0)
advance-Outcome_example = advance-Outcome adapters begun.0 0

perform-Moves_example :
    Moves adapters advance_call
      (owner adapters begun.0)
      (owner adapters (perform adapters advance_call (begun.0, 1)).0)
perform-Moves_example = perform-Moves adapters advance_call begun.0 1

run-Sound_example :
    Sound adapters
      (run adapters
        (enter_call island (101 ∷ []) tt tt ∷ advance_call ∷ [])
        (new_dispatcher adapters, 0)).0
run-Sound_example = run-Sound adapters (enter_call island (101 ∷ []) tt tt ∷ advance_call ∷ []) 0
