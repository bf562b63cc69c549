-- ===== src/Regions.antt =====
-- The region dispatcher of dos_re/regions.py. Identifiers are strings, as lists of code points. The
-- sessions and the completion callbacks belong to the port-side adapters and are given as an
-- interface; `world` is whatever they act on, and an exception does not undo their effects.
pub mod Outcome
pub mod Owner
pub mod Sound
mod Tests
use dos_re.Prelude.{
  ℕ, zero, suc, Bool, true, false, not, ◌&&◌, ◌||◌, ◌==◌, Option, some, none, List, [], ◌∷◌, map,
  if◌then◌else◌, ◌≡◌,
}

abbrev pub Name : Type 0
Name = List ℕ

unfoldable pub same : Name → Name → Bool
same [] [] = true
same [] (y ∷ ys) = false
same (x ∷ xs) [] = false
same (x ∷ xs) (y ∷ ys) = x == y && same xs ys

-- `bool(name)`
unfoldable pub is_set : Name → Bool
is_set [] = false
is_set (c ∷ cs) = true

unfoldable pub declares : List Name → Name → Bool
unfolding same
declares [] name = false
declares (x ∷ xs) name = same x name || declares xs name

pub record RegionProgress : Type 0 where
  pub boundary_id : Name
  pub exit_id : Name

-- `RegionProgress(boundary_id=…, exit_id=…)`: none is its ValueError.
unfoldable pub region_progress : Name → Name → Option RegionProgress
unfolding is_set
region_progress boundary exit =
    if (is_set boundary && is_set exit) || (not (is_set boundary) && not (is_set exit))
    then none
    else some record { boundary_id = boundary; exit_id = exit }

unfoldable pub yielded : Name → Option RegionProgress
unfolding region_progress
yielded boundary = region_progress boundary []

unfoldable pub exited : Name → Option RegionProgress
unfolding region_progress
exited exit = region_progress [] exit

pub record EntryPoint : Type 0 where
  pub entry_id : Name
  pub target : Name

pub record ExitPoint : Type 0 where
  pub exit_id : Name
  pub continuation : Name

-- The fields of ResolvedExecutionRegion that the dispatcher reads.
pub record Binding : Type 0 where
  pub region_id : Name
  pub entries : List EntryPoint
  pub exits : List ExitPoint
  pub replay_boundaries : List Name

-- The exceptions: the four RuntimeErrors and the handoff of the dispatcher, the TypeError of
-- `ensure_region_dispatcher`, and whatever an adapter raises.
pub data RegionError : Type 0 where
  already_active undeclared_entry none_active : RegionError
  undeclared_boundary undeclared_exit not_a_dispatcher : RegionError
  region_handoff : (region_id entry_id : Name) → RegionError
  adapter_error : RegionError

pub data Reply (A : Type 0) : Type 0 where
  returned : A → Reply A
  raised : RegionError → Reply A

-- The port-side adapters. What a session returns was built by the constructor of RegionProgress.
pub record Adapters : Type 1 where
  pub Session : Type 0
  pub Complete : Type 0
  pub World : Type 0
  pub advance_session : Session → World → Reply RegionProgress × World
  pub run_complete : Complete → ExitPoint → World → Reply (Unit {0}) × World
  pub built :
      (s : Session) (w : World) (p : RegionProgress)
      → (advance_session s w).0 ≡ returned p
      → region_progress p.boundary_id p.exit_id ≡ some p

module _ (A : Adapters) where
  pub record ActiveRegion : Type 0 where
    pub binding : Binding
    pub entry_id : Name
    pub session : A.Session
    pub complete : A.Complete

  pub record Dispatcher : Type 0 where
    pub holder : Option ActiveRegion
    pub last_region_id : Name
    pub last_entry_id : Name
    pub last_exit_id : Name

  -- `RegionDispatcher()`
  abbrev pub new_dispatcher : Dispatcher
  new_dispatcher = record {
    holder = none;
    last_region_id = [];
    last_entry_id = [];
    last_exit_id = [];
  }

  -- `active`
  unfoldable pub is_active : Dispatcher → Bool
  is_active d = elim d.holder [ none ↦ false | some r ↦ true ]

  unfoldable pub active_region_id : Dispatcher → Name
  active_region_id d = elim d.holder [ none ↦ [] | some r ↦ r.binding.region_id ]

  -- `entry_id in {item.entry_id for item in binding.entries}`
  unfoldable pub entry_declared : Binding → Name → Bool
  unfolding declares
  entry_declared b entry = declares (map (λ e. e.entry_id) b.entries) entry

  unfoldable pub enter :
      Binding → Name → A.Session → A.Complete → Dispatcher → Reply (Unit {0}) × Dispatcher
  unfolding is_active entry_declared
  enter b entry session complete d =
      if is_active d
      then (raised already_active, d)
      else if not (entry_declared b entry)
      then (raised undeclared_entry, d)
      else (
        returned tt,
        record {
          holder =
              some record { binding = b; entry_id = entry; session = session; complete = complete };
          last_region_id = b.region_id;
          last_entry_id = entry;
          last_exit_id = [];
        },
      )

  -- `enter`, and the exception that unwinds the carrier.
  unfoldable pub unwound :
      Binding → Name → Reply (Unit {0}) × Dispatcher → Reply (Unit {0}) × Dispatcher
  unwound b entry (raised e, d) = (raised e, d)
  unwound b entry (returned _, d) = (raised (region_handoff b.region_id entry), d)

  unfoldable pub handoff :
      Binding → Name → A.Session → A.Complete → Dispatcher → Reply (Unit {0}) × Dispatcher
  unfolding enter unwound
  handoff b entry session complete d = unwound b entry (enter b entry session complete d)

  -- `{item.exit_id: item for item in binding.exits}.get(exit_id)`: the last of equal identifiers.
  unfoldable pub find_exit : List ExitPoint → Name → Option ExitPoint → Option ExitPoint
  unfolding same
  find_exit [] exit found = found
  find_exit (x ∷ xs) exit found = find_exit xs exit (if same x.exit_id exit then some x else found)

  -- The exit branch of `advance`, with the exit point looked up.
  unfoldable pub leave :
      ActiveRegion
      → RegionProgress
      → Option ExitPoint
      → Dispatcher
      → A.World
      → Reply RegionProgress × Dispatcher × A.World
  leave r p none d w = (raised undeclared_exit, d, w)
  leave r p (some exit) d w =
      let (reply, w') = A.run_complete r.complete exit w in
      elim reply [
        | raised e ↦ (raised e, d, w')
        | returned _ ↦ (returned p, record d { holder = none; last_exit_id = p.exit_id }, w')
      ]

  -- What `advance` does with the progress of the session.
  unfoldable pub follow :
      ActiveRegion
      → RegionProgress
      → Dispatcher
      → A.World
      → Reply RegionProgress × Dispatcher × A.World
  unfolding is_set declares leave find_exit
  follow r p d w =
      if is_set p.boundary_id
      then (if declares r.binding.replay_boundaries p.boundary_id
          then (returned p, d, w)
          else (raised undeclared_boundary, d, w))
      else leave r p (find_exit r.binding.exits p.exit_id none) d w

  unfoldable pub advance : Dispatcher → A.World → Reply RegionProgress × Dispatcher × A.World
  unfolding follow
  advance d w = elim d.holder [
    | none ↦ (raised none_active, d, w)
    | some r ↦
        let (reply, w') = A.advance_session r.session w in
        elim reply [ raised e ↦ (raised e, d, w') | returned p ↦ follow r p d w' ]
  ]

  unfoldable pub reset : Dispatcher → Dispatcher
  reset d = new_dispatcher

  -- The attribute `execution_regions` of a runtime: missing or None, a dispatcher, or another object.
  pub data Attribute : Type 0 where
    missing other_object : Attribute
    dispatcher : Dispatcher → Attribute

  unfoldable pub ensure_region_dispatcher : Attribute → Reply Dispatcher × Attribute
  ensure_region_dispatcher missing = (returned new_dispatcher, dispatcher new_dispatcher)
  ensure_region_dispatcher (dispatcher d) = (returned d, dispatcher d)
  ensure_region_dispatcher other_object = (raised not_a_dispatcher, other_object)
