-- ===== src/Keyboard.antt =====
-- `KeyDispatcher` of dos_re/keyboard.py. `deliver` is given as the list of the scan codes that it has
-- been called with, last first; the set of pending releases is a list, of which only the members
-- matter, since the order in which Python walks a set is not fixed.
pub mod Kept
pub mod Queue
pub mod Tap
mod Tests
use dos_re.Prelude.{
  ℕ, zero, suc, ◌+◌, bit_and, bit_or, Bool, true, false, not, ◌&&◌, ◌||◌, ◌==◌, leb, Option, some,
  none, List, [], ◌∷◌, ◌++◌, if◌then◌else◌,
}

pub data KeyEvent : Type 0 where
  down_event up_event : ℕ → KeyEvent

pub record KeyDispatcher : Type 0 where
  pub delivered : List ℕ
  pub events : List KeyEvent
  pub down : ℕ → Option ℕ
  pub release : List ℕ

abbrev pub new_key_dispatcher : KeyDispatcher
new_key_dispatcher = record { delivered = []; events = []; down = λ sc. none; release = [] }

unfoldable pub post_down : ℕ → KeyDispatcher → KeyDispatcher
post_down scancode d = record d { events = d.events ++ (down_event (bit_and scancode 0xff) ∷ []) }

unfoldable pub post_up : ℕ → KeyDispatcher → KeyDispatcher
post_up scancode d = record d { events = d.events ++ (up_event (bit_and scancode 0xff) ∷ []) }

-- `sc in` a set, `discard` and `add`.
unfoldable pub member : ℕ → List ℕ → Bool
member sc [] = false
member sc (x ∷ xs) = x == sc || member sc xs

unfoldable pub discard : ℕ → List ℕ → List ℕ
discard sc [] = []
discard sc (x ∷ xs) = let rest = discard sc xs in if x == sc then rest else x ∷ rest

unfoldable pub add : ℕ → List ℕ → List ℕ
unfolding member
add sc xs = if member sc xs then xs else sc ∷ xs

unfoldable pub set_down : ℕ → Option ℕ → (ℕ → Option ℕ) → ℕ → Option ℕ
set_down sc v down x = if x == sc then v else down x

-- One event of `_drain_events`.
unfoldable pub take_event : KeyEvent → KeyDispatcher → KeyDispatcher
unfolding discard add set_down
take_event (up_event sc) d = record d { release = add sc d.release }
take_event (down_event sc) d =
    let e = record d { release = discard sc d.release } in
    elim (d.down sc) [
      | some frames ↦ e
      | none ↦ record e { delivered = sc ∷ e.delivered; down = set_down sc (some 0) e.down }
    ]

unfoldable pub take_all : List KeyEvent → KeyDispatcher → KeyDispatcher
unfolding take_event
take_all [] d = d
take_all (e ∷ es) d = take_all es (take_event e d)

unfoldable pub drain_events : KeyDispatcher → KeyDispatcher
unfolding take_all
drain_events d = take_all d.events (record d { events = [] })

-- `self._down.get(sc, -1) >= 1`
unfoldable pub held : Option ℕ → Bool
held none = false
held (some frames) = leb 1 frames

-- The loop of `_release_ready` over the rest of the snapshot.
unfoldable pub release_each : Bool → List ℕ → KeyDispatcher → KeyDispatcher
unfolding held set_down discard
release_each hold_new_taps [] d = d
release_each hold_new_taps (sc ∷ rest) d = release_each hold_new_taps rest (
    if held (d.down sc) || not hold_new_taps
    then record d {
      delivered = bit_or sc 0x80 ∷ d.delivered;
      down = set_down sc none d.down;
      release = discard sc d.release;
    }
    else d)

unfoldable pub release_ready : Bool → KeyDispatcher → KeyDispatcher
unfolding release_each
release_ready hold_new_taps d = release_each hold_new_taps d.release d

unfoldable pub pump_events : KeyDispatcher → KeyDispatcher
unfolding drain_events release_ready
pump_events d = release_ready false (drain_events d)

-- `self._down[sc] += 1`
unfoldable pub older : Option ℕ → Option ℕ
older none = none
older (some frames) = some (suc frames)

unfoldable pub pump : Bool → KeyDispatcher → KeyDispatcher
unfolding drain_events release_ready older
pump allow_release d =
    let e = drain_events d in
    let f = if allow_release then release_ready true e else e in
    record f { down = λ sc. older (f.down sc) }
