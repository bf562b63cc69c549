-- ===== src/Interrupts/Outcome.antt =====
-- How the delivery loop of dos_re/interrupts.py ends.
use dos_re.Prelude.{
  ℕ, zero, suc, ◌≤◌, true, false, ◌≡◌, refl, sym, ap, subst, ◌⊎◌, inl, inr, Bool-cases, arith,
}
use dos_re.Memory.State.{Failure, Result, ok, err, handler_did_not_return}
use dos_re.Interrupts.{Parts, Runtime, ◌>>=◌, Origin, is_back, run_handler}

-- `Steps P o k m z`: from m, k steps of a program that is not back at o before each lead to z.
pub data Steps (P : Parts) (o : Origin)
    : ℕ → Runtime P.Devices P.Other → Runtime P.Devices P.Other → Type 0 where
  stay : (m : Runtime P.Devices P.Other) → Steps P o 0 m m
  go :
      {k : ℕ} {m n z : Runtime P.Devices P.Other} {u : Unit {0}}
      → is_back o m.machine ≡ false
      → P.step m ≡ ok (u, n)
      → Steps P o k n z
      → Steps P o (suc k) m z

-- Back at the origin within the limit, stopped by a failing step, or still away after the last one.
unfoldable pub HandlerOutcome :
    (P : Parts)
    → Origin
    → ℕ
    → Runtime P.Devices P.Other
    → Result (Unit {0} × Runtime P.Devices P.Other)
    → Type 0
HandlerOutcome P o limit m (ok (u, z)) =
    (k : ℕ) × (k ≤ limit) × Steps P o k m z × (is_back o z.machine ≡ true)
HandlerOutcome P o limit m (err e) =
    ((k : ℕ) × (z : Runtime P.Devices P.Other) × (k ≤ limit)
      × Steps P o k m z
      × (is_back o z.machine ≡ false)
      × (P.step z ≡ err e))
    ⊎ ((e ≡ handler_did_not_return) × ((z : Runtime P.Devices P.Other) × Steps P o (suc limit) m z))

pub Result-cases :
    {A : Type 0} (r : Result A) → ((a : A) × (r ≡ ok a)) ⊎ ((e : Failure) × (r ≡ err e))
Result-cases (ok a) = inl (a, refl)
Result-cases (err e) = inr (e, refl)

pub bind-ok :
    {S A B : Type 0} (f : S → Result (A × S)) (k : A → S → Result (B × S)) (s t : S) (a : A)
    → f s ≡ ok (a, t)
    → (f >>= k) s ≡ k a t
bind-ok f k s t a h = ap (λ r. elim r [ ok (a, t) ↦ k a t | err e ↦ err e ]) h

pub bind-err :
    {S A B : Type 0} (f : S → Result (A × S)) (k : A → S → Result (B × S)) (s : S) (e : Failure)
    → f s ≡ err e
    → (f >>= k) s ≡ err e
bind-err f k s e h = ap (λ r. elim r [ ok (a, t) ↦ k a t | err e ↦ err e ]) h

module _ (P : Parts) (o : Origin) where
  back :
      (limit : ℕ) (m : Runtime P.Devices P.Other)
      → is_back o m.machine ≡ true
      → run_handler P o limit m ≡ ok (tt, m)
  unfolding run_handler
  back zero m h = rw h
  back (suc limit) m h = rw h

  failing :
      (limit : ℕ) (m : Runtime P.Devices P.Other) (e : Failure)
      → is_back o m.machine ≡ false
      → P.step m ≡ err e
      → run_handler P o limit m ≡ err e
  unfolding run_handler
  failing zero m e h s = rw h (bind-err P.step (λ _ n. err handler_did_not_return) m e s)
  failing (suc limit) m e h s = rw h (bind-err P.step (λ _ n. run_handler P o limit n) m e s)

  last_step :
      (m n : Runtime P.Devices P.Other) (u : Unit {0})
      → is_back o m.machine ≡ false
      → P.step m ≡ ok (u, n)
      → run_handler P o 0 m ≡ err handler_did_not_return
  unfolding run_handler
  last_step m n u h s = rw h (bind-ok P.step (λ _ n. err handler_did_not_return) m n u s)

  next_step :
      (limit : ℕ) (m n : Runtime P.Devices P.Other) (u : Unit {0})
      → is_back o m.machine ≡ false
      → P.step m ≡ ok (u, n)
      → run_handler P o (suc limit) m ≡ run_handler P o limit n
  unfolding run_handler
  next_step limit m n u h s = rw h (bind-ok P.step (λ _ n. run_handler P o limit n) m n u s)

  -- An outcome from the machine behind a step is one from the machine before it.
  earlier :
      (limit : ℕ) (m n : Runtime P.Devices P.Other) (u : Unit {0})
      (r : Result (Unit {0} × Runtime P.Devices P.Other))
      → is_back o m.machine ≡ false
      → P.step m ≡ ok (u, n)
      → HandlerOutcome P o limit n r
      → HandlerOutcome P o (suc limit) m r
  unfolding HandlerOutcome
  earlier limit m n u (ok (v, z)) h s (k, small, steps, there) =
      (suc k, omega arith, go h s steps, there)
  earlier limit m n u (err e) h s (inl (k, z, small, steps, away, fails)) =
      inl (suc k, z, omega arith, go h s steps, away, fails)
  earlier limit m n u (err e) h s (inr (late, (z, steps))) = inr (late, (z, go h s steps))

  returning :
      (limit : ℕ) (m : Runtime P.Devices P.Other)
      → is_back o m.machine ≡ true
      → HandlerOutcome P o limit m (run_handler P o limit m)
  unfolding HandlerOutcome
  returning limit m h =
      subst (HandlerOutcome P o limit m) (sym (back limit m h)) (zero, omega arith, stay m, h)

  stopping :
      (limit : ℕ) (m : Runtime P.Devices P.Other) (e : Failure)
      → is_back o m.machine ≡ false
      → P.step m ≡ err e
      → HandlerOutcome P o limit m (run_handler P o limit m)
  unfolding HandlerOutcome
  stopping limit m e h s =
      subst (HandlerOutcome P o limit m) (sym (failing limit m e h s))
        (inl (zero, m, omega arith, stay m, h, s))

  stepping :
      (limit : ℕ) (m n : Runtime P.Devices P.Other) (u : Unit {0})
      → is_back o m.machine ≡ false
      → P.step m ≡ ok (u, n)
      → ((l : ℕ) → suc l ≡ limit → HandlerOutcome P o l n (run_handler P o l n))
      → HandlerOutcome P o limit m (run_handler P o limit m)
  unfolding HandlerOutcome
  stepping zero m n u h s rest =
      subst (HandlerOutcome P o 0 m) (sym (last_step m n u h s)) (inr (refl, (n, go h s (stay n))))
  stepping (suc limit) m n u h s rest =
      subst (HandlerOutcome P o (suc limit) m) (sym (next_step limit m n u h s))
        (earlier limit m n u (run_handler P o limit n) h s (rest limit refl))

  -- The loop ends well with a runtime that is back, up to the limit many steps behind m, with none
  -- before it back. Or it fails: with the failure of a step after as many, or because it made one step
  -- more than the limit, each from a runtime that was not back.
  pub run_handler-Outcome :
      (limit : ℕ) (m : Runtime P.Devices P.Other)
      → HandlerOutcome P o limit m (run_handler P o limit m)
  run_handler-Outcome zero m = elim (Bool-cases (is_back o m.machine)) [
    | inl h ↦ returning 0 m h
    | inr h ↦ elim (Result-cases (P.step m)) [
      | inl ((u, n), s) ↦ stepping 0 m n u h s (λ l e. absurd (omega arith))
      | inr (e, s) ↦ stopping 0 m e h s
    ]
  ]
  run_handler-Outcome (suc limit) m = elim (Bool-cases (is_back o m.machine)) [
    | inl h ↦ returning (suc limit) m h
    | inr h ↦ elim (Result-cases (P.step m)) [
      | inl ((u, n), s) ↦ stepping (suc limit) m n u h s (λ l e.
          subst (λ l. HandlerOutcome P o l n (run_handler P o l n)) (omega arith)
            (run_handler-Outcome limit n))
      | inr (e, s) ↦ stopping (suc limit) m e h s
    ]
  ]
