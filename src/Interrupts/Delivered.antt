-- ===== src/Interrupts/Delivered.antt =====
-- How `deliver_interrupt` of dos_re/interrupts.py ends.
use dos_re.Prelude.{
  ℕ, Bool, true, false, ◌&&◌, ◌==◌, if◌then◌else◌, ◌≡◌, refl, sym, ap, subst, ◌∙◌, ◌⊎◌, inl, inr,
  Bool-cases,
}
use dos_re.Memory.State.{Failure, Result, ok, err}
use dos_re.Cpu.Machine.{Machine, Exec}
use dos_re.Interrupts.{
  Parts, Runtime, Act, ◌>>=◌, origin, read_vector, enter_vector, run_handler, record_interrupt,
  on_machine, deliver_to, deliver_interrupt,
}
use dos_re.Interrupts.Outcome.{HandlerOutcome, Result-cases, bind-ok, bind-err, run_handler-Outcome}

on_machine-ok :
    {D E A : Type 0} (f : Exec A) (rt : Runtime D E) (a : A) (m : Machine)
    → f rt.machine ≡ ok (a, m)
    → on_machine f rt ≡ ok (a, record rt { machine = m })
unfolding on_machine
on_machine-ok f rt a m h =
    ap (λ r. elim r [ ok (a, m) ↦ ok (a, record rt { machine = m }) | err e ↦ err e ]) h

on_machine-err :
    {D E A : Type 0} (f : Exec A) (rt : Runtime D E) (e : Failure)
    → f rt.machine ≡ err e
    → on_machine f rt ≡ err e
unfolding on_machine
on_machine-err f rt e h =
    ap (λ r. elim r [ ok (a, m) ↦ ok (a, record rt { machine = m }) | err e ↦ err e ]) h

module _ (P : Parts) (limit : ℕ) where
  -- What follows the entry, for a handler entered from the machine m.
  abbrev looping : Machine → Unit {0} → Act P Bool
  looping m _ = run_handler P (origin m) limit >>= λ _ n. ok (true, n)

  -- Either the entry fails, or the handler runs from the runtime that it leads to.
  unfoldable pub HandledOutcome :
      (seg off : ℕ) → Runtime P.Devices P.Other → Result (Bool × Runtime P.Devices P.Other) → Type 0
  HandledOutcome seg off rt (ok (answer, q)) =
      (answer ≡ true)
      × ((n : Machine) × (enter_vector seg off rt.machine ≡ ok (tt, n))
          × HandlerOutcome P (origin rt.machine) limit (record rt { machine = n }) (ok (tt, q)))
  HandledOutcome seg off rt (err e) =
      (enter_vector seg off rt.machine ≡ err e)
      ⊎ ((n : Machine) × (enter_vector seg off rt.machine ≡ ok (tt, n))
          × HandlerOutcome P (origin rt.machine) limit (record rt { machine = n }) (err e))

  handled-Outcome :
      (seg off : ℕ) (rt : Runtime P.Devices P.Other)
      → HandledOutcome seg off rt ((on_machine (enter_vector seg off) >>= looping rt.machine) rt)
  unfolding HandledOutcome
  handled-Outcome seg off rt =
      let o = origin rt.machine in
      let enter : Act P (Unit {0}) = on_machine (enter_vector seg off) in
      let after = looping rt.machine in
      elim (Result-cases (enter_vector seg off rt.machine)) [
        | inr (e, h) ↦
            subst (HandledOutcome seg off rt)
              (sym (bind-err enter after rt e (on_machine-err (enter_vector seg off) rt e h)))
              (inl h)
        | inl ((u, n), h) ↦
            let start = record rt { machine = n } in
            let loop : Act P (Unit {0}) = run_handler P o limit in
            let entered =
              bind-ok enter after rt start u (on_machine-ok (enter_vector seg off) rt u n h) in
            let ran = run_handler-Outcome P o limit start in
            elim (Result-cases (loop start)) [
              | inr (e, s) ↦
                  subst (HandledOutcome seg off rt)
                    (sym (entered ∙ bind-err loop (λ _ q. ok (true, q)) start e s))
                    (inr (n, h, subst (HandlerOutcome P o limit start) s ran))
              | inl ((v, q), s) ↦
                  subst (HandledOutcome seg off rt)
                    (sym (entered ∙ bind-ok loop (λ _ q. ok (true, q)) start q v s))
                    (refl, (n, h, subst (HandlerOutcome P o limit start) s ran))
            ]
      ]

  -- Without a handler the answer is false and nothing changes; with one, the interrupt is recorded
  -- first.
  unfoldable pub VectorOutcome :
      (num seg off : ℕ)
      → Runtime P.Devices P.Other
      → Result (Bool × Runtime P.Devices P.Other)
      → Type 0
  unfolding HandledOutcome
  VectorOutcome num seg off rt r =
      (((seg == 0 && off == 0) ≡ true) × (r ≡ ok (false, rt)))
      ⊎ (((seg == 0 && off == 0) ≡ false)
          × HandledOutcome seg off (record rt { sink = record_interrupt num rt.sink }) r)

  deliver_to-Outcome :
      (num seg off : ℕ) (rt : Runtime P.Devices P.Other)
      → VectorOutcome num seg off rt (deliver_to P num limit seg off rt)
  unfolding VectorOutcome deliver_to
  deliver_to-Outcome num seg off rt =
      let recorded = record rt { sink = record_interrupt num rt.sink } in
      let run = (on_machine (enter_vector seg off) >>= looping rt.machine) recorded in
      elim (Bool-cases (seg == 0 && off == 0)) [
        | inl z ↦ inl (z, ap (λ b. if b then ok (false, rt) else run) z)
        | inr z ↦ inr (
          z,
          subst (HandledOutcome seg off recorded)
              (sym (ap (λ b. if b then ok (false, rt) else run) z))
              (handled-Outcome seg off recorded),
        )
      ]

  unfoldable pub DeliveryOutcome :
      ℕ → Runtime P.Devices P.Other → Result (Bool × Runtime P.Devices P.Other) → Type 0
  unfolding VectorOutcome
  DeliveryOutcome num rt r =
      ((e : Failure) × (read_vector num rt.machine ≡ err e) × (r ≡ err e))
      ⊎ ((seg : ℕ) × (off : ℕ) × (m : Machine) × (read_vector num rt.machine ≡ ok ((seg, off), m))
          × VectorOutcome num seg off (record rt { machine = m }) r)

  -- Delivery reads the vector and answers a failure of the read. A null vector is answered by false,
  -- and nothing else changes. Otherwise the interrupt is recorded, where there is a sink, and the
  -- handler entered; then steps, which may change the devices too, are made as long as the interrupted
  -- sp, cs and ip are not back. The answer is true with the runtime in which they are, after at most
  -- the limit many steps; or a failure of the entry or of a step; or the failure of a handler that made
  -- one step more than the limit, each from a runtime in which they were not.
  pub deliver_interrupt-Outcome :
      (num : ℕ) (rt : Runtime P.Devices P.Other)
      → DeliveryOutcome num rt (deliver_interrupt P num limit rt)
  unfolding DeliveryOutcome deliver_interrupt
  deliver_interrupt-Outcome num rt =
      let look : Act P (ℕ × ℕ) = on_machine (read_vector num) in
      let next : ℕ × ℕ → Act P Bool = λ v. deliver_to P num limit v.0 v.1 in
      elim (Result-cases (read_vector num rt.machine)) [
        | inr (e, h) ↦ inl (e, h, bind-err look next rt e (on_machine-err (read_vector num) rt e h))
        | inl (((seg, off), m), h) ↦
            let seen = record rt { machine = m } in
            inr (
              seg,
              off,
              m,
              h,
              subst (VectorOutcome num seg off seen)
                  (sym (
                    bind-ok look next rt seen (seg, off)
                      (on_machine-ok (read_vector num) rt (seg, off) m h)))
                  (deliver_to-Outcome num seg off seen),
            )
      ]
