-- ===== src/Pic/Service.antt =====
-- Runs of the controller of dos_re/pic.py: devices raise lines, the program masks and ends
-- interrupts, and the processor polls.
mod Tests
use dos_re.Prelude.{
  ℕ, suc, ◌+◌, ◌-◌, ◌*◌, ◌%◌, ◌^◌, ◌<◌, ◌≤◌, min, max, bit_and, bit_or, ◌≡◌, ◌≢◌, refl, sym, ◌∙◌,
  ap, arith, ◌⊎◌, inl, inr, Option, some, none, List, [], ◌∷◌, true, false, Bool-cases, truthy,
  if◌then◌else◌, ◌==◌, subst,
}
use native.Mathlib.Decide.{ℕ_discrete}
use native.Mathlib.Nat.{mod_self, one-le-pow}
use dos_re.Prelude.Bits.{
  bit, bit-le, bit-and, bit-or, bit-clear, bit-zero, bit-pow_self, bit-pow_ne, bit_and_mask,
  bit_ext, bit_and_pow,
}
use dos_re.Pic.{Pic8259, reset_pic, raise_irq, set_mask, eoi, acknowledge}
use dos_re.Pic.Acknowledge.{IsHighest, delivered, acknowledge-IsHighest}

-- `Run s log t`: from `s` to `t`, delivering the lines of `log`, the last one first.
pub data Run (s : Pic8259) : List ℕ → Pic8259 → Type 0 where
  start : Run s [] s
  raised : {log : List ℕ} {t : Pic8259} → Run s log t → (n : ℕ) → Run s log (raise_irq n t)
  masked : {log : List ℕ} {t : Pic8259} → Run s log t → (v : ℕ) → Run s log (set_mask v t)
  ended : {log : List ℕ} {t : Pic8259} → Run s log t → Run s log (eoi t)
  quiet : {log : List ℕ} {t u : Pic8259} → Run s log t → acknowledge t ≡ (u, none) → Run s log u
  polled :
      {log : List ℕ} {t u : Pic8259} {k : ℕ}
      → Run s log t
      → acknowledge t ≡ (u, some k)
      → Run s (k ∷ log) u

abbrev pub Delivered : ℕ → List ℕ → Type 0
Delivered k [] = ⊥
Delivered k (j ∷ log) = (k ≡ j) ⊎ Delivered k log

-- No interrupt in service, or one.
abbrev pub Serving : Pic8259 → Type 0
Serving p = (p.isr ≡ 0) ⊎ ((k : ℕ) × (k < 8) × (p.isr ≡ 2 ^ k))

-- What one poll does to the request register and to the service register.
abbrev Polled : Pic8259 → Pic8259 × Option ℕ → Type 0
Polled p (q, none) = q ≡ p
Polled p (q, some k) = (k < 8) × (q.isr ≡ 2 ^ k) × ((j : ℕ) → j ≢ k → bit j q.irr ≡ bit j p.irr)

poll_lem : (p : Pic8259) → Polled p (acknowledge p)
poll_lem p = elim (acknowledge-IsHighest p) [
  | inl (busy, e) ↦ rw e refl
  | inr (inl (idle, none_left, e)) ↦ rw e refl
  | inr (inr (idle, (k, highest, e))) ↦
      rw e
        (highest.0.line, refl, λ j ne. omega (arith, bit-clear j p.irr (2 ^ k), bit-pow_ne j k ne))
]

-- A single bit minus one shares no bit with it.
one_cleared : (k : ℕ) → bit_and (2 ^ k) (2 ^ k - 1) ≡ 0
one_cleared k = bit_and_mask k (2 ^ k) ∙ mod_self (2 ^ k)

eoi-idle : (p : Pic8259) → Serving p → (eoi p).isr ≡ 0
unfolding eoi
eoi-idle p (inl e) = let off : truthy p.isr ≡ false = ground arith in rw off e
eoi-idle p (inr (k, lt, e)) =
    let on : truthy p.isr ≡ true = ground (arith, one-le-pow k 2) in
    rw on (ap (λ v. bit_and v (v - 1)) e ∙ one_cleared k)

eoi-irr : (p : Pic8259) → (eoi p).irr ≡ p.irr
unfolding eoi
eoi-irr p = elim (Bool-cases (truthy p.isr)) [ inl on ↦ rw on | inr off ↦ rw off ]

Run-Serving : {s t : Pic8259} {log : List ℕ} → Run s log t → Serving s → Serving t
unfolding raise_irq set_mask
Run-Serving start h = h
Run-Serving (raised r n) h = Run-Serving r h
Run-Serving (masked r v) h = Run-Serving r h
Run-Serving (ended {t = t} r) h = inl (eoi-idle t (Run-Serving r h))
Run-Serving (quiet {t = t} r e) h =
    subst Serving (sym (subst (Polled t) e (poll_lem t))) (Run-Serving r h)
Run-Serving (polled {t = t} {k = k} r e) h =
    let step = subst (Polled t) e (poll_lem t) in inr (k, step.0, step.1)

-- A request survives everything but its own delivery.
kept :
    {s t : Pic8259} {log : List ℕ} (k : ℕ)
    → Run s log t
    → bit k s.irr ≡ 1
    → (bit k t.irr ≡ 1) ⊎ Delivered k log
unfolding raise_irq set_mask
kept k start h = inl h
kept k (raised {t = t} r n) h = elim (kept k r h) [
  | inl up ↦ inl (omega (arith, bit-or k t.irr (2 ^ bit_and n 7), bit-le k (2 ^ bit_and n 7), up))
  | inr done ↦ inr done
]
kept k (masked r v) h = kept k r h
kept k (ended {t = t} r) h = rw (eoi-irr t) (kept k r h)
kept k (quiet {t = t} {u = u} r e) h =
    let same : u ≡ t = subst (Polled t) e (poll_lem t) in rw same (kept k r h)
kept k (polled {t = t} {k = j} r e) h =
    let step = subst (Polled t) e (poll_lem t) in
    elim (ℕ_discrete k j) [
      | yes own ↦ inr (inl own)
      | no ne ↦ elim (kept k r h) [ inl up ↦ inl (step.2 k ne ∙ up) | inr done ↦ inr (inr done) ]
    ]

-- From the reset state, after any run at most one interrupt is in service, its line is one of the
-- eight, and an end of interrupt leaves none in service.
pub Run-serves_one :
    {log : List ℕ} {t : Pic8259} → Run reset_pic log t → Serving t × ((eoi t).isr ≡ 0)
Run-serves_one {t = t} r = let h = Run-Serving r (inl refl) in (h, eoi-idle t h)

-- A request is never lost: once line n has been raised, then after any further run, whatever is
-- masked, raised, ended or polled meanwhile, the request of line n modulo 8 is still there unless
-- a poll has delivered that line.
pub raise_irq-kept :
    (n : ℕ) (s : Pic8259) {log : List ℕ} {t : Pic8259}
    → Run (raise_irq n s) log t
    → (bit (n % 8) t.irr ≡ 1) ⊎ Delivered (n % 8) log
unfolding raise_irq
raise_irq-kept n s r =
    let line : bit_and n 7 ≡ n % 8 = bit_and_mask 3 n in
    kept (n % 8) r (
      rw line (
        omega
          (arith, bit-or (n % 8) s.irr (2 ^ (n % 8)), bit-pow_self (n % 8), bit-le (n % 8) s.irr)))
