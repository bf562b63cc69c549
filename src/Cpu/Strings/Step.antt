-- ===== src/Cpu/Strings/Step.antt =====
-- One element of a string instruction of dos_re/cpu.py on a well-formed memory.
use dos_re.Prelude.{
  ℕ, Bool, true, false, ◌||◌, ◌==◌, Option, none, if◌then◌else◌, ◌≡◌, refl, sym, ◌∙◌, subst,
  Bool-cases, inl, inr,
}
use dos_re.Prelude.Int.{ℤ}
use dos_re.X86.{CpuState}
use dos_re.Cpu.Regs.{SegReg, al, get_reg8, set_reg8}
use dos_re.Memory.State.{Memory, M, Result, ok, err}
use dos_re.Memory.State.Safe.{WellFormed, Safe, Byte, Done}
use dos_re.Memory.Access.{rb, wb, ww}
use dos_re.Memory.Access
use dos_re.Memory.Access.Safe.{rb-Safe, wb-Safe, rw-Safe, ww-Safe}
use dos_re.Cpu.Machine.{Machine, Exec, return, ◌>=>◌, on_mem}
use dos_re.Cpu.Strings.{
  Host, move_si, move_di, on_regs, source_segment, compare_values, get, put, ins, outs, movs, cmps,
  stos, lods, scas, is_cmps, is_scas, element,
}

-- The host has no port handlers.
unfoldable pub Portless : Host → Type 0
Portless host = (host.port_reader ≡ none) × (host.port_writer ≡ none)

-- A result that is no failure, with a machine as promised.
unfoldable pub Runs : {A : Type 0} → (Machine → Type 0) → Result (A × Machine) → Type 0
Runs P (ok (a, n)) = P n
Runs P (err e) = ⊥

-- A well-formed memory, and c in CX.
unfoldable pub Counted : ℕ → Machine → Type 0
Counted c m = WellFormed m.mem × (m.regs.cx ≡ c)

pub after-Runs :
    {A B : Type 0} (P Q : Machine → Type 0) (k : A → Exec B) (r : Result (A × Machine))
    → Runs P r
    → ((a : A) (n : Machine) → P n → Runs Q (k a n))
    → Runs Q (elim r [ ok (a, n) ↦ k a n | err e ↦ err e ])
unfolding Runs
after-Runs P Q k (ok (a, n)) h next = next a n h
after-Runs P Q k (err e) h next = absurd h

mem-Runs :
    {A : Type 0} (P : A → Type 0) (c : ℕ) (m : Machine) (r : Result (A × Memory))
    → m.regs.cx ≡ c
    → Safe P r
    → Runs (Counted c) (elim r [ ok (a, n) ↦ ok (a, record m { mem = n }) | err e ↦ err e ])
unfolding Runs Counted Safe
mem-Runs P c m (ok (a, n)) count h = (h.1, count)
mem-Runs P c m (err e) count h = h

pub on_mem-Runs :
    {A : Type 0} (P : A → Type 0) (f : M A) (c : ℕ) (m : Machine)
    → Counted c m
    → Safe P (f m.mem)
    → Runs (Counted c) (on_mem f m)
unfolding on_mem Counted
on_mem-Runs P f c m (w, count) h = mem-Runs P c m (f m.mem) count h

get-Runs :
    (width seg off c : ℕ) (m : Machine)
    → Counted c m
    → Runs (Counted c) (on_mem (get width seg off) m)
unfolding get Counted
get-Runs width seg off c m h = elim (Bool-cases (width == 1)) [
  | inl e ↦ rw e (on_mem-Runs Byte (rb seg off) c m h (rb-Safe seg off m.mem h.0))
  | inr e ↦
      rw e (on_mem-Runs Access.Safe.Word (Access.rw seg off) c m h (rw-Safe seg off m.mem h.0))
]

put-Runs :
    (width seg off v c : ℕ) (m : Machine)
    → Counted c m
    → Runs (Counted c) (on_mem (put width seg off v) m)
unfolding put Counted
put-Runs width seg off v c m h = elim (Bool-cases (width == 1)) [
  | inl e ↦ rw e (on_mem-Runs Done (wb seg off v) c m h (wb-Safe seg off v m.mem h.0))
  | inr e ↦ rw e (on_mem-Runs Done (ww seg off v) c m h (ww-Safe seg off v m.mem h.0))
]

-- The element's last step changes neither the memory nor CX.
pub Keeps : (Machine → Machine) → Type 0
Keeps f = (m : Machine) → ((f m).mem ≡ m.mem) × ((f m).regs.cx ≡ m.regs.cx)

last-Runs :
    {A : Type 0} (c : ℕ) (f : A → Machine → Machine) (r : Result (A × Machine))
    → ((a : A) → Keeps (f a))
    → Runs (Counted c) r
    → Runs (Counted c) (elim r [ ok (a, n) ↦ ok (tt, f a n) | err e ↦ err e ])
unfolding Runs Counted Keeps
last-Runs c f (ok (a, n)) keeps h = (subst WellFormed (sym (keeps a n).0) h.0, (keeps a n).1 ∙ h.1)
last-Runs c f (err e) keeps h = h

set_reg8_al-cx : (v : ℕ) (s : CpuState) → (set_reg8 al v s).cx ≡ s.cx
unfolding set_reg8
set_reg8_al-cx v s = refl

load_al : (width value : ℕ) → CpuState → CpuState
load_al width value s = if width == 1 then set_reg8 al value s else record s { ax = value }

load_al-cx : (width value : ℕ) (s : CpuState) → (load_al width value s).cx ≡ s.cx
unfolding load_al
load_al-cx width value s = elim (Bool-cases (width == 1)) [
  | inl e ↦ rw e (set_reg8_al-cx value s)
  | inr e ↦ rw e refl
]

-- Every element runs, keeps the memory well formed, and leaves CX alone.
module _ (host : Host) (portless : Portless host) (c : ℕ) where
  ins-Runs :
      (width : ℕ) (delta : ℤ) (m : Machine)
      → Counted c m
      → Runs (Counted c) (ins host width delta m)
  unfolding ins Portless Keeps move_di
  ins-Runs width delta m h = rw (portless.0) (
      last-Runs c (λ _. move_di delta) (on_mem (put width m.regs.es m.regs.di 0) m)
        (λ a n. (refl, refl)) (put-Runs width m.regs.es m.regs.di 0 c m h))

  outs-Runs :
      (seg : Option SegReg) (width : ℕ) (delta : ℤ) (m : Machine)
      → Counted c m
      → Runs (Counted c) (outs host seg width delta m)
  unfolding outs Portless Keeps move_si
  outs-Runs seg width delta m h =
      subst
        (λ (w : Option ((port value bits : ℕ) → Exec (Unit {0}))).
          Runs (Counted c) (outs (record host { port_writer = w }) seg width delta m))
        (sym portless.1)
        (last-Runs c (λ _. move_si delta)
          (on_mem (get width (source_segment seg m.regs) m.regs.si) m) (λ a n. (refl, refl))
          (get-Runs width (source_segment seg m.regs) m.regs.si c m h))

  movs-Runs :
      (seg : Option SegReg) (width : ℕ) (delta : ℤ) (m : Machine)
      → Counted c m
      → Runs (Counted c) (movs seg width delta m)
  unfolding movs Keeps move_si move_di
  movs-Runs seg width delta m h =
      after-Runs (Counted c) (Counted c)
        (λ value n.
          (on_mem (put width n.regs.es n.regs.di value) >=> λ _ k.
          ok (tt, move_di delta (move_si delta k)))
            n)
        (on_mem (get width (source_segment seg m.regs) m.regs.si) m)
        (get-Runs width (source_segment seg m.regs) m.regs.si c m h)
        (λ value n k.
          last-Runs c (λ _ t. move_di delta (move_si delta t))
            (on_mem (put width n.regs.es n.regs.di value) n) (λ a t. (refl, refl))
            (put-Runs width n.regs.es n.regs.di value c n k))

  cmps-Runs :
      (seg : Option SegReg) (width : ℕ) (delta : ℤ) (m : Machine)
      → Counted c m
      → Runs (Counted c) (cmps seg width delta m)
  unfolding cmps Keeps move_si move_di compare_values
  cmps-Runs seg width delta m h =
      after-Runs (Counted c) (Counted c)
        (λ left n.
          (on_mem (get width n.regs.es n.regs.di) >=> λ right k.
          ok (tt, move_di delta (move_si delta (compare_values width left right k))))
            n)
        (on_mem (get width (source_segment seg m.regs) m.regs.si) m)
        (get-Runs width (source_segment seg m.regs) m.regs.si c m h)
        (λ left n k.
          last-Runs c (λ right t. move_di delta (move_si delta (compare_values width left right t)))
            (on_mem (get width n.regs.es n.regs.di) n) (λ a t. (refl, refl))
            (get-Runs width n.regs.es n.regs.di c n k))

  stos-Runs :
      (width : ℕ) (delta : ℤ) (m : Machine) → Counted c m → Runs (Counted c) (stos width delta m)
  unfolding stos Keeps move_di
  stos-Runs width delta m h =
      last-Runs c (λ _. move_di delta) (on_mem (put width m.regs.es m.regs.di m.regs.ax) m)
        (λ a n. (refl, refl)) (put-Runs width m.regs.es m.regs.di m.regs.ax c m h)

  lods-Runs :
      (seg : Option SegReg) (width : ℕ) (delta : ℤ) (m : Machine)
      → Counted c m
      → Runs (Counted c) (lods seg width delta m)
  unfolding lods Keeps move_si load_al
  lods-Runs seg width delta m h =
      last-Runs c (λ value t. move_si delta (on_regs (load_al width value) t))
        (on_mem (get width (source_segment seg m.regs) m.regs.si) m)
        (λ value t. (refl, load_al-cx width value t.regs))
        (get-Runs width (source_segment seg m.regs) m.regs.si c m h)

  scas-Runs :
      (width : ℕ) (delta : ℤ) (m : Machine) → Counted c m → Runs (Counted c) (scas width delta m)
  unfolding scas Keeps move_di compare_values
  scas-Runs width delta m h =
      last-Runs c
        (λ value t.
          move_di delta
            (compare_values width (if width == 1 then get_reg8 al t.regs else t.regs.ax) value t))
        (on_mem (get width m.regs.es m.regs.di) m) (λ value t. (refl, refl))
        (get-Runs width m.regs.es m.regs.di c m h)

  either-Runs :
      (b : Bool) (f g : Exec (Unit {0})) (m : Machine)
      → Runs (Counted c) (f m)
      → Runs (Counted c) (g m)
      → Runs (Counted c) ((if b then f else g) m)
  either-Runs true f g m h k = h
  either-Runs false f g m h k = k

  -- Whatever the opcode, one element runs.
  pub element-Runs :
      (op : ℕ) (seg : Option SegReg) (width : ℕ) (delta : ℤ) (m : Machine)
      → Counted c m
      → Runs (Counted c) (element host op seg width delta m)
  unfolding element Runs
  element-Runs op seg width delta m h =
      let keep : Exec (Unit {0}) = return tt in
      let f7 : Exec (Unit {0}) = if is_scas op then scas width delta else keep in
      let f6 : Exec (Unit {0}) = if op == 0xac || op == 0xad then lods seg width delta else f7 in
      let f5 : Exec (Unit {0}) = if op == 0xaa || op == 0xab then stos width delta else f6 in
      let f4 : Exec (Unit {0}) = if is_cmps op then cmps seg width delta else f5 in
      let f3 : Exec (Unit {0}) = if op == 0xa4 || op == 0xa5 then movs seg width delta else f4 in
      let f2 : Exec (Unit {0}) =
        if op == 0x6e || op == 0x6f then outs host seg width delta else f3 in
      either-Runs (op == 0x6c || op == 0x6d) (ins host width delta) f2 m (ins-Runs width delta m h)
        (either-Runs (op == 0x6e || op == 0x6f) (outs host seg width delta) f3 m
          (outs-Runs seg width delta m h)
          (either-Runs (op == 0xa4 || op == 0xa5) (movs seg width delta) f4 m
            (movs-Runs seg width delta m h)
            (either-Runs (is_cmps op) (cmps seg width delta) f5 m (cmps-Runs seg width delta m h) (
              either-Runs (op == 0xaa || op == 0xab) (stos width delta) f6 m
                (stos-Runs width delta m h)
                (either-Runs (op == 0xac || op == 0xad) (lods seg width delta) f7 m
                  (lods-Runs seg width delta m h)
                  (either-Runs (is_scas op) (scas width delta) keep m (scas-Runs width delta m h)
                    h))))))
