-- ===== src/Cpu/Strings/Ends.antt =====
-- The repetition of `string_op` of dos_re/cpu.py ends, with what it leaves in CX.
use dos_re.Prelude.{
  ℕ, zero, suc, ◌+◌, ◌*◌, ◌/◌, ◌^◌, ◌%◌, ◌<◌, ◌≤◌, bit_and, Bool, true, false, not, ◌&&◌, ◌||◌,
  ◌==◌, ltb, leb, Option, some, List, [], ◌∷◌, length, if◌then◌else◌, ◌≡◌, refl, sym, ap, ◌∙◌,
  subst, arith, le→ltb, Bool-cases, inl, inr,
}
use dos_re.Prelude.Bits.{bit_and_mask}
use dos_re.Prelude.Int.{ℤ, negsuc, ◌+ℤ◌}
use mathlib.Core.Bool.{true≢false}
use dos_re.X86.{df}
use dos_re.Cpu.Flags.{get_flag}
use dos_re.Cpu.Regs.{SegReg}
use dos_re.Memory.State.{Memory, M, Result, ok, err, ◌>>=◌}
use dos_re.Memory.State.Safe.{WellFormed, Safe, Byte, Done, bind-Safe, pure-Safe}
use dos_re.Memory.Access.{rb, wb}
use dos_re.Memory.Access.Safe.{rb-Safe, wb-Safe}
use dos_re.Memory.Block.{
  Bulk, wb_each, copy_each, repeated, try_forward_bulk_fill, try_forward_bulk_copy,
}
use dos_re.Memory.Block.Store.{AllBytes, Refuses, try_forward_bulk_fill-Bulk}
use dos_re.Memory.Block.Copy.{RefusesCopy, try_forward_bulk_copy-Bulk}
use dos_re.Cpu.Machine.{Machine, Exec, on_mem}
use dos_re.Cpu.Machine.Address.{displaced}
use dos_re.Cpu.Strings.{
  Host, is_cmps, is_scas, element, count_down, stops, loop, fill_pattern, filled, copied, bulk,
  string_op, width_of, delta_of, source_segment,
}
use dos_re.Cpu.Strings.Step.{Portless, Runs, Counted, after-Runs, element-Runs}

and-false : (a b : Bool) → a ≡ false → (a && b) ≡ false
and-false false b h = refl
and-false true b h = absurd (true≢false h)

-- A well-formed memory, at most c in CX, and none unless the instruction compares.
unfoldable pub Ended : ℕ → ℕ → Machine → Type 0
Ended op c m =
    WellFormed m.mem × (m.regs.cx ≤ c) × ((is_cmps op || is_scas op) ≡ false → m.regs.cx ≡ 0)

pub displaced-one : (x : ℕ) → displaced (suc x) (negsuc 0) ≡ x % 65536
unfolding displaced ◌+ℤ◌
displaced-one x =
    let above : leb 1 (suc x + 0) ≡ true = ground arith in
    rw above (ap (λ t. bit_and t 0xffff) (omega arith) ∙ bit_and_mask 16 x)

implied-Runs :
    {A : Type 0} (P Q : Machine → Type 0) (r : Result (A × Machine))
    → ((n : Machine) → P n → Q n)
    → Runs P r
    → Runs Q r
unfolding Runs
implied-Runs P Q (ok (a, n)) weaker h = weaker n h
implied-Runs P Q (err e) weaker h = h

-- What follows an element: a stop on a comparison, or the rest of the loop.
rest-Runs :
    (op prefix c : ℕ) (rest : Exec (Unit {0})) (n : Machine)
    → Counted c n
    → Runs (Ended op c) (rest n)
    → Runs (Ended op (suc c)) (if stops op (some prefix) n.regs then ok (tt, n) else rest n)
unfolding stops Runs Ended Counted
rest-Runs op prefix c rest n (w, cx) more = elim (Bool-cases (stops op (some prefix) n.regs)) [
  | inl halt ↦ rw halt (
    w,
    omega arith,
    λ plain. absurd (true≢false (sym halt ∙ and-false (is_cmps op || is_scas op) _ plain)),
  )
  | inr on ↦ rw on (
      implied-Runs (Ended op c) (Ended op (suc c)) (rest n) (λ k e. (e.0, omega (arith, e.1), e.2))
        more)
]

loop-Runs :
    (host : Host) (portless : Portless host) (op prefix : ℕ) (seg : Option SegReg) (width : ℕ)
    (delta : ℤ) (count : ℕ) (m : Machine)
    → count < 65536
    → Counted count m
    → Runs (Ended op count) (loop host op (some prefix) seg width delta count m)
unfolding loop Runs Counted Ended count_down
loop-Runs host portless op prefix seg width delta zero m small (w, cx) = (w, omega arith, λ h. cx)
loop-Runs host portless op prefix seg width delta (suc count) m small h =
    let more : Exec (Unit {0}) = loop host op (some prefix) seg width delta count in
    after-Runs (Counted (suc count)) (Ended op (suc count))
      (λ _ n.
        if stops op (some prefix) (count_down (some prefix) n).regs
        then ok (tt, count_down (some prefix) n)
        else more (count_down (some prefix) n))
      (element host op seg width delta m)
      (element-Runs host portless (suc count) op seg width delta m h)
      (λ _ n k.
        let left : displaced n.regs.cx (negsuc 0) ≡ count =
          ap (λ x. displaced x (negsuc 0)) k.1 ∙ displaced-one count ∙ omega arith in
        rest-Runs op prefix count more (count_down (some prefix) n) (k.0, left)
          (loop-Runs host portless op prefix seg width delta count (count_down (some prefix) n)
            (omega arith) (k.0, left)))

wb_each-Safe :
    (seg off i : ℕ) (vs : List ℕ) (m : Memory) → WellFormed m → Safe Done (wb_each seg off i vs m)
unfolding wb_each
wb_each-Safe seg off i [] m w = pure-Safe Done tt m tt w
wb_each-Safe seg off i (v ∷ vs) m w =
    bind-Safe Done Done (wb seg (bit_and (off + i) 0xffff) v) (λ _. wb_each seg off (suc i) vs) m
      (wb-Safe seg (bit_and (off + i) 0xffff) v m w)
      (λ _ n _ k. wb_each-Safe seg off (suc i) vs n k)

copy_each-Safe :
    (src_seg src_off dst_seg dst_off i n : ℕ) (m : Memory)
    → WellFormed m
    → Safe Done (copy_each src_seg src_off dst_seg dst_off i n m)
unfolding copy_each
copy_each-Safe ss so ds dof i zero m w = pure-Safe Done tt m tt w
copy_each-Safe ss so ds dof i (suc n) m w =
    let read = rb ss (bit_and (so + i) 0xffff) in
    let write : ℕ → M (Unit {0}) = wb ds (bit_and (dof + i) 0xffff) in
    bind-Safe Done Done (read >>= write) (λ _. copy_each ss so ds dof (suc i) n) m
      (bind-Safe Byte Done read write m (rb-Safe ss (bit_and (so + i) 0xffff) m w)
        (λ v k _ h. wb-Safe ds (bit_and (dof + i) 0xffff) v k h))
      (λ _ k _ h. copy_each-Safe ss so ds dof (suc i) n k h)

-- A bulk attempt: done, or nothing changed.
unfoldable pub Attempted : ℕ → ℕ → Machine → Result (Bool × Machine) → Type 0
Attempted op c m (ok (true, n)) = Ended op c n
Attempted op c m (ok (false, n)) = n ≡ m
Attempted op c m (err e) = ⊥

-- The registers after a bulk operation.
Clears : (Machine → Machine) → Type 0
Clears f = (n : Machine) → ((f n).mem ≡ n.mem) × ((f n).regs.cx ≡ 0)

abbrev pub carried : Machine → Result (Bool × Memory) → Result (Bool × Machine)
carried m r = elim r [ ok (a, n) ↦ ok (a, record m { mem = n }) | err e ↦ err e ]

abbrev pub finished : (Machine → Machine) → Result (Bool × Machine) → Result (Bool × Machine)
finished f r = elim r [ ok (done, k) ↦ ok (done, if done then f k else k) | err e ↦ err e ]

attempt :
    (op c : ℕ) (f : Machine → Machine) (m : Machine) (through : Result (Unit {0} × Memory))
    (Reason : Type 0) (r : Result (Bool × Memory))
    → Clears f
    → Safe Done through
    → Bulk m.mem through Reason r
    → Attempted op c m (finished f (carried m r))
unfolding Attempted Bulk Ended Clears Safe
attempt op c f m through Reason (ok (true, n)) clears safe same =
    let k = record m { mem = n } in
    let w : WellFormed n = (subst (Safe Done) same safe).1 in
    (subst WellFormed (sym (clears k).0) w, omega (arith, (clears k).1), λ plain. (clears k).1)
attempt op c f m through Reason (ok (false, n)) clears safe same =
    ap (λ x. record m { mem = x }) same.0
attempt op c f m through Reason (err e) clears safe bad = bad

fill_pattern-AllBytes : (width v : ℕ) → AllBytes (fill_pattern width v)
unfolding AllBytes fill_pattern
fill_pattern-AllBytes width v = elim (Bool-cases (width == 1)) [
  | inl e ↦ rw e (omega (arith, bit_and_mask 8 v), tt)
  | inr e ↦ rw e (omega (arith, bit_and_mask 8 v), (omega (arith, bit_and_mask 8 (v / 2 ^ 8)), tt))
]

pub fill_pattern-some : (width v : ℕ) → 0 < length (fill_pattern width v)
unfolding fill_pattern
fill_pattern-some width v = ground arith

bulk-Attempted :
    (op : ℕ) (seg : Option SegReg) (width c count : ℕ) (m : Machine)
    → WellFormed m.mem
    → Attempted op c m (bulk op seg width count m)
unfolding bulk filled copied Clears on_mem Attempted
bulk-Attempted op seg width c count m w =
    let s = m.regs in
    let n = count * width in
    elim (Bool-cases (op == 0xaa || op == 0xab)) [
      | inl store ↦ rw store (
          attempt op c (filled n) m
            (wb_each s.es (bit_and s.di 0xffff) 0 (repeated (fill_pattern width s.ax) count) m.mem)
            (Refuses m.mem s.es s.di (length (fill_pattern width s.ax) * count) true)
            (try_forward_bulk_fill s.es s.di (fill_pattern width s.ax) count m.mem)
            (λ k. (refl, refl))
            (wb_each-Safe s.es (bit_and s.di 0xffff) 0 (repeated (fill_pattern width s.ax) count)
              m.mem w)
            (try_forward_bulk_fill-Bulk m.mem s.es s.di (fill_pattern width s.ax) count
              (fill_pattern-some width s.ax) (fill_pattern-AllBytes width s.ax)))
      | inr other ↦ elim (Bool-cases (op == 0xa4 || op == 0xa5)) [
        | inl copy ↦
            rw (other, copy)
              (attempt op c (copied n) m
                (copy_each (source_segment seg s) (bit_and s.si 0xffff) s.es (bit_and s.di 0xffff) 0
                  n m.mem)
                (RefusesCopy m.mem (source_segment seg s) s.si s.es s.di n)
                (try_forward_bulk_copy (source_segment seg s) s.si s.es s.di n m.mem)
                (λ k. (refl, refl))
                (copy_each-Safe (source_segment seg s) (bit_and s.si 0xffff) s.es
                  (bit_and s.di 0xffff) 0 n m.mem w)
                (try_forward_bulk_copy-Bulk m.mem (source_segment seg s) s.si s.es s.di n w.bytes))
        | inr neither ↦ rw (other, neither) refl
      ]
    ]

-- The bulk attempt and, where it has refused, the loop.
bulk_or_loop :
    (op c : ℕ) (whole : Exec (Unit {0})) (m : Machine) (r : Result (Bool × Machine))
    → Runs (Ended op c) (whole m)
    → Attempted op c m r
    → Runs
        (Ended op c)
        (elim r [ ok (done, n) ↦ if done then ok (tt, n) else whole n | err e ↦ err e ])
unfolding Runs Attempted
bulk_or_loop op c whole m (ok (true, n)) slow h = h
bulk_or_loop op c whole m (ok (false, n)) slow h =
    subst (λ k. Runs (Ended op c) (whole k)) (sym h) slow
bulk_or_loop op c whole m (err e) slow h = h

-- A repeated string instruction on a well-formed memory ends without a failure, by the loop or by
-- the bulk path: the memory stays well formed, CX has not grown, and it is zero unless the
-- instruction compares. The count is at most the limit of the host, which has no port handlers.
pub string_op-Runs :
    (host : Host) (op prefix : ℕ) (seg : Option SegReg) (m : Machine)
    → Portless host
    → WellFormed m.mem
    → m.regs.cx < 65536
    → m.regs.cx ≤ host.max_rep_count
    → Runs (Ended op m.regs.cx) (string_op host op (some prefix) seg m)
unfolding string_op Counted
string_op-Runs host op prefix seg m portless w small within =
    let width = width_of op in
    let delta = delta_of width m.regs in
    let count = m.regs.cx in
    let whole : Exec (Unit {0}) = loop host op (some prefix) seg width delta count in
    let slow = loop-Runs host portless op prefix seg width delta count m small (w, refl) in
    let allowed : ltb host.max_rep_count count ≡ false = le→ltb host.max_rep_count count within in
    rw allowed (elim (Bool-cases (ltb 8 count && not (get_flag df m.regs.flags))) [
      | inl fast ↦ rw fast (
          bulk_or_loop op count whole m (bulk op seg width count m) slow
            (bulk-Attempted op seg width count count m w))
      | inr plain ↦ rw plain slow
    ])
