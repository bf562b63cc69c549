-- ===== src/Cpu/Strings/Fast.antt =====
-- The bulk path of `string_op` of dos_re/cpu.py against its loop.
use dos_re.Prelude.{
  ℕ, zero, suc, ◌+◌, ◌*◌, ◌<◌, bit_and, Bool, true, false, ◌||◌, ◌==◌, some, none, List, length,
  if◌then◌else◌, ◌≡◌, refl, sym, ap, ◌∙◌, subst, arith, Bool-cases, inl, inr, ◌⊎◌,
}
use dos_re.Prelude.Int.{pos}
use dos_re.Prelude.Bits.{bit_and_mask}
use dos_re.Memory.State.{Memory, Result, ok, err}
use dos_re.Memory.Block.{
  ordinary_real_mode_range, unobserved, store_slice, load_slice, repeated, overlaps_forward,
  try_forward_bulk_fill, try_forward_bulk_copy,
}
use dos_re.Memory.Block.Store.{on_range}
use dos_re.Cpu.Machine.{Machine, Exec}
use dos_re.Cpu.Machine.Address.{displaced}
use dos_re.Cpu.Machine.Address.Signed.{positive}
use dos_re.Cpu.Strings.{fill_pattern, filled, copied, width_of}
use dos_re.Cpu.Strings.Ends.{carried, finished}
use dos_re.Cpu.Strings.Bulk.{ByteOrWord}
use dos_re.Cpu.Strings.Loop.{advanced}

pub advanced-suc : (c w x : ℕ) → advanced (suc c) w x ≡ bit_and (x + suc c * w) 0xffff
unfolding advanced
advanced-suc zero w x = positive x w ∙ omega (arith, bit_and_mask 16 (x + suc zero * w))
advanced-suc (suc c) w x =
    advanced-suc c w (displaced x (pos w))
    ∙ omega (
      arith,
      positive x w,
      bit_and_mask 16 (displaced x (pos w) + suc c * w),
      bit_and_mask 16 (x + suc (suc c) * w),
    )

pub width_of-ByteOrWord : (op : ℕ) → ByteOrWord (width_of op)
unfolding width_of
width_of-ByteOrWord op =
    elim (Bool-cases (
      op == 0x6d
      || op == 0x6f
      || op == 0xa5
      || op == 0xa7
      || op == 0xab
      || op == 0xad
      || op == 0xaf)) [ inl e ↦ rw e (inr refl) | inr e ↦ rw e (inl refl) ]

-- What the loop and the bulk path have to agree on.
unfoldable pub Agrees : Exec (Unit {0}) → Machine → Result (Bool × Machine) → Type 0
Agrees whole m (ok (true, n)) = whole m ≡ ok (tt, n)
Agrees whole m (ok (false, n)) = n ≡ m
Agrees whole m (err e) = ⊥

pub settled :
    (whole : Exec (Unit {0})) (m : Machine) (r : Result (Bool × Machine))
    → Agrees whole m r
    → elim r [ ok (done, n) ↦ if done then ok (tt, n) else whole n | err e ↦ err e ] ≡ whole m
unfolding Agrees
settled whole m (ok (true, n)) h = sym h
settled whole m (ok (false, n)) h = ap whole h
settled whole m (err e) h = absurd h

-- The two answers of a bulk fill: refused, or done on an ordinary range.
unfoldable pub FillAnswer : Memory → ℕ → ℕ → List ℕ → ℕ → Result (Bool × Memory) → Type 0
FillAnswer m seg off pattern count r =
    (r ≡ ok (false, m))
    ⊎ ((a : ℕ) × (unobserved m ≡ true)
        × (ordinary_real_mode_range m seg off (length pattern * count) true ≡ some a)
        × (r ≡ ok (true, record m { cells = store_slice m.cells a (repeated pattern count) })))

pub fill-FillAnswer :
    (m : Memory) (seg off : ℕ) (pattern : List ℕ) (count : ℕ)
    → 0 < length pattern
    → 0 < length pattern * count
    → FillAnswer m seg off pattern count (try_forward_bulk_fill seg off pattern count m)
unfolding try_forward_bulk_fill
fill-FillAnswer m seg off pattern count some_pattern some_bytes =
    let n = length pattern * count in
    let long : (length pattern == 0) ≡ false = ground arith in
    let some_n : (n == 0) ≡ false = ground arith in
    rw (long, some_n)
      (elim (Bool-cases (unobserved m)) [
        | inr seen ↦ rw seen (unfold FillAnswer in inl refl)
        | inl plain ↦ rw plain (
            on_range (FillAnswer m seg off pattern count)
              (ordinary_real_mode_range m seg off n true)
              (λ a. ok (true, record m { cells = store_slice m.cells a (repeated pattern count) }))
              (ok (false, m)) (λ e. unfold FillAnswer in inl refl)
              (λ a range. unfold FillAnswer in inr (a, plain, range, refl)))
      ])

-- The two answers of a bulk copy.
unfoldable pub CopyAnswer : Memory → ℕ → ℕ → ℕ → ℕ → ℕ → Result (Bool × Memory) → Type 0
CopyAnswer m ss so ds dof n r =
    (r ≡ ok (false, m))
    ⊎ ((src dst : ℕ) × (unobserved m ≡ true)
        × (ordinary_real_mode_range m ss so n false ≡ some src)
        × (ordinary_real_mode_range m ds dof n true ≡ some dst)
        × (overlaps_forward src dst n ≡ false)
        × (r ≡ ok (true, record m { cells = store_slice m.cells dst (load_slice m.cells src n) })))

pub copy-CopyAnswer :
    (m : Memory) (ss so ds dof n : ℕ)
    → 0 < n
    → CopyAnswer m ss so ds dof n (try_forward_bulk_copy ss so ds dof n m)
unfolding try_forward_bulk_copy
copy-CopyAnswer m ss so ds dof n some_bytes =
    let moved =
      λ (src dst : ℕ). record m { cells = store_slice m.cells dst (load_slice m.cells src n) } in
    let P = CopyAnswer m ss so ds dof n in
    let some_n : (n == 0) ≡ false = ground arith in
    rw some_n (elim (Bool-cases (unobserved m)) [
      | inr seen ↦ rw seen (unfold CopyAnswer in inl refl)
      | inl plain ↦ rw plain (
          on_range P (ordinary_real_mode_range m ss so n false)
            (λ src. elim (ordinary_real_mode_range m ds dof n true) [
              | none ↦ ok (false, m)
              | some dst ↦
                  if overlaps_forward src dst n then ok (false, m) else ok (true, moved src dst)
            ])
            (ok (false, m)) (λ e. unfold CopyAnswer in inl refl)
            (λ src from.
              on_range P (ordinary_real_mode_range m ds dof n true)
                (λ dst.
                  if overlaps_forward src dst n then ok (false, m) else ok (true, moved src dst))
                (ok (false, m)) (λ e. unfold CopyAnswer in inl refl)
                (λ dst to. elim (Bool-cases (overlaps_forward src dst n)) [
                  | inl over ↦ rw over (unfold CopyAnswer in inl refl)
                  | inr clear ↦
                      rw clear (unfold CopyAnswer in inr (src, dst, plain, from, to, clear, refl))
                ])))
    ])

pub fill-Agrees :
    (whole : Exec (Unit {0})) (m : Machine) (w count : ℕ) (r : Result (Bool × Memory))
    → FillAnswer m.mem m.regs.es m.regs.di (fill_pattern w m.regs.ax) count r
    → ((a : ℕ)
        → unobserved m.mem ≡ true
        → ordinary_real_mode_range m.mem m.regs.es m.regs.di
            (length (fill_pattern w m.regs.ax) * count)
            true
          ≡ some a
        → whole m
          ≡ ok (
            tt,
            filled (count * w) (record m {
              mem = record (m.mem) {
                cells = store_slice m.mem.cells a (repeated (fill_pattern w m.regs.ax) count);
              };
            }),
          ))
    → Agrees whole m (finished (filled (count * w)) (carried m r))
unfolding FillAnswer Agrees
fill-Agrees whole m w count r (inl refused) slow =
    subst (λ t. Agrees whole m (finished (filled (count * w)) (carried m t))) (sym refused) refl
fill-Agrees whole m w count r (inr (a, plain, range, done)) slow =
    subst (λ t. Agrees whole m (finished (filled (count * w)) (carried m t))) (sym done)
      (slow a plain range)

pub copy-Agrees :
    (whole : Exec (Unit {0})) (m : Machine) (from n : ℕ) (r : Result (Bool × Memory))
    → CopyAnswer m.mem from m.regs.si m.regs.es m.regs.di n r
    → ((src dst : ℕ)
        → unobserved m.mem ≡ true
        → ordinary_real_mode_range m.mem from m.regs.si n false ≡ some src
        → ordinary_real_mode_range m.mem m.regs.es m.regs.di n true ≡ some dst
        → overlaps_forward src dst n ≡ false
        → whole m
          ≡ ok (
            tt,
            copied n (record m {
              mem = record (m.mem) {
                cells = store_slice m.mem.cells dst (load_slice m.mem.cells src n);
              };
            }),
          ))
    → Agrees whole m (finished (copied n) (carried m r))
unfolding CopyAnswer Agrees
copy-Agrees whole m from n r (inl refused) slow =
    subst (λ t. Agrees whole m (finished (copied n) (carried m t))) (sym refused) refl
copy-Agrees whole m from n r (inr (src, dst, plain, read, write, clear, done)) slow =
    subst (λ t. Agrees whole m (finished (copied n) (carried m t))) (sym done)
      (slow src dst plain read write clear)
