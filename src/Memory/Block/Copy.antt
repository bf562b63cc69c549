-- ===== src/Memory/Block/Copy.antt =====
-- `try_forward_bulk_copy` of dos_re/memory.py against the forward loop of byte copies.
use dos_re.Prelude.{
  ℕ, zero, suc, ◌+◌, ◌%◌, ◌<◌, ◌≤◌, bit_and, true, false, some, none, ◌∷◌, ◌==◌, if◌then◌else◌,
  Bool-cases, ◌≡◌, refl, ap, ap₂, ◌∙◌, arith, ◌⊎◌, inl, inr,
}
use dos_re.Prelude.Bits.{bit_and_mask}
use dos_re.Memory.State.{Memory, HoldsBytes, ok, ◌>>=◌, update, linear, bios_rom_base}
use dos_re.Memory.State.Steps.{bind_ok, update-other}
use dos_re.Memory.Access.{rb, wb}
use dos_re.Memory.Access.Plain.{linear-next, rb-plain, wb-plain}
use dos_re.Memory.Block.{
  ordinary_real_mode_range, store_slice, load_slice, unobserved, copy_each, overlaps_forward,
  try_forward_bulk_copy, Bulk,
}
use dos_re.Memory.Block.Range.{Contiguous, Contiguous-stored, ordinary_real_mode_range-Contiguous}
use dos_re.Memory.Block.Store.{unobserved_lem, on_range, Refuses}

pub update_bytes : (f : ℕ → ℕ) (a v x : ℕ) → ((y : ℕ) → f y < 256) → v < 256 → update f a v x < 256
update_bytes f a v x h hv = elim (Bool-cases (x == a)) [ inl e ↦ rw e hv | inr e ↦ rw e (h x) ]

pub load_slice-congr :
    (f g : ℕ → ℕ) (a n : ℕ)
    → ((k : ℕ) → k < n → f (a + k) ≡ g (a + k))
    → load_slice f a n ≡ load_slice g a n
unfolding load_slice
load_slice-congr f g a zero h = refl
load_slice-congr f g a (suc n) h =
    ap₂ (λ x xs. x ∷ xs) (ap f (omega arith) ∙ h 0 (omega arith) ∙ ap g (omega arith))
      (load_slice-congr f g (suc a) n
        (λ k lt. ap f (omega arith) ∙ h (suc k) (omega arith) ∙ ap g (omega arith)))

-- The loop from its k-th byte on, with its cells at s and d: what is still to be read is not
-- written before.
copy_each-slice :
    (m : Memory) (src_seg src_off dst_seg dst_off n src dst k s d left : ℕ)
    → m.sel_base ≡ none
    → m.watched ≡ false
    → HoldsBytes m
    → Contiguous m src_seg src_off n src
    → Contiguous m dst_seg dst_off n dst
    → dst + n ≤ bios_rom_base
    → (dst ≤ src) ⊎ (src + n ≤ dst)
    → k + left ≡ n
    → s ≡ src + k
    → d ≡ dst + k
    → copy_each src_seg (src_off % 65536) dst_seg (dst_off % 65536) k left m
      ≡ ok (tt, record m { cells = store_slice m.cells d (load_slice m.cells s left) })
unfolding copy_each store_slice load_slice HoldsBytes
copy_each-slice m ss so ds dof n src dst k s d zero real quiet bytes cs cd ram apart len at_s at_d =
    refl
copy_each-slice m ss so ds dof n src dst k s d (suc left) real quiet bytes cs cd ram apart len at_s
      at_d =
    let here_s : linear ss (bit_and (so % 65536 + k) 0xffff) ≡ s =
      linear-next ss so k (omega (arith, cs.in_segment)) (omega (arith, cs.start, cs.in_megabyte))
      ∙ omega (arith, cs.start, at_s) in
    let here_d : linear ds (bit_and (dof % 65536 + k) 0xffff) ≡ d =
      linear-next ds dof k (omega (arith, cd.in_segment)) (omega (arith, cd.start, cd.in_megabyte))
      ∙ omega (arith, cd.start, at_d) in
    let v = m.cells s in
    let next = record m { cells = update m.cells d v } in
    let read =
      rb-plain m ss (bit_and (so % 65536 + k) 0xffff) s real here_s (omega (arith, cs.in_store))
        (rw at_s (cs.outside k (omega arith))) in
    let write =
      wb-plain m ds (bit_and (dof % 65536 + k) 0xffff) d v real quiet here_d (omega arith)
        (omega (arith, cd.in_store)) (rw at_d (cd.outside k (omega arith))) (bytes s) in
    let put = λ (x : ℕ). wb ds (bit_and (dof % 65536 + k) 0xffff) x in
    let get = rb ss (bit_and (so % 65536 + k) 0xffff) in
    bind_ok (get >>= put) (λ _. copy_each ss (so % 65536) ds (dof % 65536) (suc k) left) m
      (bind_ok get put m read ∙ write)
    ∙ copy_each-slice next ss so ds dof n src dst (suc k) (suc s) (suc d) left real quiet
        (λ a. update_bytes m.cells d v a bytes (bytes s)) (Contiguous-stored next.cells cs)
        (Contiguous-stored next.cells cd) ram apart (omega arith) (omega arith) (omega arith)
    ∙ ap (λ vs. ok (tt, record m { cells = store_slice (update m.cells d v) (suc d) vs }))
        (load_slice-congr (update m.cells d v) m.cells (suc s) left
          (λ j lt. update-other m.cells d v (suc s + j) (omega arith)))

-- The whole loop, at two addresses that the range tests have passed.
copy_each-ordinary :
    (m : Memory) (ss so ds dof n src dst : ℕ)
    → unobserved m ≡ true
    → HoldsBytes m
    → ordinary_real_mode_range m ss so n false ≡ some src
    → ordinary_real_mode_range m ds dof n true ≡ some dst
    → 0 < n
    → overlaps_forward src dst n ≡ false
    → copy_each ss (bit_and so 0xffff) ds (bit_and dof 0xffff) 0 n m
      ≡ ok (tt, record m { cells = store_slice m.cells dst (load_slice m.cells src n) })
unfolding overlaps_forward
copy_each-ordinary m ss so ds dof n src dst plain bytes from to some_bytes overlap =
    let u = unobserved_lem m plain in
    let cs = ordinary_real_mode_range-Contiguous m ss so n src false from in
    let cd = ordinary_real_mode_range-Contiguous m ds dof n dst true to in
    let rom = cd.1 in
    let apart : (dst ≤ src) ⊎ (src + n ≤ dst) = ground arith in
    ap₂ (λ o p. copy_each ss o ds p 0 n m) (bit_and_mask 16 so) (bit_and_mask 16 dof)
    ∙ copy_each-slice m ss so ds dof n src dst 0 src dst n u.0 u.1 bytes cs.0 cd.0 (ground arith)
        apart (omega arith) (omega arith) (omega arith)

-- Why a bulk copy is left to its caller.
pub RefusesCopy : Memory → ℕ → ℕ → ℕ → ℕ → ℕ → Type 0
RefusesCopy m src_seg src_off dst_seg dst_off n =
    Refuses m src_seg src_off n false
    ⊎ Refuses m dst_seg dst_off n true
    ⊎ ((src dst : ℕ) × (ordinary_real_mode_range m src_seg src_off n false ≡ some src)
        × (ordinary_real_mode_range m dst_seg dst_off n true ≡ some dst)
        × (overlaps_forward src dst n ≡ true))

-- On a memory of bytes a bulk copy never fails: it answers true with the memory that the forward
-- loop of byte copies gives, though it reads the whole source first, or false with the memory as
-- it was; and false only where there are selectors or watchers, a range is not ordinary, or the
-- destination starts inside the source, behind its first byte.
pub try_forward_bulk_copy-Bulk :
    (m : Memory) (src_seg src_off dst_seg dst_off n : ℕ)
    → HoldsBytes m
    → Bulk m
        (copy_each src_seg (bit_and src_off 0xffff) dst_seg (bit_and dst_off 0xffff) 0 n m)
        (RefusesCopy m src_seg src_off dst_seg dst_off n)
        (try_forward_bulk_copy src_seg src_off dst_seg dst_off n m)
unfolding try_forward_bulk_copy RefusesCopy
try_forward_bulk_copy-Bulk m ss so ds dof n bytes =
    let loop = copy_each ss (bit_and so 0xffff) ds (bit_and dof 0xffff) 0 n m in
    let copied =
      λ (src dst : ℕ). record m { cells = store_slice m.cells dst (load_slice m.cells src n) } in
    elim (Bool-cases (n == 0)) [
      | inl e ↦ let none_left : n ≡ 0 = ground arith in rw none_left (unfold Bulk copy_each in refl)
      | inr e ↦ rw e (elim (Bool-cases (unobserved m)) [
        | inr seen ↦ rw seen (unfold Bulk in (refl, inl (unfold Refuses in inl seen)))
        | inl plain ↦ rw plain (
            on_range (Bulk m loop (RefusesCopy m ss so ds dof n))
              (ordinary_real_mode_range m ss so n false)
              (λ src. elim (ordinary_real_mode_range m ds dof n true) [
                | none ↦ ok (false, m)
                | some dst ↦
                    if overlaps_forward src dst n then ok (false, m) else ok (true, copied src dst)
              ])
              (ok (false, m)) (λ e. unfold Bulk in (refl, inl (unfold Refuses in inr e)))
              (λ src from.
                on_range (Bulk m loop (RefusesCopy m ss so ds dof n))
                  (ordinary_real_mode_range m ds dof n true)
                  (λ dst.
                    if overlaps_forward src dst n then ok (false, m) else ok (true, copied src dst))
                  (ok (false, m)) (λ e. unfold Bulk in (refl, inr (inl (unfold Refuses in inr e))))
                  (λ dst to. elim (Bool-cases (overlaps_forward src dst n)) [
                    | inl over ↦
                        rw over (unfold Bulk in (refl, inr (inr (src, dst, from, to, over))))
                    | inr clear ↦ rw clear (
                        unfold Bulk in
                        copy_each-ordinary m ss so ds dof n src dst plain bytes from to
                          (ground arith) clear)
                  ])))
      ])
    ]
