-- ===== src/Memory/Block/Load.antt =====
-- `load` and `block` of dos_re/memory.py in real mode: raw copies into and out of the store.
use dos_re.Prelude.{
  ℕ, suc, ◌+◌, ◌<◌, ◌≤◌, bit_and, true, false, none, some, List, [], ◌∷◌, ltb, if◌then◌else◌,
  length, ◌≡◌, refl, ap, ap₂, ◌∙◌, arith, inl, inr,
}
use dos_re.Memory.State.{Memory, M, ok, ◌>>=◌, update, linear}
use dos_re.Memory.State.Steps.{bind_ok, update-same, update-other}
use dos_re.Prelude.{◌⊎◌, Bool}
use dos_re.Prelude.Bits.{bit_and_mask}
use dos_re.Memory.Access.Plain.{linear_lem}
use dos_re.Memory.Access.{check, notify_write}
use dos_re.Memory.Block.{store_slice, load_slice}

-- The part of `load` without selectors.
unfoldable pub load_real : ℕ → ℕ → List ℕ → M (Unit {0})
unfolding check notify_write
load_real seg off payload = check (linear seg off) (length payload) >>= λ addr m.
    notify_write addr (load_slice m.cells addr (length payload)) payload
      (record m { cells = store_slice m.cells addr payload })

-- The part of `block` without selectors.
unfoldable pub block_real : ℕ → ℕ → ℕ → M (List ℕ)
unfolding check
block_real seg off n = check (linear seg off) n >>= λ addr m. ok (load_slice m.cells addr n, m)

pub store_slice-before :
    (cells : ℕ → ℕ) (a x : ℕ) (vs : List ℕ) → x < a → store_slice cells a vs x ≡ cells x
unfolding store_slice
store_slice-before cells a x [] h = refl
store_slice-before cells a x (v ∷ vs) h =
    store_slice-before (update cells a v) (suc a) x vs (omega arith)
    ∙ update-other cells a v x (λ e. omega arith)

pub store_slice-after :
    (cells : ℕ → ℕ) (a x : ℕ) (vs : List ℕ) → a + length vs ≤ x → store_slice cells a vs x ≡ cells x
unfolding store_slice
store_slice-after cells a x [] h = refl
store_slice-after cells a x (v ∷ vs) h =
    store_slice-after (update cells a v) (suc a) x vs (omega arith)
    ∙ update-other cells a v x (λ e. omega arith)

-- A stored slice is loaded again.
pub load_slice-store_slice :
    (cells : ℕ → ℕ) (a : ℕ) (vs : List ℕ) → load_slice (store_slice cells a vs) a (length vs) ≡ vs
unfolding load_slice store_slice
load_slice-store_slice cells a [] = refl
load_slice-store_slice cells a (v ∷ vs) =
    ap₂ (λ x xs. x ∷ xs)
      (store_slice-before (update cells a v) (suc a) a vs (omega arith) ∙ update-same cells a v)
      (load_slice-store_slice (update cells a v) (suc a) vs)

either_memory :
    (b : Bool) (m k : Memory)
    → (n : Memory) × ((if b then record m { log = k.log } else m) ≡ n)
      × (n.cells ≡ m.cells)
      × (n.size ≡ m.size)
either_memory true m k = (record m { log = k.log }, refl, refl, refl)
either_memory false m k = (m, refl, refl, refl)

-- A report changes neither the cells nor the size.
notify_write-cells :
    (m : Memory) (a : ℕ) (old new : List ℕ)
    → (n : Memory) × (notify_write a old new m ≡ ok (tt, n))
      × (n.cells ≡ m.cells)
      × (n.size ≡ m.size)
unfolding notify_write
notify_write-cells m a old new =
    let at : ℕ = elim m.sel_base [ none ↦ bit_and a 0xfffff | some _ ↦ a ] in
    let told = record m { log = record { addr = at; old = old; new = new } ∷ m.log } in
    let e = either_memory m.watched m told in (e.0, ap (λ n. ok (tt, n)) e.1, e.2, e.3)

pub check-linear :
    (m : Memory) (seg off n : ℕ)
    → linear seg off + n ≤ m.size
    → check (linear seg off) n m ≡ ok (linear seg off, m)
unfolding check
check-linear m seg off n h =
    let inside : bit_and (linear seg off) 0xfffff ≡ linear seg off =
      omega (arith, linear_lem seg off, bit_and_mask 20 (linear seg off)) in
    let fits : ltb m.size (linear seg off + n) ≡ false = ground arith in rw (inside, fits) refl

block_real-in :
    (m : Memory) (seg off n : ℕ)
    → linear seg off + n ≤ m.size
    → block_real seg off n m ≡ ok (load_slice m.cells (linear seg off) n, m)
unfolding block_real
block_real-in m seg off n h =
    bind_ok (check (linear seg off) n) (λ addr m. ok (load_slice m.cells addr n, m)) m
      (check-linear m seg off n h)

-- In real mode, bytes loaded inside the store are read back by `block`, whatever the ROM and the
-- planar aperture would do to stores, and no other cell changes.
pub block_real-load_real :
    (m : Memory) (seg off : ℕ) (payload : List ℕ)
    → linear seg off + length payload ≤ m.size
    → (n : Memory) × (load_real seg off payload m ≡ ok (tt, n))
      × (block_real seg off (length payload) n ≡ ok (payload, n))
      × ((x : ℕ)
          → (x < linear seg off) ⊎ (linear seg off + length payload ≤ x)
          → n.cells x ≡ m.cells x)
unfolding load_real
block_real-load_real m seg off payload h =
    let a = linear seg off in
    let len = length payload in
    let stored = record m { cells = store_slice m.cells a payload } in
    let told = notify_write-cells stored a (load_slice m.cells a len) payload in
    let n = told.0 in
    let apart : (x : ℕ) → (x < a) ⊎ (a + len ≤ x) → stored.cells x ≡ m.cells x = λ x side.
      elim side [
        | inl before ↦ store_slice-before m.cells a x payload before
        | inr behind ↦ store_slice-after m.cells a x payload behind
      ] in
    (
      n,
      bind_ok (check a len)
            (λ addr m.
              notify_write addr (load_slice m.cells addr len) payload
                (record m { cells = store_slice m.cells addr payload }))
            m (check-linear m seg off len h)
          ∙ told.1,
      block_real-in n seg off len (rw told.3 h)
          ∙ ap (λ vs. ok (vs, n))
              (ap (λ f. load_slice f a len) told.2 ∙ load_slice-store_slice m.cells a payload),
      λ x side. ap (λ f. f x) told.2 ∙ apart x side,
    )
