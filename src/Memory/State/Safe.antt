-- ===== src/Memory/State/Safe.antt =====
-- The invariant of a real-mode memory, for dos_re/memory.py, and steps that keep it.
use dos_re.Prelude.{ℕ, List, ◌%◌, ◌<◌, ◌≤◌, none, ◌==◌, Bool-cases, inl, inr, ◌≡◌, arith}
use dos_re.Memory.State.{
  Memory, WriteEvent, HoldsBytes, M, Result, ok, err, pure, ◌>>=◌, peek, poke, update, mem_size,
}
use dos_re.Memory.State.Steps.{peek-in, poke-in, passed}

-- Real mode, the full store, every cell and every latch a byte, and a write mode that is modelled.
pub record WellFormed (m : Memory) : Type 0 where
  pub real : m.sel_base ≡ none
  pub room : mem_size ≤ m.size
  pub bytes : HoldsBytes m
  pub latch_bytes : (p : ℕ) → m.ega_latches p < 256
  pub mode : m.ega_write_mode % 4 < 2

-- A result that is no failure, with a value as promised and the invariant intact.
unfoldable pub Safe : {A : Type 0} → (A → Type 0) → Result (A × Memory) → Type 0
Safe P (ok (a, n)) = P a × WellFormed n
Safe P (err e) = ⊥

abbrev pub Byte : ℕ → Type 0
Byte v = v < 256

abbrev pub Done : Unit {0} → Type 0
Done _ = Unit {0}

passed-Safe :
    {A B : Type 0} (P : A → Type 0) (Q : B → Type 0) (k : A → M B) (r : Result (A × Memory))
    → Safe P r
    → ((a : A) (n : Memory) → P a → WellFormed n → Safe Q (k a n))
    → Safe Q (passed A B k r)
unfolding Safe
passed-Safe P Q k (ok (a, n)) h next = next a n h.0 h.1
passed-Safe P Q k (err e) h next = absurd h

-- A safe step followed by steps that are safe from wherever it leads.
pub bind-Safe :
    {A B : Type 0} (P : A → Type 0) (Q : B → Type 0) (f : M A) (k : A → M B) (m : Memory)
    → Safe P (f m)
    → ((a : A) (n : Memory) → P a → WellFormed n → Safe Q (k a n))
    → Safe Q ((f >>= k) m)
bind-Safe P Q f k m h next = passed-Safe P Q k (f m) h next

pub pure-Safe :
    {A : Type 0} (P : A → Type 0) (a : A) (m : Memory) → P a → WellFormed m → Safe P (pure a m)
unfolding Safe
pure-Safe P a m h w = (h, w)

pub peek-Safe : (a : ℕ) (m : Memory) → a < mem_size → WellFormed m → Safe Byte (peek a m)
unfolding Safe HoldsBytes
peek-Safe a m lt w = rw (peek-in m a (omega (arith, w.room))) (w.bytes a, w)

-- The invariant only bounds what changes: the cells, the latches and the log.
pub WellFormed-changed :
    (m : Memory) (cells latches : ℕ → ℕ) (log : List WriteEvent)
    → WellFormed m
    → ((x : ℕ) → cells x < 256)
    → ((p : ℕ) → latches p < 256)
    → WellFormed (record m { cells = cells; ega_latches = latches; log = log })
unfolding HoldsBytes
WellFormed-changed m cells latches log w bytes latch_bytes = record {
  real = w.real;
  room = w.room;
  bytes = bytes;
  latch_bytes = latch_bytes;
  mode = w.mode;
}

pub poke-Safe :
    (a v : ℕ) (m : Memory) → a < mem_size → Byte v → WellFormed m → Safe Done (poke a v m)
unfolding Safe HoldsBytes
poke-Safe a v m lt byte w = rw (poke-in m a v (omega (arith, w.room))) (
  tt,
  WellFormed-changed m (update m.cells a v) m.ega_latches m.log w
      (λ x. elim (Bool-cases (x == a)) [ inl e ↦ rw e byte | inr e ↦ rw e (w.bytes x) ])
      w.latch_bytes,
)
