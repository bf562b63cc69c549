-- ===== src/Memory/State/Steps.antt =====
-- How single steps of the memory's monad run when they succeed, for dos_re/memory.py.
use dos_re.Prelude.{ℕ, ◌<◌, true, false, ltb, ◌==◌, ◌≡◌, ◌≢◌, refl, ap, arith}
use dos_re.Memory.State.{Memory, M, Result, ok, err, ◌>>=◌, peek, poke, update}

abbrev pub passed : (A B : Type 0) → (A → M B) → Result (A × Memory) → Result (B × Memory)
passed A B k r = elim r [ ok (a, n) ↦ k a n | err e ↦ err e ]

-- A step that succeeds hands its result on.
pub bind_ok :
    {A B : Type 0} {n : Memory} {a : A} (f : M A) (k : A → M B) (m : Memory)
    → f m ≡ ok (a, n)
    → (f >>= k) m ≡ k a n
bind_ok {A} {B} f k m e = ap (passed A B k) e

pub peek-in : (m : Memory) (a : ℕ) → a < m.size → peek a m ≡ ok (m.cells a, m)
unfolding peek
peek-in m a room = let small : ltb a m.size ≡ true = ground arith in rw small refl

pub poke-in :
    (m : Memory) (a v : ℕ)
    → a < m.size
    → poke a v m ≡ ok (tt, record m { cells = update m.cells a v })
unfolding poke
poke-in m a v room = let small : ltb a m.size ≡ true = ground arith in rw small refl

pub update-other : (f : ℕ → ℕ) (a v x : ℕ) → x ≢ a → update f a v x ≡ f x
update-other f a v x h = let off : (x == a) ≡ false = ground arith in rw off refl

pub update-same : (f : ℕ → ℕ) (a v : ℕ) → update f a v a ≡ v
update-same f a v = let on : (a == a) ≡ true = ground arith in rw on refl
