-- ===== src/Memory/Access/Run.antt =====
-- Sequences of accesses through `rb`, `rw`, `wb` and `ww` of dos_re/memory.py.
use dos_re.Prelude.{ℕ, List, [], ◌∷◌}
use dos_re.Memory.State.{Memory, M, pure, ◌>>=◌, ◌>>◌}
use dos_re.Memory.State.Safe.{WellFormed, Safe, Done, Byte, bind-Safe, pure-Safe}
use dos_re.Memory.Access.{rb, wb, ww}
use dos_re.Memory.Access
use dos_re.Memory.Access.Safe.{Word, rb-Safe, wb-Safe, rw-Safe, ww-Safe}

-- One access: its address, and what it writes.
pub data Request : Type 0 where
  read_byte read_word : (seg off : ℕ) → Request
  write_byte write_word : (seg off value : ℕ) → Request

pub perform : List Request → M (Unit {0})
perform [] = pure tt
perform (Request.read_byte seg off ∷ rs) = rb seg off >>= λ _. perform rs
perform (Request.read_word seg off ∷ rs) = Access.rw seg off >>= λ _. perform rs
perform (Request.write_byte seg off value ∷ rs) = wb seg off value >> perform rs
perform (Request.write_word seg off value ∷ rs) = ww seg off value >> perform rs

-- On a well-formed memory no sequence of accesses fails, whatever the addresses and values, and
-- the memory stays well formed: every cell and latch a byte.
pub perform-Safe : (rs : List Request) (m : Memory) → WellFormed m → Safe Done (perform rs m)
unfolding perform
perform-Safe [] m w = pure-Safe Done tt m tt w
perform-Safe (Request.read_byte seg off ∷ rs) m w =
    bind-Safe Byte Done (rb seg off) (λ _. perform rs) m (rb-Safe seg off m w)
      (λ _ n _ wn. perform-Safe rs n wn)
perform-Safe (Request.read_word seg off ∷ rs) m w =
    bind-Safe Word Done (Access.rw seg off) (λ _. perform rs) m (rw-Safe seg off m w)
      (λ _ n _ wn. perform-Safe rs n wn)
perform-Safe (Request.write_byte seg off value ∷ rs) m w =
    bind-Safe Done Done (wb seg off value) (λ _. perform rs) m (wb-Safe seg off value m w)
      (λ _ n _ wn. perform-Safe rs n wn)
perform-Safe (Request.write_word seg off value ∷ rs) m w =
    bind-Safe Done Done (ww seg off value) (λ _. perform rs) m (ww-Safe seg off value m w)
      (λ _ n _ wn. perform-Safe rs n wn)
