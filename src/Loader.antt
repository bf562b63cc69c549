-- ===== src/Loader.antt =====
-- The loader of dos_re/memory.py: `create_psp` and `load_mz_program` on a fresh memory, which has no
-- selectors, so that `load` is its part for the real mode.
pub mod Sites
pub mod Relocate
pub mod Program
mod Tests
use dos_re.Prelude.{ℕ, ◌+◌, ◌*◌, bit_and, Bool, true, false, List, [], ◌∷◌, ◌++◌, min, length, take}
use dos_re.Mz.{MzExecutable, MzError, Relocation, Parsed, parsed, raised, parse_mz}
use dos_re.Memory.State.{Memory, new_memory, Failure, M, Result, ok, err, pure, ◌>>=◌, ◌>>◌}
use dos_re.Memory.Access.{wb, ww}
use dos_re.Memory.Access
use dos_re.Memory.Block.Load.{load_real}

unfoldable pub create_psp : ℕ → List ℕ → M (Unit {0})
create_psp psp_segment command_tail =
    wb psp_segment 0x00 0xcd
    >> wb psp_segment 0x01 0x20
    >> ww psp_segment 0x02 0x9fff
    >> wb psp_segment 0x80 (min (length command_tail) 126)
    >> load_real psp_segment 0x81 (take 126 command_tail ++ (0x0d ∷ []))

-- One round of the relocation loop.
unfoldable pub relocate : ℕ → Relocation → M (Unit {0})
relocate load_segment r = Access.rw (load_segment + r.segment) r.offset >>= λ value.
    ww (load_segment + r.segment) r.offset (bit_and (value + load_segment) 0xffff)

unfoldable pub apply_relocations : ℕ → List Relocation → M (Unit {0})
unfolding relocate
apply_relocations load_segment [] = pure tt
apply_relocations load_segment (r ∷ rs) =
    relocate load_segment r >>= λ _. apply_relocations load_segment rs

pub record LoadedProgram : Type 0 where
  pub exe : MzExecutable
  pub memory : Memory
  pub psp_segment : ℕ
  pub load_segment : ℕ
  pub entry_cs : ℕ
  pub entry_ip : ℕ
  pub initial_ss : ℕ
  pub initial_sp : ℕ
  pub overlay : List ℕ

-- What the loader answers: the program, or the exception of the parser or of the memory.
pub data Loaded : Type 0 where
  loaded : LoadedProgram → Loaded
  bad_file : MzError → Loaded
  bad_memory : Failure → Loaded

-- `(psp_segment + 0x10) & 0xFFFF`
unfoldable pub load_segment_of : ℕ → ℕ
load_segment_of psp_segment = bit_and (psp_segment + 0x10) 0xffff

-- The stores of the loader, in their order.
unfoldable pub place : ℕ → List ℕ → MzExecutable → M (Unit {0})
unfolding create_psp load_segment_of apply_relocations
place psp_segment command_tail exe = create_psp psp_segment command_tail >>= λ _.
    load_real (load_segment_of psp_segment) 0 exe.load_module >>= λ _.
    apply_relocations (load_segment_of psp_segment) exe.relocations

-- The program with the memory that the stores have left.
unfoldable pub with_memory : ℕ → MzExecutable → Result (Unit {0} × Memory) → Loaded
unfolding load_segment_of
with_memory psp_segment exe (err e) = bad_memory e
with_memory psp_segment exe (ok (_, memory)) = loaded record {
  exe = exe;
  memory = memory;
  psp_segment = psp_segment;
  load_segment = load_segment_of psp_segment;
  entry_cs = bit_and (load_segment_of psp_segment + exe.header.cs) 0xffff;
  entry_ip = exe.header.ip;
  initial_ss = bit_and (load_segment_of psp_segment + exe.header.ss) 0xffff;
  initial_sp = exe.header.sp;
  overlay = exe.overlay;
}

-- `load_mz_program` on the bytes of the file.
unfoldable pub load_mz_program : List ℕ → ℕ → List ℕ → Loaded
unfolding place with_memory
load_mz_program bytes psp_segment command_tail = elim (parse_mz bytes) [
  | raised e ↦ bad_file e
  | parsed exe ↦ with_memory psp_segment exe (place psp_segment command_tail exe new_memory)
]
