-- ===== src/Loader/Tests.antt =====
-- A small program through the loader of dos_re/memory.py.
use dos_re.Prelude.{ℕ, ◌*◌, List, [], ◌∷◌, ◌≡◌, refl, arith}
use dos_re.Prelude.Int.{◌-ℤ◌}
use dos_re.Mz.{MzExecutable, parsed, parse_mz}
use dos_re.Mz.Outcome.{header_of}
use dos_re.Memory.State.{ok, linear}
use dos_re.Memory.Access.{in_aperture}
use dos_re.Loader.{
  LoadedProgram, loaded, create_psp, load_segment_of, apply_relocations, load_mz_program,
}
use dos_re.Loader.Sites.{Sites, Apart, Relocated, Outside}
use dos_re.Loader.Relocate.{apply_relocations-Relocated}
use dos_re.Loader.Program.{
  ram, image, PspFields, IsLoaded, create_psp-PspFields, load_mz_program-IsLoaded,
}

-- Two paragraphs of header, one relocation of the word at 0000:0001, and five bytes of program.
abbrev file : List ℕ
file =
    0x4d ∷ 0x5a ∷ 37 ∷ 0 ∷ 1 ∷ 0 ∷ 1 ∷ 0 ∷ 2 ∷ 0 ∷ 0 ∷ 0 ∷ 255 ∷ 255 ∷ 7 ∷ 0 ∷ 0 ∷ 1 ∷ 0 ∷ 0 ∷ 3 ∷ 0
    ∷ 5 ∷ 0 ∷ 28 ∷ 0 ∷ 0 ∷ 0 ∷ 1 ∷ 0 ∷ 0 ∷ 0 ∷ 10 ∷ 20 ∷ 30 ∷ 40 ∷ 50 ∷ []

abbrev program : MzExecutable
program = record {
  header = header_of file;
  load_module = 10 ∷ 20 ∷ 30 ∷ 40 ∷ 50 ∷ [];
  relocations = record { offset = 1; segment = 0 } ∷ [];
  overlay = [];
}

file-parsed : parse_mz file ≡ parsed program
unfolding parse_mz header_of ◌-ℤ◌
file-parsed = refl

one_site : Sites (image 0x1000 [] program) (load_segment_of 0x1000) program.relocations
unfolding Sites Apart load_segment_of linear in_aperture
one_site = (
  record {
    real = refl;
    quiet = refl;
    at = refl;
    writable = omega arith;
    room = omega arith;
    outside = refl;
  },
  tt,
  tt,
)

create_psp-PspFields_example :
    (n : ℕ → ℕ) × (create_psp 0x1000 (32 ∷ 65 ∷ []) (ram (λ a. 0)) ≡ ok (tt, ram n))
    × PspFields (0x1000 * 16) (32 ∷ 65 ∷ []) (λ a. 0) n
create_psp-PspFields_example = create_psp-PspFields (λ a. 0) 0x1000 (32 ∷ 65 ∷ []) (omega arith)

apply_relocations-Relocated_example :
    (cells : ℕ → ℕ) × (apply_relocations
        (load_segment_of 0x1000)
        program.relocations
        (image 0x1000 [] program)
      ≡ ok (tt, record (image 0x1000 [] program) { cells = cells }))
    × Relocated
        (image 0x1000 [] program)
        (record (image 0x1000 [] program) { cells = cells })
        (load_segment_of 0x1000)
        program.relocations
    × ((x : ℕ)
        → Outside (load_segment_of 0x1000) x program.relocations
        → cells x ≡ (image 0x1000 [] program).cells x)
apply_relocations-Relocated_example =
    apply_relocations-Relocated (image 0x1000 [] program) (load_segment_of 0x1000)
      program.relocations one_site

load_mz_program-IsLoaded_example :
    (p : LoadedProgram) × (load_mz_program file 0x1000 [] ≡ loaded p) × IsLoaded 0x1000 [] program p
load_mz_program-IsLoaded_example =
    load_mz_program-IsLoaded file 0x1000 [] program file-parsed (omega arith) (omega arith) one_site
