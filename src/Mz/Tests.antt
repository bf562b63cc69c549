-- ===== src/Mz/Tests.antt =====
-- A small executable of the kind that dos_re/mz.py reads.
use dos_re.Prelude.{ℕ, List, [], ◌∷◌, ◌++◌, take, ◌≡◌, refl, arith}
use dos_re.Mz.{
  MzExecutable, parsed, raised, not_mz, header_past_eof, header_size, parse_mz, entry_cs_ip,
  stack_ss_sp,
}
use dos_re.Prelude.Int.{◌-ℤ◌}
use dos_re.Mz.Outcome.{Outcome, header_of, parse_mz-Outcome}
use dos_re.Mz.Image.{parse_mz-partition}

-- Header of two paragraphs with one relocation behind the 28 bytes, an image of 37 bytes, and an
-- overlay of two.
abbrev tiny : List ℕ
tiny =
    0x4d ∷ 0x5a ∷ 37 ∷ 0 ∷ 1 ∷ 0 ∷ 1 ∷ 0 ∷ 2 ∷ 0 ∷ 0 ∷ 0 ∷ 255 ∷ 255 ∷ 7 ∷ 0 ∷ 0 ∷ 1 ∷ 0 ∷ 0 ∷ 3 ∷ 0
    ∷ 5 ∷ 0 ∷ 28 ∷ 0 ∷ 0 ∷ 0 ∷ 1 ∷ 0 ∷ 0 ∷ 0 ∷ 10 ∷ 20 ∷ 30 ∷ 40 ∷ 50 ∷ 60 ∷ 70 ∷ []

abbrev tiny_exe : MzExecutable
tiny_exe = record {
  header = header_of tiny;
  load_module = 10 ∷ 20 ∷ 30 ∷ 40 ∷ 50 ∷ [];
  relocations = record { offset = 1; segment = 0 } ∷ [];
  overlay = 60 ∷ 70 ∷ [];
}

tiny-parsed : parse_mz tiny ≡ parsed tiny_exe
unfolding parse_mz header_of ◌-ℤ◌
tiny-parsed = refl

tiny-entry : (entry_cs_ip tiny_exe ≡ (5, 3)) × (stack_ss_sp tiny_exe ≡ (7, 0x100))
unfolding entry_cs_ip stack_ss_sp header_of
tiny-entry = (refl, refl)

truncated : parse_mz (take 31 tiny) ≡ raised header_past_eof
unfolding parse_mz ◌-ℤ◌
truncated = refl

headless : parse_mz (take 20 tiny) ≡ raised not_mz
unfolding parse_mz ◌-ℤ◌
headless = refl

parse_mz-Outcome_example : Outcome tiny (parsed tiny_exe)
unfolding parse_mz header_of ◌-ℤ◌
parse_mz-Outcome_example = parse_mz-Outcome tiny

parse_mz-partition_example :
    take (header_size tiny_exe.header) tiny ++ (tiny_exe.load_module ++ tiny_exe.overlay) ≡ tiny
unfolding header_size header_of
parse_mz-partition_example = parse_mz-partition tiny tiny_exe tiny-parsed (omega arith)
