-- ===== src/Loader/Program.antt =====
-- What `create_psp` and `load_mz_program` of dos_re/memory.py leave in a fresh memory.
use dos_re.Prelude.{
  ℕ, ◌+◌, ◌*◌, ◌/◌, ◌^◌, ◌%◌, ◌<◌, ◌≤◌, bit_and, min, List, [], ◌∷◌, ◌++◌, length, take,
  length-append, length-take, ◌≡◌, refl, ap, ◌∙◌, arith, ◌⊎◌, inl, inr,
}
use dos_re.Prelude.Bits.{bit_and_mask}
use dos_re.Mz.{MzExecutable, Parsed, parsed, raised, parse_mz}
use dos_re.Memory.State.{
  Memory, M, new_memory, ok, ◌>>=◌, ◌>>◌, update, linear, bios_rom_base, mem_size,
}
use dos_re.Memory.State.Steps.{bind_ok}
use dos_re.Memory.Access.{wb, ww, in_aperture, check, notify_write}
use dos_re.Memory.Access.Plain.{linear_lem, wb-plain, notify_write-quiet}
use dos_re.Memory.Access.Word.{ww-plain}
use dos_re.Memory.Block.{store_slice, load_slice}
use dos_re.Memory.Block.Load.{
  load_real, check-linear, store_slice-before, store_slice-after, load_slice-store_slice,
}
use dos_re.Loader.{
  LoadedProgram, loaded, bad_file, create_psp, apply_relocations, load_segment_of, place,
  with_memory, load_mz_program,
}
use dos_re.Loader.Sites.{Sites, Relocated, Outside}
use dos_re.Loader.Relocate.{apply_relocations-Relocated}

-- A fresh memory with the given cells.
abbrev pub ram : (ℕ → ℕ) → Memory
ram cells = record new_memory { cells = cells }

ram-wb :
    (cells : ℕ → ℕ) (seg off a v : ℕ)
    → linear seg off ≡ a
    → a < bios_rom_base
    → v < 256
    → wb seg off v (ram cells) ≡ ok (tt, ram (update cells a v))
unfolding in_aperture
ram-wb cells seg off a v at low byte =
    wb-plain (ram cells) seg off a v refl refl at low (omega arith) refl byte

ram-ww :
    (cells : ℕ → ℕ) (seg off a v : ℕ)
    → linear seg off ≡ a
    → a < bios_rom_base
    → ww seg off v (ram cells)
      ≡ ok (tt, ram (update (update cells a (bit_and v 0xff)) (a + 1) (bit_and (v / 2 ^ 8) 0xff)))
unfolding in_aperture
ram-ww cells seg off a v at low = ww-plain (ram cells) seg off a v record {
  real = refl;
  quiet = refl;
  at = at;
  writable = low;
  room = omega arith;
  outside = refl;
}

ram-load :
    (cells : ℕ → ℕ) (seg off a : ℕ) (payload : List ℕ)
    → linear seg off ≡ a
    → a + length payload ≤ mem_size
    → load_real seg off payload (ram cells) ≡ ok (tt, ram (store_slice cells a payload))
unfolding load_real
ram-load cells seg off a payload at room =
    let l = linear seg off in
    let n = length payload in
    bind_ok (check l n)
      (λ addr m.
        notify_write addr (load_slice m.cells addr n) payload
          (record m { cells = store_slice m.cells addr payload }))
      (ram cells) (check-linear (ram cells) seg off n (omega (arith, at)))
    ∙ notify_write-quiet (ram (store_slice cells l payload)) l (load_slice cells l n) payload refl
    ∙ ap (λ x. ok (tt, ram (store_slice cells x payload))) at

both_ok :
    (f k : M (Unit {0})) (m n p : Memory)
    → f m ≡ ok (tt, n)
    → k n ≡ ok (tt, p)
    → (f >> k) m ≡ ok (tt, p)
both_ok f k m n p e h = bind_ok f (λ _. k) m e ∙ h

-- The bytes that the PSP changes, from its first address on.
abbrev pub tail_of : List ℕ → List ℕ
tail_of command_tail = take 126 command_tail ++ (0x0d ∷ [])

abbrev pub psp_cells : ℕ → List ℕ → (ℕ → ℕ) → ℕ → ℕ
psp_cells base command_tail cells =
    store_slice
      (update
        (update (update (update (update cells base 0xcd) (base + 1) 0x20) (base + 2) 0xff)
          (base + 2 + 1) 0x9f)
        (base + 0x80) (min (length command_tail) 126))
      (base + 0x81) (tail_of command_tail)

psp_at : (psp off : ℕ) → psp < 0xe000 → off < 256 → linear psp off ≡ psp * 16 + off
psp_at psp off h k = omega (arith, linear_lem psp off)

tail_of-length : (tail : List ℕ) → length (tail_of tail) ≤ 127
tail_of-length tail = omega (arith, length-append (take 126 tail) (0x0d ∷ []), length-take 126 tail)

create_psp-ram :
    (cells : ℕ → ℕ) (psp : ℕ) (tail : List ℕ)
    → psp < 0xe000
    → create_psp psp tail (ram cells) ≡ ok (tt, ram (psp_cells (psp * 16) tail cells))
unfolding create_psp
create_psp-ram cells psp tail h =
    let base = psp * 16 in
    let n = min (length tail) 126 in
    let c1 = update cells base 0xcd in
    let c2 = update c1 (base + 1) 0x20 in
    let c3 = update (update c2 (base + 2) 0xff) (base + 2 + 1) 0x9f in
    let c4 = update c3 (base + 0x80) n in
    let s1 = wb psp 0x00 0xcd in
    let s2 = wb psp 0x01 0x20 in
    let s3 = ww psp 0x02 0x9fff in
    let s4 = wb psp 0x80 n in
    let s5 = load_real psp 0x81 (tail_of tail) in
    let e1 : s1 (ram cells) ≡ ok (tt, ram c1) =
      ram-wb cells psp 0 base 0xcd (psp_at psp 0 h (omega arith) ∙ omega arith) (omega arith)
        (omega arith) in
    let e2 : s2 (ram c1) ≡ ok (tt, ram c2) =
      ram-wb c1 psp 1 (base + 1) 0x20 (psp_at psp 1 h (omega arith)) (omega arith) (omega arith) in
    let e3 : s3 (ram c2) ≡ ok (tt, ram c3) =
      ram-ww c2 psp 2 (base + 2) 0x9fff (psp_at psp 2 h (omega arith)) (omega arith) in
    let e4 : s4 (ram c3) ≡ ok (tt, ram c4) =
      ram-wb c3 psp 0x80 (base + 0x80) n (psp_at psp 0x80 h (omega arith)) (omega arith)
        (omega arith) in
    let e5 =
      ram-load c4 psp 0x81 (base + 0x81) (tail_of tail) (psp_at psp 0x81 h (omega arith))
        (omega (arith, tail_of-length tail)) in
    both_ok (s1 >> s2 >> s3 >> s4) s5 (ram cells) (ram c4) (ram (psp_cells base tail cells))
      (both_ok (s1 >> s2 >> s3) s4 (ram cells) (ram c3) (ram c4)
        (both_ok (s1 >> s2) s3 (ram cells) (ram c2) (ram c3)
          (both_ok s1 s2 (ram cells) (ram c1) (ram c2) e1 e2) e3)
        e4)
      e5

-- Neither at 0 to 3, nor at 80h, nor in the command tail from 81h on.
unfoldable pub Unwritten : ℕ → List ℕ → ℕ → Type 0
Unwritten base tail x =
    (x < base) ⊎ ((base + 4 ≤ x) × (x < base + 0x80)) ⊎ (base + 0x81 + length (tail_of tail) ≤ x)

-- The bytes of the PSP that are written, and that no other byte is, inside the PSP or not.
pub record PspFields (base : ℕ) (tail : List ℕ) (before after : ℕ → ℕ) : Type 0 where
  pub int20 : (after base ≡ 0xcd) × (after (base + 1) ≡ 0x20)
  pub top_of_memory : (after (base + 2) ≡ 0xff) × (after (base + 3) ≡ 0x9f)
  pub tail_length : after (base + 0x80) ≡ min (length tail) 126
  pub tail_bytes : load_slice after (base + 0x81) (length (tail_of tail)) ≡ tail_of tail
  pub others : (x : ℕ) → Unwritten base tail x → after x ≡ before x

psp_cells-PspFields :
    (cells : ℕ → ℕ) (base : ℕ) (tail : List ℕ)
    → PspFields base tail cells (psp_cells base tail cells)
unfolding Unwritten
psp_cells-PspFields cells base tail =
    let n = min (length tail) 126 in
    let c : ℕ → ℕ =
      update
        (update (update (update (update cells base 0xcd) (base + 1) 0x20) (base + 2) 0xff)
          (base + 2 + 1) 0x9f)
        (base + 0x80) n in
    let low : (x : ℕ) → x < base + 0x81 → psp_cells base tail cells x ≡ c x =
      λ x h. store_slice-before c (base + 0x81) x (tail_of tail) h in
    record {
      int20 = (low base (omega arith) ∙ ground arith, low (base + 1) (omega arith) ∙ ground arith);
      top_of_memory = (
        low (base + 2) (omega arith) ∙ ground arith,
        low (base + 3) (omega arith) ∙ ground arith,
      );
      tail_length = low (base + 0x80) (omega arith) ∙ ground arith;
      tail_bytes = load_slice-store_slice c (base + 0x81) (tail_of tail);
      others = λ x side. elim side [
        | inl before ↦ low x (omega arith) ∙ ground arith
        | inr (inl (above, below)) ↦ low x (omega arith) ∙ ground arith
        | inr (inr behind) ↦
            store_slice-after c (base + 0x81) x (tail_of tail) behind ∙ ground arith
      ];
    }

-- In a fresh memory with any bytes, real mode and nobody watching, and at a segment below E000h:
-- the PSP gets INT 20h and the top of memory at its start, the length of the command tail, cut to
-- 126 bytes, at 80h, and the tail with a carriage return from 81h on; no other byte of it, nor any
-- other byte of the memory, changes.
pub create_psp-PspFields :
    (cells : ℕ → ℕ) (psp : ℕ) (tail : List ℕ)
    → psp < 0xe000
    → (n : ℕ → ℕ) × (create_psp psp tail (ram cells) ≡ ok (tt, ram n))
      × PspFields (psp * 16) tail cells n
create_psp-PspFields cells psp tail h = (
  psp_cells (psp * 16) tail cells,
  create_psp-ram cells psp tail h,
  psp_cells-PspFields cells (psp * 16) tail,
)

-- The memory before the relocations: the load module behind the PSP.
abbrev pub image : ℕ → List ℕ → MzExecutable → Memory
image psp tail exe =
    ram
      (store_slice (psp_cells (psp * 16) tail (λ a. 0)) (load_segment_of psp * 16) exe.load_module)

pub load_segment_of-lem : (psp : ℕ) → psp < 0xe000 → load_segment_of psp ≡ psp + 16
unfolding load_segment_of
load_segment_of-lem psp h = omega (arith, bit_and_mask 16 (psp + 0x10))

place-relocations :
    (psp : ℕ) (tail : List ℕ) (exe : MzExecutable)
    → psp < 0xe000
    → (psp + 16) * 16 + length exe.load_module ≤ mem_size
    → place psp tail exe new_memory
      ≡ apply_relocations (load_segment_of psp) exe.relocations (image psp tail exe)
unfolding place
place-relocations psp tail exe h room =
    let ls = load_segment_of psp in
    let seg : ls ≡ psp + 16 = load_segment_of-lem psp h in
    let at : linear ls 0 ≡ ls * 16 = omega (arith, linear_lem ls 0) in
    let cells = psp_cells (psp * 16) tail (λ a. 0) in
    bind_ok (create_psp psp tail)
      (λ _. load_real ls 0 exe.load_module >>= λ _. apply_relocations ls exe.relocations) new_memory
      (create_psp-ram (λ a. 0) psp tail h)
    ∙ bind_ok (load_real ls 0 exe.load_module) (λ _. apply_relocations ls exe.relocations)
        (ram cells) (ram-load cells ls 0 (ls * 16) exe.load_module at (omega arith))

-- A loaded program: the file's executable, with control and stack where its header says, relative
-- to the load segment, and a memory in which the words at the relocations have grown by the load
-- segment and every other byte is that of the image.
pub record IsLoaded (psp : ℕ) (tail : List ℕ) (exe : MzExecutable) (p : LoadedProgram)
    : Type 0 where
  pub same_exe : p.exe ≡ exe
  pub control : (p.entry_cs ≡ (psp + 16 + exe.header.cs) % 65536) × (p.entry_ip ≡ exe.header.ip)
  pub stack : (p.initial_ss ≡ (psp + 16 + exe.header.ss) % 65536) × (p.initial_sp ≡ exe.header.sp)
  pub words : Relocated (image psp tail exe) p.memory (load_segment_of psp) exe.relocations
  pub others :
      (x : ℕ)
      → Outside (load_segment_of psp) x exe.relocations
      → p.memory.cells x ≡ (image psp tail exe).cells x

-- A file that parses, whose load module fits behind the PSP and whose relocations name ordinary
-- words that do not overlap, is loaded, relocated and described.
pub load_mz_program-IsLoaded :
    (bytes : List ℕ) (psp : ℕ) (tail : List ℕ) (exe : MzExecutable)
    → parse_mz bytes ≡ parsed exe
    → psp < 0xe000
    → (psp + 16) * 16 + length exe.load_module ≤ mem_size
    → Sites (image psp tail exe) (load_segment_of psp) exe.relocations
    → (p : LoadedProgram) × (load_mz_program bytes psp tail ≡ loaded p) × IsLoaded psp tail exe p
unfolding load_mz_program with_memory
load_mz_program-IsLoaded bytes psp tail exe read h room sites =
    let ls = load_segment_of psp in
    let seg : ls ≡ psp + 16 = load_segment_of-lem psp h in
    let moved = apply_relocations-Relocated (image psp tail exe) ls exe.relocations sites in
    let done : place psp tail exe new_memory ≡ ok (tt, ram moved.0) =
      place-relocations psp tail exe h room ∙ moved.1 in
    let sum : (v : ℕ) → bit_and (ls + v) 0xffff ≡ (psp + 16 + v) % 65536 =
      λ v. omega (arith, bit_and_mask 16 (ls + v)) in
    (
      record {
        exe = exe;
        memory = ram moved.0;
        psp_segment = psp;
        load_segment = ls;
        entry_cs = bit_and (ls + exe.header.cs) 0xffff;
        entry_ip = exe.header.ip;
        initial_ss = bit_and (ls + exe.header.ss) 0xffff;
        initial_sp = exe.header.sp;
        overlay = exe.overlay;
      },
      ap
            (λ (r : Parsed MzExecutable). elim r [
              | raised e ↦ bad_file e
              | parsed exe ↦ with_memory psp exe (place psp tail exe new_memory)
            ])
            read
          ∙ ap (with_memory psp exe) done,
      record {
        same_exe = refl;
        control = (sum exe.header.cs, refl);
        stack = (sum exe.header.ss, refl);
        words = moved.2;
        others = moved.3;
      },
    )
