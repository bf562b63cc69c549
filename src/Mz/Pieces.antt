-- ===== src/Mz/Pieces.antt =====
-- Load module and overlay of dos_re/mz.py, byte by byte.
use dos_re.Prelude.{
  ℕ, zero, suc, ◌+◌, ◌-◌, ◌*◌, ◌<◌, ◌≤◌, List, [], ◌∷◌, min, length, get_elem?, take, drop,
  length-take, length-drop, leb, ◌==◌, ◌≡◌, refl, ap, ◌∙◌, arith, Bool-cases, inl, inr, ◌⊎◌,
}
use dos_re.Prelude.Int.{ℤ, pos, negsuc, sub_ℕ, ◌-ℤ◌, pos_part, neg_part}
use dos_re.Mz.{MzHeader, MzExecutable, header_size, exe_image_size, slice_stop}

-- Where the image of a header ends in a file of n bytes: after its pages, the last of them full if
-- the header gives it no length; but not behind the end of the file, and with no page at all, as many
-- bytes before the end of the file as the last one lacks.
unfoldable pub ImageEnd : MzHeader → (n stop : ℕ) → Type 0
ImageEnd h n stop =
    ((h.last_page_bytes ≡ 0) × (stop ≡ min (h.pages * 512) n))
    ⊎ ((0 < h.last_page_bytes)
        × (512 ≤ h.pages * 512 + h.last_page_bytes)
        × (stop ≡ min (h.pages * 512 + h.last_page_bytes - 512) n))
    ⊎ ((0 < h.last_page_bytes)
        × (h.pages * 512 + h.last_page_bytes < 512)
        × (stop ≡ n - (512 - (h.pages * 512 + h.last_page_bytes))))

slice_stop-sub_ℕ :
    (a b n : ℕ)
    → ((b ≤ a) × (slice_stop (sub_ℕ a b) n ≡ min (a - b) n))
      ⊎ ((a < b) × (slice_stop (sub_ℕ a b) n ≡ n - (b - a)))
unfolding slice_stop
slice_stop-sub_ℕ a b n = elim (Bool-cases (leb b a)) [
  | inl e ↦ inl (ground arith, rw e refl)
  | inr e ↦ inr (ground arith, rw e (ground arith))
]

exe_image_size-ImageEnd : (h : MzHeader) (n : ℕ) → ImageEnd h n (slice_stop (exe_image_size h) n)
unfolding ImageEnd exe_image_size slice_stop ◌-ℤ◌
exe_image_size-ImageEnd h n =
    let last = h.last_page_bytes in
    let size = h.pages * 512 in
    let gap = sub_ℕ 512 last in
    let less : neg_part gap ≡ last - 512 = ground arith in
    let more : pos_part gap ≡ 512 - last = ground arith in
    elim (Bool-cases (last == 0)) [
      | inl z ↦ inl (ground arith, rw z refl)
      | inr nz ↦ inr (elim (slice_stop-sub_ℕ (size + neg_part gap) (0 + pos_part gap) n) [
        | inl (fits, e) ↦ inl (
          ground arith,
          omega (arith, less, more, fits),
          rw nz (e ∙ ap (λ k. min k n) (omega (arith, less, more, fits))),
        )
        | inr (short, e) ↦ inr (
          ground arith,
          omega (arith, less, more, short),
          rw nz (e ∙ ap (λ k. n - k) (omega (arith, less, more, short))),
        )
      ])
    ]

get_elem?-drop :
    {A : Type 0} (n i : ℕ) (xs : List A) → get_elem? (drop n xs) i ≡ get_elem? xs (n + i)
get_elem?-drop zero i xs = ap (get_elem? xs) (omega arith)
get_elem?-drop (suc n) i [] = refl
get_elem?-drop (suc n) i (x ∷ xs) =
    let shifted : suc (n + i) ≡ suc n + i = omega arith in
    get_elem?-drop n i xs ∙ ap (get_elem? (x ∷ xs)) shifted

get_elem?-take :
    {A : Type 0} (n i : ℕ) (xs : List A) → i < n → get_elem? (take n xs) i ≡ get_elem? xs i
get_elem?-take zero i xs h = absurd (omega arith)
get_elem?-take (suc n) i [] h = refl
get_elem?-take (suc n) zero (x ∷ xs) h = refl
get_elem?-take (suc n) (suc i) (x ∷ xs) h = get_elem?-take n i xs (omega arith)

-- The load module is the file from the end of the header to the end of the image, the overlay is the
-- file from there on.
pub record Pieces (bytes : List ℕ) (exe : MzExecutable) (stop : ℕ) : Type 0 where
  pub ends : ImageEnd exe.header (length bytes) stop
  pub module_length : length exe.load_module ≡ stop - header_size exe.header
  pub module_bytes :
      (i : ℕ)
      → i < length exe.load_module
      → get_elem? exe.load_module i ≡ get_elem? bytes (header_size exe.header + i)
  pub overlay_length : length exe.overlay ≡ length bytes - stop
  pub overlay_bytes : (i : ℕ) → get_elem? exe.overlay i ≡ get_elem? bytes (stop + i)

slice_stop-le : (z : ℤ) (n : ℕ) → slice_stop z n ≤ n
unfolding slice_stop
slice_stop-le (pos k) n = omega arith
slice_stop-le (negsuc k) n = omega arith

-- An executable cut as `parse_mz` cuts it.
pub cut-Pieces :
    (bytes : List ℕ) (exe : MzExecutable)
    → let stop = slice_stop (exe_image_size exe.header) (length bytes) in
      exe.load_module ≡ drop (header_size exe.header) (take stop bytes)
      → exe.overlay ≡ drop stop bytes
      → (stop : ℕ) × Pieces bytes exe stop
cut-Pieces bytes exe m o =
    let n = header_size exe.header in
    let stop = slice_stop (exe_image_size exe.header) (length bytes) in
    let inside = slice_stop-le (exe_image_size exe.header) (length bytes) in
    let size : length exe.load_module ≡ stop - n =
      ap length m
      ∙ length-drop n (take stop bytes)
      ∙ omega (arith, length-take stop bytes, inside) in
    (
      stop,
      record {
        ends = exe_image_size-ImageEnd exe.header (length bytes);
        module_length = size;
        module_bytes = λ i below.
            ap (λ xs. get_elem? xs i) m
            ∙ get_elem?-drop n i (take stop bytes)
            ∙ get_elem?-take stop (n + i) bytes (omega (arith, size, below));
        overlay_length = ap length o ∙ length-drop stop bytes;
        overlay_bytes = λ i. ap (λ xs. get_elem? xs i) o ∙ get_elem?-drop stop i bytes;
      },
    )
