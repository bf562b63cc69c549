-- ===== src/Mz/Image.antt =====
-- How `parse_mz` of dos_re/mz.py cuts the file into header, load module and overlay.
use dos_re.Prelude.{
  ℕ, zero, suc, ◌+◌, ◌-◌, ◌≤◌, List, [], ◌∷◌, ◌++◌, length, take, drop, ◌≡◌, refl, ap, sym, ◌∙◌,
  arith, Bool-cases, inl, inr, subst, ltb, take-append-drop, length-drop,
}
use dos_re.Prelude.Int.{ℤ, pos, negsuc}
use dos_re.Mz.{
  MzHeader, MzExecutable, parsed, raised, header_size, exe_image_size, slice_stop, parse_mz,
  parse_body, split_image, read_relocations, Parsed, Relocation, has_signature,
}
use dos_re.Mz.Outcome.{header_of}
use mathlib.Core.List.{append_assoc}

-- The load module and the overlay that a header cuts out of a file.
unfoldable pub CutAt : List ℕ → MzExecutable → Type 0
unfolding header_size slice_stop exe_image_size
CutAt bytes exe =
    let stop = slice_stop (exe_image_size exe.header) (length bytes) in
    (exe.load_module ≡ drop (header_size exe.header) (take stop bytes))
    × (exe.overlay ≡ drop stop bytes)

unfoldable pub CutIfParsed : List ℕ → Parsed MzExecutable → Type 0
unfolding CutAt
CutIfParsed bytes (parsed exe) = CutAt bytes exe
CutIfParsed bytes (raised e) = Unit

split_image-CutIfParsed :
    (bytes : List ℕ) (h : MzHeader) (p : Parsed (List Relocation))
    → CutIfParsed bytes (split_image bytes h p)
unfolding CutIfParsed split_image
split_image-CutIfParsed bytes h (parsed rs) = (refl, refl)
split_image-CutIfParsed bytes h (raised e) = tt

parse_body-CutIfParsed : (bytes : List ℕ) (h : MzHeader) → CutIfParsed bytes (parse_body bytes h)
unfolding CutIfParsed parse_body
parse_body-CutIfParsed bytes h = elim (Bool-cases (ltb (length bytes) (header_size h))) [
  | inl past ↦ rw past tt
  | inr inside ↦ rw inside (
      split_image-CutIfParsed bytes h
        (read_relocations bytes h.relocation_table_offset h.relocations))
]

parse_mz-CutIfParsed : (bytes : List ℕ) → CutIfParsed bytes (parse_mz bytes)
unfolding CutIfParsed parse_mz header_of
parse_mz-CutIfParsed bytes = elim (Bool-cases (ltb (length bytes) 28)) [
  | inl short ↦ rw short tt
  | inr long ↦ elim (Bool-cases (has_signature bytes)) [
    | inl signed ↦ rw (long, signed) (parse_body-CutIfParsed bytes (header_of bytes))
    | inr unsigned ↦ rw (long, unsigned) tt
  ]
]

-- A slice in two pieces, for a file whose header ends before its image does.
take-drop-take : (n k : ℕ) (xs : List ℕ) → n ≤ k → take n xs ++ drop n (take k xs) ≡ take k xs
take-drop-take zero k xs h = refl
take-drop-take (suc n) zero xs h = absurd (omega arith)
take-drop-take (suc n) (suc k) [] h = refl
take-drop-take (suc n) (suc k) (x ∷ xs) h = ap (λ ys. x ∷ ys) (take-drop-take n k xs (omega arith))

slice_stop-le : (z : ℤ) (n : ℕ) → slice_stop z n ≤ n
unfolding slice_stop
slice_stop-le (pos k) n = omega arith
slice_stop-le (negsuc k) n = omega arith

-- Unless the header reaches into the overlay, header, load module and overlay of a parsed file
-- make up the file again, in this order and without a byte lost or read twice.
pub parse_mz-partition :
    (bytes : List ℕ) (exe : MzExecutable)
    → parse_mz bytes ≡ parsed exe
    → header_size exe.header + length exe.overlay ≤ length bytes
    → take (header_size exe.header) bytes ++ (exe.load_module ++ exe.overlay) ≡ bytes
unfolding CutIfParsed CutAt
parse_mz-partition bytes exe h room =
    let cut : CutAt bytes exe = subst (CutIfParsed bytes) h (parse_mz-CutIfParsed bytes) in
    let n = header_size exe.header in
    let stop = slice_stop (exe_image_size exe.header) (length bytes) in
    let rest : length exe.overlay ≡ length bytes - stop =
      ap length cut.1 ∙ length-drop stop bytes in
    let low : n ≤ stop =
      omega (arith, rest, room, slice_stop-le (exe_image_size exe.header) (length bytes)) in
    rw (cut.0, cut.1)
      (sym (append_assoc (take n bytes) (drop n (take stop bytes)) (drop stop bytes))
        ∙ ap (λ xs. xs ++ drop stop bytes) (take-drop-take n stop bytes low)
        ∙ take-append-drop stop bytes)
