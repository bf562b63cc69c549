-- ===== src/Cpu/Strings/Bulk.antt =====
-- Elements of a string instruction of dos_re/cpu.py on ordinary ranges, as slices of the memory.
use dos_re.Prelude.{
  ℕ, zero, suc, ◌+◌, ◌*◌, ◌/◌, ◌^◌, ◌%◌, ◌<◌, ◌≤◌, bit_and, bit_or, false, ◌==◌, none, List, [],
  ◌∷◌, ◌++◌, length, if◌then◌else◌, ◌≡◌, refl, ap, ap₂, ◌∙◌, arith, inl, inr, ◌⊎◌,
}
use dos_re.Prelude.Bits.{bit_and_mask, or_comm, or_fields}
use dos_re.Memory.State.{Memory, ok, update, linear, bios_rom_base}
use dos_re.Memory.Access.Plain.{linear_lem, rb-plain, wb-masked}
use dos_re.Memory.Access.Word.{ww-plain, rw-readable}
use dos_re.Memory.Block.{store_slice, load_slice}
use dos_re.Memory.Block.Load.{store_slice-before, store_slice-after}
use dos_re.Memory.Block.Copy.{update_bytes, load_slice-congr}
use dos_re.Memory.Block.Range.{Contiguous}
use dos_re.Cpu.Strings.{get, put, fill_pattern}

abbrev pub ByteOrWord : ℕ → Type 0
ByteOrWord w = (w ≡ 1) ⊎ (w ≡ 2)

pub store_slice-append :
    (cells : ℕ → ℕ) (a : ℕ) (xs ys : List ℕ)
    → store_slice cells a (xs ++ ys) ≡ store_slice (store_slice cells a xs) (a + length xs) ys
unfolding store_slice
store_slice-append cells a [] ys = ap (λ b. store_slice cells b ys) (omega arith)
store_slice-append cells a (x ∷ xs) ys =
    store_slice-append (update cells a x) (suc a) xs ys
    ∙ ap (λ b. store_slice (store_slice (update cells a x) (suc a) xs) b ys) (omega arith)

pub load_slice-add :
    (cells : ℕ → ℕ) (a j k : ℕ)
    → load_slice cells a (j + k) ≡ load_slice cells a j ++ load_slice cells (a + j) k
unfolding load_slice
load_slice-add cells a zero k = ap₂ (λ b n. load_slice cells b n) (omega arith) (omega arith)
load_slice-add cells a (suc j) k =
    let step : suc j + k ≡ suc (j + k) = omega arith in
    ap (load_slice cells a) step
    ∙ ap (λ xs. cells a ∷ xs)
        (load_slice-add cells (suc a) j k
          ∙ ap (λ b. load_slice cells (suc a) j ++ load_slice cells b k) (omega arith))

-- The k-th byte of a range, from any offset that is congruent to its place.
pub within :
    (m : Memory) (seg off n a k at : ℕ)
    → Contiguous m seg off n a
    → k < n
    → at % 65536 ≡ (off % 65536 + k) % 65536
    → linear seg at ≡ a + k
within m seg off n a k at c lt same =
    omega
      (arith, linear_lem seg at, linear_lem seg (off % 65536), c.start, c.in_segment, c.in_megabyte)

-- What `get` reads at an address.
abbrev pub value_at : ℕ → (ℕ → ℕ) → ℕ → ℕ
value_at w cells a = if w == 1 then cells a else bit_or (cells a) (cells (a + 1) * 2 ^ 8)

pub get-value_at :
    (m : Memory) (w seg off n a k at : ℕ)
    → ByteOrWord w
    → m.sel_base ≡ none
    → Contiguous m seg off n a
    → k + w ≤ n
    → at % 65536 ≡ (off % 65536 + k) % 65536
    → get w seg at m ≡ ok (value_at w m.cells (a + k), m)
unfolding get
get-value_at m w seg off n a k at (inl e) real c room same = rw e (
    rb-plain m seg at (a + k) real (within m seg off n a k at c (omega arith) same)
      (omega (arith, c.in_store)) (c.outside k (omega arith)))
get-value_at m w seg off n a k at (inr e) real c room same = rw e (
    rw-readable m seg at (a + k) real (within m seg off n a k at c (omega arith) same)
      (omega (arith, c.in_megabyte)) (omega (arith, c.in_store)) (c.outside k (omega arith)))

pub put-fill_pattern :
    (m : Memory) (w seg off n a k at v : ℕ)
    → ByteOrWord w
    → m.sel_base ≡ none
    → m.watched ≡ false
    → Contiguous m seg off n a
    → a + n ≤ bios_rom_base
    → k + w ≤ n
    → at % 65536 ≡ (off % 65536 + k) % 65536
    → put w seg at v m
      ≡ ok (tt, record m { cells = store_slice m.cells (a + k) (fill_pattern w v) })
unfolding put fill_pattern store_slice
put-fill_pattern m w seg off n a k at v (inl e) real quiet c ram room same = rw e (
    wb-masked m seg at (a + k) v real quiet (within m seg off n a k at c (omega arith) same)
      (omega arith) (omega (arith, c.in_store)) (c.outside k (omega arith)))
put-fill_pattern m w seg off n a k at v (inr e) real quiet c ram room same =
    let low = bit_and v 0xff in
    let high = bit_and (v / 2 ^ 8) 0xff in
    let next : a + k + 1 ≡ suc (a + k) = omega arith in
    rw e (
      ww-plain m seg at (a + k) v record {
        real = real;
        quiet = quiet;
        at = within m seg off n a k at c (omega arith) same;
        writable = omega arith;
        room = omega (arith, c.in_store);
        outside = c.outside k (omega arith);
      }
      ∙ ap (λ b. ok (tt, record m { cells = update (update m.cells (a + k) low) b high })) next)

pub fill_pattern-value_at :
    (w : ℕ) (cells : ℕ → ℕ) (a : ℕ)
    → ByteOrWord w
    → ((x : ℕ) → cells x < 256)
    → fill_pattern w (value_at w cells a) ≡ load_slice cells a w
unfolding fill_pattern load_slice
fill_pattern-value_at w cells a (inl e) bytes =
    rw e (ap (λ x. x ∷ []) (omega (arith, bit_and_mask 8 (cells a), bytes a)))
fill_pattern-value_at w cells a (inr e) bytes =
    let lo = cells a in
    let hi = cells (a + 1) in
    let v = bit_or lo (hi * 2 ^ 8) in
    let sum : v ≡ hi * 256 + lo = or_comm lo (hi * 2 ^ 8) ∙ or_fields 8 hi lo (bytes a) in
    let low : bit_and v 0xff ≡ lo = omega (arith, bit_and_mask 8 v, bytes a) in
    let high : bit_and (v / 2 ^ 8) 0xff ≡ hi =
      omega (arith, bit_and_mask 8 (v / 2 ^ 8), bytes a, bytes (a + 1)) in
    let next : a + 1 ≡ suc a = omega arith in
    rw e (ap₂ (λ x y. x ∷ y ∷ []) low (high ∙ ap cells next))

pub length-load_slice : (cells : ℕ → ℕ) (a n : ℕ) → length (load_slice cells a n) ≡ n
unfolding load_slice
length-load_slice cells a zero = refl
length-load_slice cells a (suc n) = ap suc (length-load_slice cells (suc a) n)

-- Bytes copied inside a memory of bytes.
pub store_loaded-bytes :
    (cells from : ℕ → ℕ) (d s n : ℕ)
    → ((x : ℕ) → cells x < 256)
    → ((x : ℕ) → from x < 256)
    → (x : ℕ) → store_slice cells d (load_slice from s n) x < 256
unfolding store_slice load_slice
store_loaded-bytes cells from d s zero bytes source x = bytes x
store_loaded-bytes cells from d s (suc n) bytes source x =
    store_loaded-bytes (update cells d (from s)) from (suc d) (suc s) n
      (λ y. update_bytes cells d (from s) y bytes (source s)) source x

-- What is still to be read of a forward copy is not written before.
pub unread :
    (cells : ℕ → ℕ) (src dst k w rest n : ℕ)
    → (dst ≤ src) ⊎ (src + n ≤ dst)
    → k + w + rest ≤ n
    → load_slice (store_slice cells (dst + k) (load_slice cells (src + k) w)) (src + k + w) rest
      ≡ load_slice cells (src + k + w) rest
unread cells src dst k w rest n apart room =
    let vs = load_slice cells (src + k) w in
    load_slice-congr (store_slice cells (dst + k) vs) cells (src + k + w) rest (λ j lt. elim apart [
      | inl low ↦
          store_slice-after cells (dst + k) (src + k + w + j) vs
            (omega (arith, length-load_slice cells (src + k) w))
      | inr high ↦ store_slice-before cells (dst + k) (src + k + w + j) vs (omega arith)
    ])
