-- ===== src/Mz.antt =====
-- The executable format of dos_re/mz.py: the header, the relocation table and `parse_mz` on the
-- bytes of the file. The path, which only the messages read, is left out.
pub mod Outcome
pub mod Image
pub mod Pieces
mod Tests
use dos_re.Prelude.{
  ℕ, zero, suc, ◌+◌, ◌-◌, ◌*◌, ◌<◌, Bool, true, false, not, ◌||◌, ◌&&◌, List, [], ◌∷◌, ltb, min,
  truthy, if◌then◌else◌, length, get_or, take, drop, ◌==◌,
}
use dos_re.Prelude.Int.{ℤ, pos, negsuc, sub_ℕ, ◌-ℤ◌}

pub record Relocation : Type 0 where
  pub offset : ℕ
  pub segment : ℕ

pub record MzHeader : Type 0 where
  pub last_page_bytes : ℕ
  pub pages : ℕ
  pub relocations : ℕ
  pub header_paragraphs : ℕ
  pub min_extra_paragraphs : ℕ
  pub max_extra_paragraphs : ℕ
  pub ss : ℕ
  pub sp : ℕ
  pub checksum : ℕ
  pub ip : ℕ
  pub cs : ℕ
  pub relocation_table_offset : ℕ
  pub overlay_number : ℕ

pub record MzExecutable : Type 0 where
  pub header : MzHeader
  pub load_module : List ℕ
  pub relocations : List Relocation
  pub overlay : List ℕ

-- The exceptions of `parse_mz`: its three ValueErrors, and struct.error of `unpack_from` on a
-- buffer that is too short.
pub data MzError : Type 0 where
  not_mz header_past_eof table_truncated struct_error : MzError

pub data Parsed {ℓ} (A : Type ℓ) : Type ℓ where
  parsed : A → Parsed A
  raised : MzError → Parsed A

infixl 5 ◌>>=◌
abbrev pub ◌>>=◌ : {A B : Type 0} → Parsed A → (A → Parsed B) → Parsed B
parsed a >>= k = k a
raised e >>= k = raised e

-- It may be negative, when there are no pages and `last_page_bytes` is set.
unfoldable pub exe_image_size : MzHeader → ℤ
exe_image_size h =
    let size = pos (h.pages * 512) in
    if truthy h.last_page_bytes then size -ℤ sub_ℕ 512 h.last_page_bytes else size

unfoldable pub header_size : MzHeader → ℕ
header_size h = h.header_paragraphs * 16

unfoldable pub entry_cs_ip : MzExecutable → ℕ × ℕ
entry_cs_ip exe = (exe.header.cs, exe.header.ip)

unfoldable pub stack_ss_sp : MzExecutable → ℕ × ℕ
stack_ss_sp exe = (exe.header.ss, exe.header.sp)

-- A little-endian word of the buffer.
unfoldable pub word_at : List ℕ → ℕ → ℕ
word_at bytes off = get_or bytes off 0 + 256 * get_or bytes (off + 1) 0

-- `struct.unpack_from("<14H", data, 0)`, and `MZHeader(*hvals[1:])` of it.
unfoldable pub unpack_header : List ℕ → Parsed MzHeader
unfolding word_at
unpack_header bytes =
    if ltb (length bytes) 28
    then raised struct_error
    else parsed record {
      last_page_bytes = word_at bytes 2;
      pages = word_at bytes 4;
      relocations = word_at bytes 6;
      header_paragraphs = word_at bytes 8;
      min_extra_paragraphs = word_at bytes 10;
      max_extra_paragraphs = word_at bytes 12;
      ss = word_at bytes 14;
      sp = word_at bytes 16;
      checksum = word_at bytes 18;
      ip = word_at bytes 20;
      cs = word_at bytes 22;
      relocation_table_offset = word_at bytes 24;
      overlay_number = word_at bytes 26;
    }

-- `Relocation(*struct.unpack_from("<HH", data, off))`
unfoldable pub unpack_relocation : List ℕ → ℕ → Parsed Relocation
unfolding word_at
unpack_relocation bytes off =
    if ltb (length bytes) (off + 4)
    then raised struct_error
    else parsed record { offset = word_at bytes off; segment = word_at bytes (off + 2) }

-- The loop of `parse_mz` with n relocations to go, the next at `off`.
unfoldable pub read_relocations : List ℕ → ℕ → ℕ → Parsed (List Relocation)
unfolding unpack_relocation
read_relocations bytes off zero = parsed []
read_relocations bytes off (suc n) =
    if ltb (length bytes) (off + 4)
    then raised table_truncated
    else unpack_relocation bytes off >>= λ r.
        read_relocations bytes (off + 4) n >>= λ rs. parsed (r ∷ rs)

-- `min(size, n)` as the stop of a slice of n bytes: a negative one counts from the end.
unfoldable pub slice_stop : ℤ → ℕ → ℕ
slice_stop (pos k) n = min k n
slice_stop (negsuc k) n = n - suc k

-- `data[:2] == b"MZ"`
unfoldable pub has_signature : List ℕ → Bool
has_signature bytes = get_or bytes 0 0 == 0x4d && get_or bytes 1 0 == 0x5a

-- The rest of `parse_mz`, with the outcome of the relocation loop.
unfoldable pub split_image : List ℕ → MzHeader → Parsed (List Relocation) → Parsed MzExecutable
unfolding header_size slice_stop exe_image_size
split_image bytes h (raised e) = raised e
split_image bytes h (parsed rs) =
    let stop = slice_stop (exe_image_size h) (length bytes) in
    parsed record {
      header = h;
      load_module = drop (header_size h) (take stop bytes);
      relocations = rs;
      overlay = drop stop bytes;
    }

unfoldable pub parse_body : List ℕ → MzHeader → Parsed MzExecutable
unfolding header_size split_image read_relocations
parse_body bytes h =
    if ltb (length bytes) (header_size h)
    then raised header_past_eof
    else split_image bytes h (read_relocations bytes h.relocation_table_offset h.relocations)

unfoldable pub parse_mz : List ℕ → Parsed MzExecutable
unfolding has_signature unpack_header parse_body
parse_mz bytes =
    if ltb (length bytes) 28 || not (has_signature bytes)
    then raised not_mz
    else unpack_header bytes >>= parse_body bytes
