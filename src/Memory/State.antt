-- ===== src/Memory/State.antt =====
-- The state of `Memory` in dos_re/memory.py, its failures, and the constants of the address map.
-- The fields that only the renderer reads (ega_display_start, ega_pel_pan, ega_display_enabled,
-- ega_h_display_end and the ega_pan_* pair) are left out. The callbacks of `write_watchers` are
-- observers: `watched` says that there are some, `log` holds what they have been told, last first.
pub mod Steps
pub mod Safe
use dos_re.Prelude.{
  ℕ, zero, suc, ◌+◌, ◌*◌, ◌%◌, ◌^◌, bit_and, Bool, true, false, Option, some, none, List, [], ◌∷◌,
  ◌==◌, ◌<◌, ltb, leb, if◌then◌else◌,
}

abbrev pub cpu_mem_size : ℕ
cpu_mem_size = 0x100000

abbrev pub ega_cpu_aperture : ℕ
ega_cpu_aperture = 0xa0000

abbrev pub ega_aperture : ℕ
ega_aperture = 0x100000

abbrev pub ega_plane_stride : ℕ
ega_plane_stride = 0x10000

abbrev pub ega_plane_window : ℕ
ega_plane_window = 0x10000

abbrev pub mem_size : ℕ
mem_size = cpu_mem_size + ega_plane_stride * 4

abbrev pub bios_rom_base : ℕ
bios_rom_base = 0xf0000

-- IndexError of the bytearray, MemoryError of `check`, UnsupportedEgaWriteMode, ValueError of a bad
-- argument, UnsupportedInstruction, and the RuntimeErrors of a REP count above the limit of the
-- interpreter and of an interrupt handler that does not return.
pub data Failure : Type 0 where
  index_error memory_error unsupported_write_mode value_error : Failure
  unsupported_instruction rep_too_large handler_did_not_return : Failure

pub record WriteEvent : Type 0 where
  pub addr : ℕ
  pub old : List ℕ
  pub new : List ℕ

pub record Memory : Type 0 where
  pub cells : ℕ → ℕ
  pub size : ℕ
  pub sel_base : Option (List (ℕ × ℕ))
  pub sel_min : ℕ
  pub ega_planar : Bool
  pub ega_map_mask : ℕ
  pub ega_read_plane : ℕ
  pub ega_data_rotate : ℕ
  pub ega_logical_op : ℕ
  pub ega_write_mode : ℕ
  pub ega_latches : ℕ → ℕ
  pub ega_set_reset : ℕ
  pub ega_enable_set_reset : ℕ
  pub ega_bit_mask : ℕ
  pub ega_read_mode : ℕ
  pub ega_color_compare : ℕ
  pub ega_color_dont_care : ℕ
  pub watched : Bool
  pub log : List WriteEvent

-- Every cell holds a byte.
unfoldable pub HoldsBytes : Memory → Type 0
HoldsBytes m = (a : ℕ) → m.cells a < 256

-- `Memory()`.
abbrev pub new_memory : Memory
new_memory = record {
  cells = λ a. 0;
  size = mem_size;
  sel_base = none;
  sel_min = 0;
  ega_planar = false;
  ega_map_mask = 0x0f;
  ega_read_plane = 0;
  ega_data_rotate = 0;
  ega_logical_op = 0;
  ega_write_mode = 0;
  ega_latches = λ p. 0;
  ega_set_reset = 0;
  ega_enable_set_reset = 0;
  ega_bit_mask = 0xff;
  ega_read_mode = 0;
  ega_color_compare = 0;
  ega_color_dont_care = 0x0f;
  watched = false;
  log = [];
}

pub data Result {ℓ} (A : Type ℓ) : Type ℓ where
  ok : A → Result A
  err : Failure → Result A

abbrev pub M : Type 0 → Type 0
M A = Memory → Result (A × Memory)

abbrev pub pure : {A : Type 0} → A → M A
pure a m = ok (a, m)

abbrev pub fail : {A : Type 0} → Failure → M A
fail e m = err e

infixl 5 ◌>>=◌ ◌>>◌
abbrev pub ◌>>=◌ : {A B : Type 0} → M A → (A → M B) → M B
◌>>=◌ f k m = elim (f m) [ ok (a, m') ↦ k a m' | err e ↦ err e ]

abbrev pub ◌>>◌ : {B : Type 0} → M (Unit {0}) → M B → M B
f >> k = f >>= λ _. k

-- `self.data[a]`
unfoldable pub peek : ℕ → M ℕ
peek a m = if ltb a m.size then ok (m.cells a, m) else err index_error

abbrev pub update : (ℕ → ℕ) → ℕ → ℕ → ℕ → ℕ
update f a v x = if x == a then v else f x

-- `self.data[a] = v`, for a byte v
unfoldable pub poke : ℕ → ℕ → M (Unit {0})
poke a v m =
    if ltb a m.size then ok (tt, record m { cells = update m.cells a v }) else err index_error

-- `linear(seg, off)`
unfoldable pub linear : ℕ → ℕ → ℕ
linear seg off = bit_and (bit_and seg 0xffff * 2 ^ 4 + bit_and off 0xffff) 0xfffff

-- `dict.get`
unfoldable pub lookup : ℕ → List (ℕ × ℕ) → Option ℕ
lookup k [] = none
lookup k ((j, v) ∷ d) = if j == k then some v else lookup k d
