-- ===== src/X86.antt =====
-- dos_re/x86.py: the FLAGS bits, the parity table and the register file. The x87 fields of
-- `CPUState` (fst, fsw, fcw) are left out: they hold floats, which no modelled operation reads.
use dos_re.Prelude.{ℕ, ◌+◌, ◌/◌, ◌%◌, Bool, ◌==◌}

abbrev pub cf : ℕ
cf = 0x0001

abbrev pub pf : ℕ
pf = 0x0004

abbrev pub af : ℕ
af = 0x0010

abbrev pub zf : ℕ
zf = 0x0040

abbrev pub sf : ℕ
sf = 0x0080

abbrev pub tf : ℕ
tf = 0x0100

abbrev pub if_flag : ℕ
if_flag = 0x0200

abbrev pub df : ℕ
df = 0x0400

abbrev pub of : ℕ
of = 0x0800

-- `bin(i).count("1")` of a byte.
unfoldable pub count_ones : ℕ → ℕ
count_ones i =
    i % 2 + i / 2 % 2 + i / 4 % 2 + i / 8 % 2 + i / 16 % 2 + i / 32 % 2 + i / 64 % 2 + i / 128 % 2

-- PARITY[i], for an index below 256.
unfoldable pub parity : ℕ → Bool
unfolding count_ones
parity i = count_ones i % 2 == 0

pub record CpuState : Type 0 where
  pub ax : ℕ
  pub bx : ℕ
  pub cx : ℕ
  pub dx : ℕ
  pub sp : ℕ
  pub bp : ℕ
  pub si : ℕ
  pub di : ℕ
  pub cs : ℕ
  pub ds : ℕ
  pub es : ℕ
  pub ss : ℕ
  pub ip : ℕ
  pub flags : ℕ
