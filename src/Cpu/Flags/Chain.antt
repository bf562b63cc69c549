-- ===== src/Cpu/Flags/Chain.antt =====
-- What the chain `f = flags & ~m; if c: f |= CF; …; (f | 2) & 0x0FFF` of cpu.py's flag helpers
-- leaves in each flag.
use dos_re.Prelude.{ℕ, ◌-◌, ◌*◌, ◌^◌, ◌<◌, ◌≤◌, min, max, bit_or, ◌≡◌, refl, ◌∙◌, ap, arith}
use dos_re.Prelude.{Bool, true, false, truthy, from_bool}
use dos_re.Prelude.Bits.{
  bit, bit-le, bit-and, bit-or, bit-clear, bit_and_pow, bit_and_mask, bit_clear,
}
use native.Mathlib.Nat.{one-le-pow}
use dos_re.X86.{cf, pf, af, zf, sf, tf, if_flag, df, of}
use dos_re.Cpu.Flags.{or_if, finish, set_flag, get_flag}

pub from_bool-le : (b : Bool) → from_bool b ≤ 1
from_bool-le true = omega arith
from_bool-le false = omega arith

pub from_bool-truthy : (b : Bool) → truthy (from_bool b) ≡ b
from_bool-truthy true = refl
from_bool-truthy false = refl

pub bit-or_if :
    (k : ℕ) (c : Bool) (flag f : ℕ)
    → bit k (or_if c flag f) ≡ max (bit k f) (min (from_bool c) (bit k flag))
unfolding or_if
bit-or_if k true flag f = omega (arith, bit-or k f flag, bit-le k flag)
bit-or_if k false flag f = omega arith

pub bit-finish : (k f : ℕ) → bit k (finish f) ≡ min (max (bit k f) (bit k 0x0002)) (bit k 0x0fff)
unfolding finish
bit-finish k f =
    bit-and k (bit_or f 0x0002) 0x0fff ∙ ap (λ t. min t (bit k 0x0fff)) (bit-or k f 0x0002)

pub bit-set_flag :
    (k flag f : ℕ) (v : Bool)
    → bit k (set_flag flag v f)
      ≡ min
          (max (max (bit k f - bit k flag) (min (from_bool v) (bit k flag))) (bit k 0x0002))
          (bit k 0x0fff)
unfolding set_flag
bit-set_flag k flag f true =
    omega (arith, bit-finish k (bit_or f flag), bit-or k f flag, bit-le k flag, bit-le k f)
bit-set_flag k flag f false = omega (arith, bit-finish k (bit_clear f flag), bit-clear k f flag)

pub finish-lt : (f : ℕ) → finish f < 2 ^ 12
unfolding finish
finish-lt f = omega (arith, bit_and_mask 12 (bit_or f 0x0002))

-- A single flag is one bit of the word.
pub get_flag-bit : (k f : ℕ) → get_flag (2 ^ k) f ≡ truthy (bit k f * 2 ^ k)
unfolding get_flag
get_flag-bit k f = ap truthy (bit_and_pow k f)

-- The six arithmetic flags of a word.
pub record HasFlags (c p a z s o : Bool) (f : ℕ) : Type 0 where
  pub carry : get_flag cf f ≡ c
  pub parity : get_flag pf f ≡ p
  pub adjust : get_flag af f ≡ a
  pub zero_flag : get_flag zf f ≡ z
  pub sign : get_flag sf f ≡ s
  pub overflow : get_flag of f ≡ o

pub HasFlags-congr :
    {c p a z s o c' p' a' z' s' o' : Bool} {f : ℕ}
    → c ≡ c'
    → p ≡ p'
    → a ≡ a'
    → z ≡ z'
    → s ≡ s'
    → o ≡ o'
    → HasFlags c p a z s o f
    → HasFlags c' p' a' z' s' o' f
HasFlags-congr ec ep ea ez es eo h = record {
  carry = h.carry ∙ ec;
  parity = h.parity ∙ ep;
  adjust = h.adjust ∙ ea;
  zero_flag = h.zero_flag ∙ ez;
  sign = h.sign ∙ es;
  overflow = h.overflow ∙ eo;
}

-- The control flags are those of the old word, bit 1 is set, and nothing lies above bit 11.
pub record KeepsControl (old f : ℕ) : Type 0 where
  pub trap : get_flag tf f ≡ get_flag tf old
  pub interrupt : get_flag if_flag f ≡ get_flag if_flag old
  pub direction : get_flag df f ≡ get_flag df old
  pub reserved : get_flag 0x0002 f ≡ true
  pub bounded : f < 2 ^ 12

ruleset chain = (bit-finish, bit-or_if, bit-clear)

pub truthy_scaled : (k : ℕ) (b : Bool) → truthy (from_bool b * 2 ^ k) ≡ b
truthy_scaled k true = let positive : 1 ≤ 2 ^ k = one-le-pow k 2 (omega arith) in ground arith
truthy_scaled k false = ground arith

-- A flag whose bit is that of a truth value, and one whose bit is that of another word.
get_flag_of : (k f : ℕ) (b : Bool) → bit k f ≡ from_bool b → get_flag (2 ^ k) f ≡ b
get_flag_of k f b e = get_flag-bit k f ∙ ap (λ t. truthy (t * 2 ^ k)) e ∙ truthy_scaled k b

get_flag_kept : (k f old : ℕ) → bit k f ≡ bit k old → get_flag (2 ^ k) f ≡ get_flag (2 ^ k) old
get_flag_kept k f old e = rw (get_flag-bit k f, get_flag-bit k old, e)

ruleset digits = (arith, from_bool-le, bit-le)

module _ (c p a z s o : Bool) (old : ℕ) where
  -- set_add_flags and set_sub_flags clear all six flags.
  abbrev pub arith_chain : ℕ
  arith_chain = finish (
      or_if o of
        (or_if a af (or_if p pf (or_if s sf (or_if z zf (or_if c cf (bit_clear old 0x08d5)))))))

  pub arith_chain-HasFlags : HasFlags c p a z s o arith_chain
  unfolding bit
  arith_chain-HasFlags = record {
    carry = get_flag_of 0 arith_chain c (simp chain (omega digits));
    parity = get_flag_of 2 arith_chain p (simp chain (omega digits));
    adjust = get_flag_of 4 arith_chain a (simp chain (omega digits));
    zero_flag = get_flag_of 6 arith_chain z (simp chain (omega digits));
    sign = get_flag_of 7 arith_chain s (simp chain (omega digits));
    overflow = get_flag_of 11 arith_chain o (simp chain (omega digits));
  }

  pub arith_chain-KeepsControl : KeepsControl old arith_chain
  unfolding bit
  arith_chain-KeepsControl = record {
    trap = get_flag_kept 8 arith_chain old (simp chain (omega digits));
    interrupt = get_flag_kept 9 arith_chain old (simp chain (omega digits));
    direction = get_flag_kept 10 arith_chain old (simp chain (omega digits));
    reserved = get_flag_of 1 arith_chain true (simp chain (omega digits));
    bounded = finish-lt _;
  }

module _ (p z s : Bool) (old : ℕ) where
  -- set_logic_flags clears CF and OF, and leaves AF.
  abbrev pub logic_chain : ℕ
  logic_chain = finish (or_if p pf (or_if s sf (or_if z zf (bit_clear old 0x08c5))))

  pub logic_chain-HasFlags : HasFlags false p (get_flag af old) z s false logic_chain
  unfolding bit
  logic_chain-HasFlags = record {
    carry = get_flag_of 0 logic_chain false (simp chain (omega digits));
    parity = get_flag_of 2 logic_chain p (simp chain (omega digits));
    adjust = get_flag_kept 4 logic_chain old (simp chain (omega digits));
    zero_flag = get_flag_of 6 logic_chain z (simp chain (omega digits));
    sign = get_flag_of 7 logic_chain s (simp chain (omega digits));
    overflow = get_flag_of 11 logic_chain false (simp chain (omega digits));
  }

  pub logic_chain-KeepsControl : KeepsControl old logic_chain
  unfolding bit
  logic_chain-KeepsControl = record {
    trap = get_flag_kept 8 logic_chain old (simp chain (omega digits));
    interrupt = get_flag_kept 9 logic_chain old (simp chain (omega digits));
    direction = get_flag_kept 10 logic_chain old (simp chain (omega digits));
    reserved = get_flag_of 1 logic_chain true (simp chain (omega digits));
    bounded = finish-lt _;
  }

module _ (p a z s o : Bool) (old : ℕ) where
  -- set_incdec_flags leaves CF.
  abbrev pub incdec_chain : ℕ
  incdec_chain =
      finish (or_if o of (or_if a af (or_if p pf (or_if s sf (or_if z zf (bit_clear old 0x08d4))))))

  pub incdec_chain-HasFlags : HasFlags (get_flag cf old) p a z s o incdec_chain
  unfolding bit
  incdec_chain-HasFlags = record {
    carry = get_flag_kept 0 incdec_chain old (simp chain (omega digits));
    parity = get_flag_of 2 incdec_chain p (simp chain (omega digits));
    adjust = get_flag_of 4 incdec_chain a (simp chain (omega digits));
    zero_flag = get_flag_of 6 incdec_chain z (simp chain (omega digits));
    sign = get_flag_of 7 incdec_chain s (simp chain (omega digits));
    overflow = get_flag_of 11 incdec_chain o (simp chain (omega digits));
  }

  pub incdec_chain-KeepsControl : KeepsControl old incdec_chain
  unfolding bit
  incdec_chain-KeepsControl = record {
    trap = get_flag_kept 8 incdec_chain old (simp chain (omega digits));
    interrupt = get_flag_kept 9 incdec_chain old (simp chain (omega digits));
    direction = get_flag_kept 10 incdec_chain old (simp chain (omega digits));
    reserved = get_flag_of 1 incdec_chain true (simp chain (omega digits));
    bounded = finish-lt _;
  }
