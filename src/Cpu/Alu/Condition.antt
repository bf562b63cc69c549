-- ===== src/Cpu/Alu/Condition.antt =====
-- `CPU8086.condition` on a flags word whose arithmetic flags are known.
use dos_re.Prelude.{
  ℕ, bit_and, bit_or, ◌≡◌, ◌∙◌, ap, Bool, not, ◌&&◌, ◌||◌, ◌==◌, truthy, if◌then◌else◌,
}
use dos_re.Prelude.Bits.{and-or, truthy-or}
use dos_re.X86.{cf, zf}
use dos_re.Cpu.Flags.{get_flag}
use dos_re.Cpu.Flags.Chain.{HasFlags}
use dos_re.Cpu.Alu.{condition, differ}

-- The condition codes by the flags.
abbrev pub by_flags : (cond : ℕ) (c p z s o : Bool) → Bool
by_flags cond c p z s o =
    if cond == 0x0
    then o
    else if cond == 0x1
    then not o
    else if cond == 0x2
    then c
    else if cond == 0x3
    then not c
    else if cond == 0x4
    then z
    else if cond == 0x5
    then not z
    else if cond == 0x6
    then c || z
    else if cond == 0x7
    then not (c || z)
    else if cond == 0x8
    then s
    else if cond == 0x9
    then not s
    else if cond == 0xa
    then p
    else if cond == 0xb
    then not p
    else if cond == 0xc
    then differ s o
    else if cond == 0xd
    then not (differ s o)
    else if cond == 0xe
    then z || differ s o
    else not z && not (differ s o)

get_flag-or : (f x y : ℕ) → truthy (bit_and f (bit_or x y)) ≡ (get_flag x f || get_flag y f)
unfolding get_flag
get_flag-or f x y = ap truthy (and-or f x y) ∙ truthy-or (bit_and f x) (bit_and f y)

pub condition-by_flags :
    (cond : ℕ) {c p a z s o : Bool} {f : ℕ}
    → HasFlags c p a z s o f
    → condition cond f ≡ by_flags cond c p z s o
unfolding condition
condition-by_flags cond {f = f} h =
    rw (get_flag-or f cf zf, h.carry, h.parity, h.zero_flag, h.sign, h.overflow)
