-- ===== src/Cpu/Alu/Logic.antt =====
-- The logic groups of `CPU8086.alu` in dos_re/cpu.py: OR, AND and XOR.
use dos_re.Prelude.{
  ℕ, suc, ◌-◌, ◌%◌, ◌^◌, ◌<◌, bit_and, bit_or, bit_xor, ◌≡◌, refl, arith, false, ◌==◌, leb, some,
}
use native.Mathlib.Nat.{one-le-pow, mod-lt}
use dos_re.Prelude.Bits.{bit_and_mask}
use dos_re.X86.{af, parity}
use dos_re.Cpu.Flags.{get_flag, set_logic_flags}
use dos_re.Cpu.Flags.Chain.{
  HasFlags, KeepsControl, logic_chain, logic_chain-HasFlags, logic_chain-KeepsControl,
}
use dos_re.Cpu.Alu.{alu}
use dos_re.Cpu.Alu.Word.{truthy_sign}

-- The wrapped result of a logic operation, CF and OF clear, AF as it was.
pub record IsLogic (n v flags : ℕ) (r f : ℕ) : Type 0 where
  pub value : r ≡ v % 2 ^ suc n
  pub arithmetic :
      HasFlags false (parity (r % 256)) (get_flag af flags) (r == 0) (leb (2 ^ n) r) false f
  pub control : KeepsControl flags f

logic_lem : (n v flags : ℕ) → IsLogic n v flags (v % 2 ^ suc n) (set_logic_flags v (suc n) flags)
logic_lem n v flags = rw as_chain (record {
  value = refl;
  arithmetic = logic_chain-HasFlags _ _ _ flags;
  control = logic_chain-KeepsControl _ _ _ flags;
})
  where
    as_chain :
        set_logic_flags v (suc n) flags
        ≡ logic_chain
            (parity (v % 2 ^ suc n % 256))
            (v % 2 ^ suc n == 0)
            (leb (2 ^ n) (v % 2 ^ suc n))
            flags
    as_chain =
        let low : suc n - 1 ≡ n = omega arith in
        let small : v % 2 ^ suc n < 2 ^ suc n = mod-lt v (one-le-pow (suc n) 2 (omega arith)) in
        unfold set_logic_flags in
        rw (low, bit_and_mask (suc n) v, bit_and_mask 8 (v % 2 ^ suc n), truthy_sign n _ small)

-- Groups 1, 4 and 6 return the bitwise or, and, and exclusive or of any two operands, cut to the
-- width of n + 1 bits; CF and OF are cleared, ZF, SF and PF describe the result, and AF and the
-- control flags are kept.
pub alu-IsLogic :
    (n a b flags : ℕ)
    → ((r f : ℕ) × (alu 1 a b (suc n) flags ≡ some (r, f)) × IsLogic n (bit_or a b) flags r f)
      × ((r f : ℕ) × (alu 4 a b (suc n) flags ≡ some (r, f)) × IsLogic n (bit_and a b) flags r f)
      × ((r f : ℕ) × (alu 6 a b (suc n) flags ≡ some (r, f)) × IsLogic n (bit_xor a b) flags r f)
unfolding alu
alu-IsLogic n a b flags = (
  (_, _, rw (bit_and_mask (suc n) (bit_or a b)), logic_lem n (bit_or a b) flags),
  (_, _, rw (bit_and_mask (suc n) (bit_and a b)), logic_lem n (bit_and a b) flags),
  (_, _, rw (bit_and_mask (suc n) (bit_xor a b)), logic_lem n (bit_xor a b) flags),
)
