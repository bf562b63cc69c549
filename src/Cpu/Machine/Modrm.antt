-- ===== src/Cpu/Machine/Modrm.antt =====
-- `peek_modrm` of dos_re/cpu.py: the ModR/M byte and its three fields.
use dos_re.Prelude.{
  ℕ, ◌+◌, ◌*◌, ◌/◌, ◌%◌, ◌^◌, ◌<◌, bit_and, Option, some, none, if◌then◌else◌, ◌≡◌, refl, sym, ap,
  ◌∙◌, arith,
}
use dos_re.Prelude.Bits.{bit_and_mask}
use dos_re.Memory.State.{Memory, M, Result, ok, err, peek}
use dos_re.Memory.Access.{rb}
use mathlib.Core.Option.{none-ne-some}
use dos_re.Cpu.Machine.Address.Paths.{by_mode}
use dos_re.Cpu.Machine.{Machine, Exec, return, ◌>=>◌, on_mem, set_ip, direct, code_byte, fetch8}

-- `m, (m >> 6) & 3, (m >> 3) & 7, m & 7`
pub record Modrm : Type 0 where
  pub byte : ℕ
  pub mode : ℕ
  pub reg : ℕ
  pub rm : ℕ

unfoldable pub fields : ℕ → Modrm
fields m = record {
  byte = m;
  mode = bit_and (m / 2 ^ 6) 3;
  reg = bit_and (m / 2 ^ 3) 7;
  rm = bit_and m 7;
}

-- The byte by the inlined paths of the real mode.
unfoldable pub near_byte : (cs off : ℕ) → M ℕ
unfolding direct
near_byte cs off mem =
    let a = bit_and (bit_and cs 0xffff * 2 ^ 4 + off) 0xfffff in
    if direct mem a then peek a mem else rb cs off mem

unfoldable pub peek_modrm : Exec Modrm
unfolding fields near_byte on_mem set_ip fetch8
peek_modrm m =
    let off = bit_and m.regs.ip 0xffff in
    elim m.mem.sel_base [
      | some sb ↦ (fetch8 >=> λ b. return (fields b)) m
      | none ↦
          (on_mem (near_byte m.regs.cs off) >=> λ b n.
          ok (fields b, set_ip (bit_and (off + 1) 0xffff) n))
            m
    ]

-- What a ModR/M byte says, as a sum of its fields.
pub record Splits (r : Modrm) : Type 0 where
  pub whole : r.byte % 256 ≡ r.mode * 64 + r.reg * 8 + r.rm
  pub mode_bound : r.mode < 4
  pub reg_bound : r.reg < 8
  pub rm_bound : r.rm < 8

fields-Splits : (b : ℕ) → Splits (fields b)
unfolding fields
fields-Splits b =
    let top = bit_and_mask 2 (b / 2 ^ 6) in
    let middle = bit_and_mask 3 (b / 2 ^ 3) in
    let low = bit_and_mask 3 b in
    record {
      whole = omega (arith, top, middle, low);
      mode_bound = omega (arith, top);
      reg_bound = omega (arith, middle);
      rm_bound = omega (arith, low);
    }

-- A fetch whose byte is handed on as fields, whatever it answers.
abbrev ended : Result (ℕ × Machine) → Result (Modrm × Machine)
ended r = elim r [ ok (b, n) ↦ ok (fields b, n) | err e ↦ err e ]

fused :
    (r : Result (ℕ × Machine)) (ip : ℕ)
    → elim r [ ok (b, n) ↦ ok (fields b, set_ip ip n) | err e ↦ err e ]
      ≡ ended (elim r [ ok (b, n) ↦ ok (b, set_ip ip n) | err e ↦ err e ])
fused (ok (b, n)) ip = refl
fused (err e) ip = refl

at_none :
    {S X : Type 0} (sb : Option S) (f : S → X) (y : X)
    → sb ≡ none
    → elim sb [ some s ↦ f s | none ↦ y ] ≡ y
at_none none f y e = refl
at_none (some s) f y e = absurd (none-ne-some s (sym e))

code_byte-near :
    (m : Machine) (off : ℕ)
    → m.mem.sel_base ≡ none
    → code_byte m.regs off m.mem ≡ near_byte m.regs.cs off m.mem
unfolding code_byte near_byte
code_byte-near m off real = at_none m.mem.sel_base _ _ real

abbrev lifted : Machine → Result (ℕ × Memory) → Result (ℕ × Machine)
lifted m r = elim r [ ok (b, n) ↦ ok (b, record m { mem = n }) | err e ↦ err e ]

-- Reading a ModR/M byte is a byte fetch, by whichever path the code takes, and its fields are the
-- digits of the byte: two bits, three and three.
pub peek_modrm-fetch8 :
    (m : Machine)
    → (peek_modrm m ≡ (fetch8 >=> λ b. return (fields b)) m) × ((b : ℕ) → Splits (fields b))
unfolding peek_modrm fetch8 on_mem
peek_modrm-fetch8 m =
    let off = bit_and m.regs.ip 0xffff in
    let next = bit_and (off + 1) 0xffff in
    let answer = λ (r : Result (ℕ × Memory)).
      ended (elim (lifted m r) [ ok (b, n) ↦ ok (b, set_ip next n) | err e ↦ err e ]) in
    (
      by_mode m.mem.sel_base ((fetch8 >=> λ b. return (fields b)) m) _ (λ real.
          fused (lifted m (near_byte m.regs.cs off m.mem)) next
          ∙ ap answer (sym (code_byte-near m off real))),
      fields-Splits,
    )
