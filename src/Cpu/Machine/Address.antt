-- ===== src/Cpu/Machine/Address.antt =====
-- Effective addresses of dos_re/cpu.py: `sign8`, `sign16` and `decode_ea`. The text and the
-- displacement of an EffectiveAddress serve traces and are left out.
pub mod Paths
pub mod Signed
use dos_re.Prelude.{
  ℕ, ◌+◌, ◌*◌, ◌^◌, bit_and, bit_or, Bool, true, false, not, ◌&&◌, ◌||◌, Option, some, none, ◌==◌,
  truthy, if◌then◌else◌, Bool-cases, Option-cases, ◌≡◌, refl, sym, ap, ◌∙◌, arith, inl, inr,
}
use dos_re.Prelude.Int.{ℤ, pos, sub_ℕ, and_mask, ◌+ℤ◌}
use dos_re.X86.{CpuState}
use dos_re.Cpu.Regs.{SegReg, ds, ss}
use dos_re.Memory.State.{Result, ok, err, peek}
use dos_re.Cpu.Machine.{
  Machine, Exec, return, ◌>=>◌, on_mem, set_ip, direct, fetch8, fetch8_pair, fetch16,
}

unfoldable pub sign8 : ℕ → ℤ
sign8 v = if truthy (bit_and v 0x80) then sub_ℕ v 0x100 else pos v

unfoldable pub sign16 : ℕ → ℤ
sign16 v = if truthy (bit_and v 0x8000) then sub_ℕ v 0x10000 else pos v

-- The sum of the base registers, and the segment that goes with it.
unfoldable pub base_of : ℕ → CpuState → ℕ × SegReg
base_of rm s =
    if rm == 0
    then (s.bx + s.si, ds)
    else if rm == 1
    then (s.bx + s.di, ds)
    else if rm == 2
    then (s.bp + s.si, ss)
    else if rm == 3
    then (s.bp + s.di, ss)
    else if rm == 4
    then (s.si, ds)
    else if rm == 5
    then (s.di, ds)
    else if rm == 6
    then (s.bp, ss)
    else (s.bx, ds)

-- `seg_override or default_seg`
unfoldable pub chosen : Option SegReg → SegReg → SegReg
chosen none d = d
chosen (some o) d = o

-- `(base + disp) & 0xFFFF`
unfoldable pub displaced : ℕ → ℤ → ℕ
displaced base disp = and_mask (pos base +ℤ disp) 0xffff

-- The displacement by the fetches, the general path.
unfoldable pub fetched_ea : (mode base : ℕ) → SegReg → Exec (SegReg × ℕ)
unfolding displaced sign8 sign16
fetched_ea mode base seg =
    if mode == 1
    then (fetch8 >=> λ d. return (seg, displaced base (sign8 d)))
    else fetch16 >=> λ d. return (seg, displaced base (sign16 d))

unfoldable pub decode_ea : (mode rm : ℕ) → Option SegReg → Exec (SegReg × ℕ)
unfolding chosen base_of fetched_ea direct on_mem set_ip
decode_ea mode rm seg_override m =
    let (base, default_seg) = base_of rm m.regs in
    let seg = chosen seg_override default_seg in
    let mem = m.mem in
    let ip = bit_and m.regs.ip 0xffff in
    let cs_base = bit_and (bit_and m.regs.cs 0xffff * 2 ^ 4) 0xfffff in
    let a0 = bit_and (cs_base + ip) 0xfffff in
    let a1 = bit_and (cs_base + bit_and (ip + 1) 0xffff) 0xfffff in
    let near = direct mem a0 in
    if mode == 0 && rm == 6
    then (fetch16 >=> λ disp. return (chosen seg_override ds, bit_and disp 0xffff)) m
    else if mode == 0
    then ok ((seg, bit_and base 0xffff), m)
    else elim mem.sel_base [
      | some sb ↦ fetched_ea mode base seg m
      | none ↦
          if near && mode == 1
          then (on_mem (peek a0) >=> λ d n.
                ok ((seg, displaced base (sign8 d)), set_ip (bit_and (ip + 1) 0xffff) n))
              m
          else if near && mode == 2 && direct mem a1
          then (on_mem (peek a0) >=> λ lo. on_mem (peek a1) >=> λ hi n. ok (
            (seg, displaced base (sign16 (bit_or lo (hi * 2 ^ 8)))),
            set_ip (bit_and (ip + 2) 0xffff) n,
          ))
              m
          else fetched_ea mode base seg m
    ]
