-- ===== src/Cpu/Machine/Fetch.antt =====
-- `fetch8` and `fetch16` of dos_re/cpu.py against the reads of the memory that they inline.
use dos_re.Prelude.{
  ℕ, ◌+◌, ◌*◌, ◌^◌, bit_and, bit_or, true, false, not, ◌&&◌, ◌||◌, Option, some, none, ltb, leb,
  if◌then◌else◌, Bool-cases, Option-cases, ◌≡◌, refl, sym, ap, ap₂, ◌∙◌, arith, ◌⊎◌, inl, inr, List,
}
use dos_re.Prelude.Bits.{bit_and_mask}
use dos_re.X86.{CpuState}
use dos_re.Memory.State.{Memory, Result, ok, err, index_error, peek, lookup, linear}
use dos_re.Memory.Access.{rb, in_aperture, xlat}
use dos_re.Cpu.Machine.Stack.{then-ok, then-err, on_mem-ok, on_mem-err}
use dos_re.Cpu.Machine.{
  Machine, Exec, return, ◌>=>◌, on_mem, set_ip, direct, outside_window, code_byte, fetch8,
  fetch8_pair, fetch16,
}

-- An address is direct where the planar aperture does not take it.
direct_lem : (mem : Memory) (a : ℕ) → direct mem a ≡ not (in_aperture mem a)
unfolding direct outside_window in_aperture
direct_lem mem a = ground arith

masked_twice : (x : ℕ) → bit_and (bit_and x 0xffff) 0xffff ≡ bit_and x 0xffff
masked_twice x = omega (arith, bit_and_mask 16 x, bit_and_mask 16 (bit_and x 0xffff))

rb-masked :
    (seg off : ℕ) (mem : Memory)
    → mem.sel_base ≡ none
    → rb seg (bit_and off 0xffff) mem ≡ rb seg off mem
unfolding rb linear
rb-masked seg off mem real = rw (real, masked_twice off) refl

code_byte-real :
    (s : CpuState) (ip : ℕ) (mem : Memory)
    → mem.sel_base ≡ none
    → code_byte s (bit_and ip 0xffff) mem ≡ rb s.cs ip mem
code_byte-real s ip mem real =
    let a = linear s.cs ip in
    elim (Bool-cases (in_aperture mem a)) [
      | inl e ↦
          let away : direct mem a ≡ false = direct_lem mem a ∙ ap not e in
          let through : code_byte s (bit_and ip 0xffff) mem ≡ rb s.cs (bit_and ip 0xffff) mem =
            unfold code_byte linear in rw (real, away) refl in
          through ∙ rb-masked s.cs ip mem real
      | inr e ↦
          let near : direct mem a ≡ true = direct_lem mem a ∙ ap not e in
          unfold code_byte rb linear in rw (real, near, e) refl
    ]

-- With selectors, both look the same descriptor up where the code segment has no RPL bits.
found_first :
    (found : Option ℕ) (low off : ℕ) (mem : Memory)
    → elim found [ some base ↦ peek (base + off) mem | none ↦ peek (low + off) mem ]
      ≡ peek (elim found [ some base ↦ base + off | none ↦ low + off ]) mem
found_first none low off mem = refl
found_first (some base) low off mem = refl

code_byte-selectors :
    (s : CpuState) (ip : ℕ) (mem : Memory) (sb : List (ℕ × ℕ))
    → mem.sel_base ≡ some sb
    → bit_and (bit_and s.cs 0xffff) 0xfffc ≡ bit_and s.cs 0xffff
    → code_byte s (bit_and ip 0xffff) mem ≡ rb s.cs ip mem
unfolding code_byte rb xlat
code_byte-selectors s ip mem sb e plain =
    let seg = bit_and s.cs 0xffff in
    let held = record mem { sel_base = some sb } in
    let find = λ (key : ℕ). if leb mem.sel_min seg then lookup key sb else none in
    let address : ℕ → ℕ = λ key. elim (find key) [
      | some base ↦ base + bit_and ip 0xffff
      | none ↦ seg * 2 ^ 4 + bit_and ip 0xffff
    ] in
    let same : xlat sb mem.sel_min s.cs ip ≡ address seg = ap address plain in
    rw e (
      found_first (find seg) (seg * 2 ^ 4) (bit_and ip 0xffff) held
      ∙ ap (λ a. peek a held) (sym same))

-- Real mode, or a code selector whose RPL bits are clear.
unfoldable pub PlainCode : Machine → Type 0
PlainCode m =
    (m.mem.sel_base ≡ none) ⊎ (bit_and (bit_and m.regs.cs 0xffff) 0xfffc ≡ bit_and m.regs.cs 0xffff)

code_byte-rb :
    (m : Machine)
    → PlainCode m
    → code_byte m.regs (bit_and m.regs.ip 0xffff) m.mem ≡ rb m.regs.cs m.regs.ip m.mem
unfolding PlainCode
code_byte-rb m (inl real) = code_byte-real m.regs m.regs.ip m.mem real
code_byte-rb m (inr plain) = elim (Option-cases m.mem.sel_base) [
  | inl real ↦ code_byte-real m.regs m.regs.ip m.mem real
  | inr (sb, e) ↦ code_byte-selectors m.regs m.regs.ip m.mem sb e plain
]

-- What a fetch makes of the memory's answer.
abbrev pub carried : Machine → Result (ℕ × Memory) → Result (ℕ × Machine)
carried m r = elim r [ ok (v, n) ↦ ok (v, record m { mem = n }) | err e ↦ err e ]

abbrev pub after : Machine → Result (ℕ × Memory) → ℕ → Result (ℕ × Machine)
after m r ip = elim (carried m r) [ ok (v, n) ↦ ok (v, set_ip ip n) | err e ↦ err e ]

-- Where the code segment has no RPL bits, or there are no selectors, a code byte is fetched by
-- exactly the memory's byte read at CS:IP, its effects and failures included, and IP moves on by
-- one within its 16 bits.
pub fetch8-rb :
    (m : Machine)
    → PlainCode m
    → fetch8 m
      ≡ (on_mem (rb m.regs.cs m.regs.ip) >=> λ v n.
            ok (v, set_ip (bit_and (m.regs.ip + 1) 0xffff) n))
          m
unfolding fetch8 on_mem
fetch8-rb m plain =
    let next : bit_and (bit_and m.regs.ip 0xffff + 1) 0xffff ≡ bit_and (m.regs.ip + 1) 0xffff =
      omega (
        arith,
        bit_and_mask 16 (bit_and m.regs.ip 0xffff + 1),
        bit_and_mask 16 m.regs.ip,
        bit_and_mask 16 (m.regs.ip + 1),
      ) in
    ap₂ (after m) (code_byte-rb m plain) next

-- In real mode and away from the aperture a fetch is a plain read.
fetch8-near :
    (m : Machine) (a : ℕ)
    → m.mem.sel_base ≡ none
    → bit_and (bit_and m.regs.cs 0xffff * 2 ^ 4 + bit_and m.regs.ip 0xffff) 0xfffff ≡ a
    → direct m.mem a ≡ true
    → fetch8 m ≡ after m (peek a m.mem) (bit_and (bit_and m.regs.ip 0xffff + 1) 0xffff)
unfolding fetch8 on_mem
fetch8-near m a real at near =
    let read : code_byte m.regs (bit_and m.regs.ip 0xffff) m.mem ≡ peek a m.mem =
      unfold code_byte in rw (real, at, near) refl in
    ap (λ r. after m r (bit_and (bit_and m.regs.ip 0xffff + 1) 0xffff)) read

pub read_cases :
    (a : ℕ) (mem : Memory) → (peek a mem ≡ ok (mem.cells a, mem)) ⊎ (peek a mem ≡ err index_error)
unfolding peek
read_cases a mem = elim (Bool-cases (ltb a mem.size)) [
  | inl e ↦ inl (rw e refl)
  | inr e ↦ inr (rw e refl)
]

-- Two plain reads at the two code addresses, by the short path and by two fetches.
module _ (m : Machine) (a0 a1 ip1 ip2 : ℕ) where
  unfoldable pub two_reads : Exec ℕ
  two_reads = on_mem (peek a0) >=> λ lo.
      on_mem (peek a1) >=> λ hi n. ok (bit_or lo (hi * 2 ^ 8), set_ip ip2 n)

  two_reads-fetch8_pair :
      fetch8 m ≡ after m (peek a0 m.mem) ip1
      → fetch8 (set_ip ip1 m) ≡ after (set_ip ip1 m) (peek a1 m.mem) ip2
      → two_reads m ≡ fetch8_pair m
  unfolding two_reads fetch8_pair set_ip
  two_reads-fetch8_pair one two =
      let join : ℕ → Exec ℕ = λ lo. fetch8 >=> λ hi. return (bit_or lo (hi * 2 ^ 8)) in
      let m1 = set_ip ip1 m in
      let last : ℕ → ℕ → Exec ℕ = λ lo hi n. ok (bit_or lo (hi * 2 ^ 8), set_ip ip2 n) in
      let rest : ℕ → Exec ℕ = λ lo. on_mem (peek a1) >=> last lo in
      elim (read_cases a0 m.mem) [
        | inr e ↦
            then-err (on_mem (peek a0)) rest m (on_mem-err (peek a0) m e)
            ∙ sym (then-err fetch8 join m (one ∙ ap (λ r. after m r ip1) e))
        | inl e ↦
            let v = m.mem.cells a0 in
            let first : fetch8 m ≡ ok (v, m1) = one ∙ ap (λ r. after m r ip1) e in
            let settle : rest v m ≡ join v m1 = elim (read_cases a1 m.mem) [
              | inr f ↦
                  then-err (on_mem (peek a1)) (last v) m (on_mem-err (peek a1) m f)
                  ∙ sym (
                      then-err fetch8 (λ hi. return (bit_or v (hi * 2 ^ 8))) m1
                        (two ∙ ap (λ r. after m1 r ip2) f))
              | inl f ↦
                  then-ok (on_mem (peek a1)) (last v) m (on_mem-ok (peek a1) m f)
                  ∙ sym (
                      then-ok fetch8 (λ hi. return (bit_or v (hi * 2 ^ 8))) m1
                        (two ∙ ap (λ r. after m1 r ip2) f))
            ] in
            then-ok (on_mem (peek a0)) rest m (on_mem-ok (peek a0) m e)
            ∙ settle
            ∙ sym (then-ok fetch8 join m first)
      ]

-- The addresses of the two bytes.
code_address :
    (cs ip : ℕ)
    → bit_and (bit_and (bit_and cs 0xffff * 2 ^ 4) 0xfffff + ip) 0xfffff
      ≡ bit_and (bit_and cs 0xffff * 2 ^ 4 + ip) 0xfffff
code_address cs ip =
    let small : bit_and (bit_and cs 0xffff * 2 ^ 4) 0xfffff ≡ bit_and cs 0xffff * 2 ^ 4 =
      omega (arith, bit_and_mask 16 cs, bit_and_mask 20 (bit_and cs 0xffff * 2 ^ 4)) in
    ap (λ b. bit_and (b + ip) 0xfffff) small

-- The addresses of the next two code bytes, as the short paths compute them.
abbrev pub code_base : Machine → ℕ
code_base m = bit_and (bit_and m.regs.cs 0xffff * 2 ^ 4) 0xfffff

abbrev pub first_address : Machine → ℕ
first_address m = bit_and (code_base m + bit_and m.regs.ip 0xffff) 0xfffff

abbrev pub second_address : Machine → ℕ
second_address m = bit_and (code_base m + bit_and (bit_and m.regs.ip 0xffff + 1) 0xffff) 0xfffff

-- In real mode a short byte path is a fetch.
pub fetch8-short :
    (m : Machine)
    → m.mem.sel_base ≡ none
    → direct m.mem (first_address m) ≡ true
    → fetch8 m
      ≡ after m (peek (first_address m) m.mem) (bit_and (bit_and m.regs.ip 0xffff + 1) 0xffff)
fetch8-short m real near =
    fetch8-near m (first_address m) real (sym (code_address m.regs.cs (bit_and m.regs.ip 0xffff)))
      near

-- In real mode the short word path is two fetches.
pub two_reads-short :
    (m : Machine)
    → m.mem.sel_base ≡ none
    → direct m.mem (first_address m) ≡ true
    → direct m.mem (second_address m) ≡ true
    → two_reads m
        (first_address m)
        (second_address m)
        (bit_and (bit_and m.regs.ip 0xffff + 1) 0xffff)
        (bit_and (bit_and m.regs.ip 0xffff + 2) 0xffff)
        m
      ≡ fetch8_pair m
two_reads-short m real near0 near1 =
    let cs = m.regs.cs in
    let ip = bit_and m.regs.ip 0xffff in
    let ip1 = bit_and (ip + 1) 0xffff in
    let ip2 = bit_and (ip + 2) 0xffff in
    let a1 = second_address m in
    let again : bit_and ip1 0xffff ≡ ip1 = masked_twice (ip + 1) in
    let step : bit_and (bit_and ip1 0xffff + 1) 0xffff ≡ ip2 = omega (
      arith,
      again,
      bit_and_mask 16 (ip + 1),
      bit_and_mask 16 (ip1 + 1),
      bit_and_mask 16 (ip + 2),
      ap (λ t. bit_and (t + 1) 0xffff) again,
    ) in
    let second : fetch8 (set_ip ip1 m)
        ≡ after (set_ip ip1 m) (peek a1 m.mem) (bit_and (bit_and ip1 0xffff + 1) 0xffff) =
      unfold set_ip in
      fetch8-near (set_ip ip1 m) a1 real
        (ap (λ o. bit_and (bit_and cs 0xffff * 2 ^ 4 + o) 0xfffff) again
          ∙ sym (code_address cs ip1))
        near1 in
    two_reads-fetch8_pair m (first_address m) a1 ip1 ip2 (fetch8-short m real near0)
      (second ∙ ap (after (set_ip ip1 m) (peek a1 m.mem)) step)

-- A word fetch is two byte fetches, by whichever path the code takes: the value, IP, the memory's
-- latches and the failures agree, in every mode.
pub fetch16-fetch8_pair : (m : Machine) → fetch16 m ≡ fetch8_pair m
unfolding fetch16
fetch16-fetch8_pair m = elim (Option-cases m.mem.sel_base) [
  | inr (sb, e) ↦ rw e refl
  | inl real ↦
      let a0 = first_address m in
      let a1 = second_address m in
      elim (Bool-cases (not m.mem.ega_planar || (outside_window a0 && outside_window a1))) [
        | inr far ↦ rw (real, far) refl
        | inl near ↦
            let short : fetch16 m
                ≡ two_reads m a0 a1 (bit_and (bit_and m.regs.ip 0xffff + 1) 0xffff)
                    (bit_and (bit_and m.regs.ip 0xffff + 2) 0xffff) m =
              unfold two_reads in rw (real, near) refl in
            short
            ∙ two_reads-short m real (unfold direct in ground arith) (unfold direct in ground arith)
      ]
]
