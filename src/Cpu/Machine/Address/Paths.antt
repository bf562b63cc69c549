-- ===== src/Cpu/Machine/Address/Paths.antt =====
-- `decode_ea` of dos_re/cpu.py: its inlined displacement reads are fetches, and its offset is the
-- signed sum modulo 2^16.
use dos_re.Prelude.{
  ℕ, ◌+◌, ◌*◌, ◌^◌, bit_and, bit_or, true, false, ◌&&◌, Option, some, none, ◌==◌, if◌then◌else◌,
  Bool-cases, ◌≡◌, refl, sym, ap, ◌∙◌, arith, inl, inr,
}
use dos_re.Cpu.Regs.{SegReg, ds}
use dos_re.Memory.State.{Result, ok, err, peek}
use dos_re.Cpu.Machine.{Machine, Exec, return, ◌>=>◌, on_mem, set_ip, direct, fetch8, fetch16}
use dos_re.Cpu.Machine.Stack.{then-ok, then-err, on_mem-ok, on_mem-err}
use dos_re.Cpu.Machine.Fetch.{
  after, read_cases, two_reads, first_address, second_address, fetch8-short, two_reads-short,
  fetch16-fetch8_pair,
}
use dos_re.Cpu.Machine.Address.{sign8, sign16, base_of, chosen, displaced, fetched_ea, decode_ea}

-- The address by fetches alone.
unfoldable pub plain_ea : (mode rm : ℕ) → Option SegReg → Exec (SegReg × ℕ)
plain_ea mode rm seg_override m =
    let base = (base_of rm m.regs).0 in
    let seg = chosen seg_override (base_of rm m.regs).1 in
    if mode == 0 && rm == 6
    then (fetch16 >=> λ disp. return (chosen seg_override ds, bit_and disp 0xffff)) m
    else if mode == 0
    then ok ((seg, bit_and base 0xffff), m)
    else fetched_ea mode base seg m

-- How the short paths end.
abbrev byte_end : ℕ → SegReg → ℕ → ℕ → Exec (SegReg × ℕ)
byte_end base seg ip d n = ok ((seg, displaced base (sign8 d)), set_ip ip n)

abbrev word_end : ℕ → SegReg → ℕ → ℕ → ℕ → Exec (SegReg × ℕ)
word_end base seg ip lo hi n =
    ok ((seg, displaced base (sign16 (bit_or lo (hi * 2 ^ 8)))), set_ip ip n)

-- The short byte path.
byte_path :
    (m : Machine) (base : ℕ) (seg : SegReg)
    → m.mem.sel_base ≡ none
    → direct m.mem (first_address m) ≡ true
    → (on_mem (peek (first_address m))
          >=> byte_end base seg (bit_and (bit_and m.regs.ip 0xffff + 1) 0xffff))
        m
      ≡ (fetch8 >=> λ d. return (seg, displaced base (sign8 d))) m
byte_path m base seg real near =
    let a = first_address m in
    let ip = bit_and (bit_and m.regs.ip 0xffff + 1) 0xffff in
    let short : ℕ → Exec (SegReg × ℕ) = byte_end base seg ip in
    let plain : ℕ → Exec (SegReg × ℕ) = λ d. return (seg, displaced base (sign8 d)) in
    let fetch = fetch8-short m real near in
    elim (read_cases a m.mem) [
      | inl e ↦
          then-ok (on_mem (peek a)) short m (on_mem-ok (peek a) m e)
          ∙ sym (then-ok fetch8 plain m (fetch ∙ ap (λ r. after m r ip) e))
      | inr e ↦
          then-err (on_mem (peek a)) short m (on_mem-err (peek a) m e)
          ∙ sym (then-err fetch8 plain m (fetch ∙ ap (λ r. after m r ip) e))
    ]

-- Two reads, joined at once or after them.
joined :
    (m : Machine) (a0 a1 ip1 ip2 base : ℕ) (seg : SegReg)
    → (on_mem (peek a0) >=> λ lo. on_mem (peek a1) >=> word_end base seg ip2 lo) m
      ≡ (two_reads m a0 a1 ip1 ip2 >=> λ d. return (seg, displaced base (sign16 d))) m
unfolding two_reads
joined m a0 a1 ip1 ip2 base seg =
    let last : ℕ → ℕ → Exec (SegReg × ℕ) = word_end base seg ip2 in
    let word : ℕ → ℕ → Exec ℕ = λ lo hi n. ok (bit_or lo (hi * 2 ^ 8), set_ip ip2 n) in
    let plain : ℕ → Exec (SegReg × ℕ) = λ d. return (seg, displaced base (sign16 d)) in
    let first = on_mem (peek a0) in
    let second = on_mem (peek a1) in
    let ends : ℕ → Exec (SegReg × ℕ) = λ lo. second >=> last lo in
    let words : ℕ → Exec ℕ = λ lo. second >=> word lo in
    elim (read_cases a0 m.mem) [
      | inr e ↦
          then-err first ends m (on_mem-err (peek a0) m e)
          ∙ sym (
              then-err (first >=> words) plain m
                (then-err first words m (on_mem-err (peek a0) m e)))
      | inl e ↦
          let lo = m.mem.cells a0 in
          let read = on_mem-ok (peek a0) m e in
          elim (read_cases a1 m.mem) [
            | inr f ↦
                then-ok first ends m read
                ∙ then-err second (last lo) m (on_mem-err (peek a1) m f)
                ∙ sym (
                    then-err (first >=> words) plain m (
                      then-ok first words m read
                      ∙ then-err second (word lo) m (on_mem-err (peek a1) m f)))
            | inl f ↦
                then-ok first ends m read
                ∙ then-ok second (last lo) m (on_mem-ok (peek a1) m f)
                ∙ sym (
                    then-ok (first >=> words) plain m (
                      then-ok first words m read
                      ∙ then-ok second (word lo) m (on_mem-ok (peek a1) m f)))
          ]
    ]

pub by_mode :
    {S X : Type 0} (sb : Option S) (x y : X)
    → (sb ≡ none → y ≡ x)
    → elim sb [ some _ ↦ x | none ↦ y ] ≡ x
by_mode none x y h = h refl
by_mode (some s) x y h = refl

fetched_byte :
    (mode base : ℕ) (seg : SegReg) (m : Machine)
    → (mode == 1) ≡ true
    → (fetch8 >=> λ d. return (seg, displaced base (sign8 d))) m ≡ fetched_ea mode base seg m
unfolding fetched_ea
fetched_byte mode base seg m e = rw e refl

fetched_word :
    (mode base : ℕ) (seg : SegReg) (m : Machine)
    → (mode == 1) ≡ false
    → (fetch16 >=> λ d. return (seg, displaced base (sign16 d))) m ≡ fetched_ea mode base seg m
unfolding fetched_ea
fetched_word mode base seg m e = rw e refl

abbrev ended : ℕ → SegReg → Result (ℕ × Machine) → Result ((SegReg × ℕ) × Machine)
ended base seg r = elim r [ ok (d, n) ↦ ok ((seg, displaced base (sign16 d)), n) | err e ↦ err e ]

-- The short word path.
word_path :
    (m : Machine) (base : ℕ) (seg : SegReg)
    → m.mem.sel_base ≡ none
    → direct m.mem (first_address m) ≡ true
    → direct m.mem (second_address m) ≡ true
    → (on_mem (peek (first_address m)) >=> λ lo.
          on_mem (peek (second_address m))
          >=> word_end base seg (bit_and (bit_and m.regs.ip 0xffff + 2) 0xffff) lo)
        m
      ≡ (fetch16 >=> λ d. return (seg, displaced base (sign16 d))) m
word_path m base seg real near0 near1 =
    let ip1 = bit_and (bit_and m.regs.ip 0xffff + 1) 0xffff in
    let ip2 = bit_and (bit_and m.regs.ip 0xffff + 2) 0xffff in
    joined m (first_address m) (second_address m) ip1 ip2 base seg
    ∙ ap (ended base seg) (two_reads-short m real near0 near1 ∙ sym (fetch16-fetch8_pair m))

-- The effective address of a memory operand, whichever path decodes it, is the one that the
-- fetches give: the same segment and offset, the same IP, effects on the memory and failures.
pub decode_ea-fetches :
    (mode rm : ℕ) (seg_override : Option SegReg) (m : Machine)
    → decode_ea mode rm seg_override m ≡ plain_ea mode rm seg_override m
unfolding decode_ea plain_ea
decode_ea-fetches mode rm o m =
    let base = (base_of rm m.regs).0 in
    let seg = chosen o (base_of rm m.regs).1 in
    let a0 = first_address m in
    let a1 = second_address m in
    elim (Bool-cases (mode == 0 && rm == 6)) [
      | inl e ↦ rw e refl
      | inr e ↦ rw e (elim (Bool-cases (mode == 0)) [
        | inl z ↦ rw z refl
        | inr z ↦ rw z (
            by_mode m.mem.sel_base (fetched_ea mode base seg m) _ (λ real.
              elim (Bool-cases (direct m.mem a0 && (mode == 1))) [
                | inl c ↦ rw c (
                    byte_path m base seg real (ground arith)
                    ∙ fetched_byte mode base seg m (ground arith))
                | inr c ↦
                    rw c (elim (Bool-cases (direct m.mem a0 && (mode == 2) && direct m.mem a1)) [
                      | inl d ↦ rw d (
                          word_path m base seg real (ground arith) (ground arith)
                          ∙ fetched_word mode base seg m (ground arith))
                      | inr d ↦ rw d refl
                    ])
              ]))
      ])
    ]
