-- ===== src/Lift/Decode/Consumed.antt =====
-- `_modrm_disp_len` of dos_re/lift/decode.py against `decode_ea` of dos_re/cpu.py: the bytes that the
-- decoder counts are those that the interpreter fetches.
use dos_re.Prelude.{
  ℕ, ◌+◌, ◌/◌, ◌*◌, ◌^◌, ◌<◌, bit_and, bit_or, ◌==◌, Option, if◌then◌else◌, ◌≡◌, sym, ap, ◌∙◌,
  subst, arith, Bool-cases, inl, inr,
}
use dos_re.Prelude.Bits.{bit_and_mask}
use dos_re.Cpu.Regs.{SegReg, ds}
use dos_re.Memory.State.{Result, ok, err}
use dos_re.Cpu.Machine.{
  Machine, Exec, return, ◌>=>◌, on_mem, set_ip, code_byte, fetch8, fetch8_pair, fetch16,
}
use dos_re.Cpu.Machine.Fetch.{fetch16-fetch8_pair}
use dos_re.Cpu.Machine.Address.{sign8, sign16, base_of, chosen, displaced, fetched_ea, decode_ea}
use dos_re.Cpu.Machine.Address.Paths.{decode_ea-fetches, plain_ea}
use dos_re.Lift.Decode.{modrm_disp_len}
use dos_re.Lift.Decode.Extent.{further}

-- Where it succeeds, IP is k bytes further.
unfoldable pub Advanced : {A : Type 0} → ℕ → Machine → Result (A × Machine) → Type 0
Advanced k m (ok (a, n)) = n.regs.ip ≡ bit_and (m.regs.ip + k) 0xffff
Advanced k m (err e) = Unit

-- The last step of a fetch.
moved :
    (m : Machine) (k v : ℕ) (r : Result (ℕ × Machine))
    → v ≡ bit_and (m.regs.ip + k) 0xffff
    → Advanced k m (elim r [ ok (a, n) ↦ ok (a, set_ip v n) | err e ↦ err e ])
unfolding Advanced set_ip
moved m k v (ok (a, n)) h = h
moved m k v (err e) h = tt

-- A result computed from what has been fetched.
mapped :
    {A B : Type 0} (m : Machine) (k : ℕ) (r : Result (A × Machine)) (h : A → B)
    → Advanced k m r
    → Advanced k m (elim r [ ok (a, n) ↦ return (h a) n | err e ↦ err e ])
unfolding Advanced
mapped m k (ok (a, n)) h g = g
mapped m k (err e) h g = tt

chained :
    {A B : Type 0} (m : Machine) (j k : ℕ) (r : Result (A × Machine)) (g : A → Exec B)
    → Advanced j m r
    → ((a : A) (n : Machine) → Advanced k n (g a n))
    → Advanced (j + k) m (elim r [ ok (a, n) ↦ g a n | err e ↦ err e ])
unfolding Advanced
chained m j k (ok (a, n)) g first next = after_both m n j k (g a n) first (next a n)
  where
    after_both :
        {B : Type 0} (m n : Machine) (j k : ℕ) (r : Result (B × Machine))
        → n.regs.ip ≡ bit_and (m.regs.ip + j) 0xffff
        → Advanced k n r
        → Advanced (j + k) m r
    after_both m n j k (ok (b, p)) first next =
        next ∙ ap (λ t. bit_and (t + k) 0xffff) first ∙ further m.regs.ip j k
    after_both m n j k (err e) first next = tt
chained m j k (err e) g first next = tt

fetch8-Advanced : (m : Machine) → Advanced 1 m (fetch8 m)
unfolding fetch8
fetch8-Advanced m =
    moved m 1 (bit_and (bit_and m.regs.ip 0xffff + 1) 0xffff)
      (on_mem (code_byte m.regs (bit_and m.regs.ip 0xffff)) m)
      (omega (
        arith,
        bit_and_mask 16 m.regs.ip,
        bit_and_mask 16 (bit_and m.regs.ip 0xffff + 1),
        bit_and_mask 16 (m.regs.ip + 1),
      ))

fetch16-Advanced : (m : Machine) → Advanced 2 m (fetch16 m)
unfolding fetch8_pair
fetch16-Advanced m = subst (Advanced 2 m) (sym (fetch16-fetch8_pair m)) (
    chained m 1 1 (fetch8 m) (λ lo. fetch8 >=> λ hi. return (bit_or lo (hi * 2 ^ 8)))
      (fetch8-Advanced m)
      (λ lo n. mapped n 1 (fetch8 n) (λ hi. bit_or lo (hi * 2 ^ 8)) (fetch8-Advanced n)))

-- The displacement bytes of a mode below 3.
abbrev disp_bytes : ℕ → ℕ → ℕ
disp_bytes mode rm = if mode == 0 then (if rm == 6 then 2 else 0) else if mode == 1 then 1 else 2

plain_ea-Advanced :
    (mode rm : ℕ) (o : Option SegReg) (m : Machine)
    → m.regs.ip < 65536
    → Advanced (disp_bytes mode rm) m (plain_ea mode rm o m)
unfolding plain_ea fetched_ea Advanced
plain_ea-Advanced mode rm o m bound =
    let base = (base_of rm m.regs).0 in
    let seg = chosen o (base_of rm m.regs).1 in
    elim (Bool-cases (mode == 0)) [
      | inl z ↦ elim (Bool-cases (rm == 6)) [
        | inl six ↦
            rw (z, six)
              (mapped m 2 (fetch16 m) (λ disp. (chosen o ds, bit_and disp 0xffff))
                (fetch16-Advanced m))
        | inr other ↦ rw (z, other) (omega (arith, bit_and_mask 16 (m.regs.ip + 0)))
      ]
      | inr z ↦ elim (Bool-cases (mode == 1)) [
        | inl one ↦
            rw (z, one)
              (mapped m 1 (fetch8 m) (λ d. (seg, displaced base (sign8 d))) (fetch8-Advanced m))
        | inr two ↦
            rw (z, two)
              (mapped m 2 (fetch16 m) (λ d. (seg, displaced base (sign16 d))) (fetch16-Advanced m))
      ]
    ]

modrm_disp_len-mode :
    (modrm : ℕ) → modrm < 192 → disp_bytes (modrm / 2 ^ 6) (bit_and modrm 7) ≡ modrm_disp_len modrm
unfolding modrm_disp_len
modrm_disp_len-mode modrm h = ground arith

-- The effective address of a ModR/M byte that names memory takes as many code bytes from the
-- interpreter as the decoder counts for its displacement.
pub decode_ea-Advanced :
    (modrm : ℕ) (seg_override : Option SegReg) (m : Machine)
    → modrm < 192
    → m.regs.ip < 65536
    → Advanced (modrm_disp_len modrm) m (decode_ea (modrm / 2 ^ 6) (bit_and modrm 7) seg_override m)
decode_ea-Advanced modrm o m low bound =
    let mode = modrm / 2 ^ 6 in
    let rm = bit_and modrm 7 in
    subst (λ k. Advanced k m (decode_ea mode rm o m)) (modrm_disp_len-mode modrm low)
      (subst (Advanced (disp_bytes mode rm) m) (sym (decode_ea-fetches mode rm o m))
        (plain_ea-Advanced mode rm o m bound))
