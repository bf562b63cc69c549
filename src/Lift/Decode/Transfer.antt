-- ===== src/Lift/Decode/Transfer.antt =====
-- Where the near transfers that `decode_one` of dos_re/lift/decode.py recognises go.
use dos_re.Prelude.{
  ℕ, ◌+◌, ◌-◌, ◌*◌, ◌^◌, ◌<◌, ◌≤◌, bit_and, bit_or, truthy, get_or, leb, if◌then◌else◌, ◌≡◌, sym,
  ap, ap₂, ◌∙◌, arith,
}
use dos_re.Prelude.Int.{pos, sub_ℕ}
use dos_re.Prelude.Bits.{bit_and_mask, or_fields, or_comm}
use dos_re.Cpu.Alu.Word.{truthy_sign}
use dos_re.Cpu.Machine.Address.{sign8, sign16}
use dos_re.Lift.Decode.{byte_at, word_of, raw_bytes, from_end, relative}
use dos_re.Lift.Decode.Extent.{length-raw_bytes, get_or-raw_bytes, further}

pub byte_at-lt : (fetch : ℕ → ℕ) (at : ℕ) → byte_at fetch at < 256
unfolding byte_at
byte_at-lt fetch at = omega (arith, bit_and_mask 8 (fetch at))

word_of-lt : (fetch : ℕ → ℕ) (at : ℕ) → word_of fetch at < 65536
unfolding word_of
word_of-lt fetch at =
    let lo = byte_at fetch at in
    let hi = byte_at fetch (bit_and (at + 1) 0xffff) in
    omega (
      arith,
      or_comm lo (hi * 2 ^ 8),
      or_fields 8 hi lo (byte_at-lt fetch at),
      byte_at-lt fetch at,
      byte_at-lt fetch (bit_and (at + 1) 0xffff),
    )

-- The byte k from the end of the bytes of an instruction.
from_end-raw_bytes :
    (fetch : ℕ → ℕ) (ip n k : ℕ)
    → 1 ≤ k
    → k ≤ n
    → from_end (raw_bytes fetch ip 0 n) k ≡ byte_at fetch (bit_and (ip + (n - k)) 0xffff)
unfolding from_end
from_end-raw_bytes fetch ip n k h g =
    ap (λ l. get_or (raw_bytes fetch ip 0 n) (l - k) 0) (length-raw_bytes fetch ip 0 n)
    ∙ get_or-raw_bytes fetch ip 0 n (n - k) (omega arith)
    ∙ ap (λ j. byte_at fetch (bit_and (ip + j) 0xffff)) (omega arith)

signed :
    (d half w : ℕ)
    → truthy (bit_and d half) ≡ leb half d
    → (if leb half d then sub_ℕ d w else pos d)
      ≡ (if truthy (bit_and d half) then sub_ℕ d w else pos d)
signed d half w h = ap (λ b. if b then sub_ℕ d w else pos d) (sym h)

-- The operand of a short transfer, from the end of the bytes and from its place.
pub relative-byte :
    (fetch : ℕ → ℕ) (ip s : ℕ)
    → relative (raw_bytes fetch ip 0 (s + 1)) 1 ≡ sign8 (byte_at fetch (bit_and (ip + s) 0xffff))
unfolding relative sign8
relative-byte fetch ip s =
    let d = byte_at fetch (bit_and (ip + s) 0xffff) in
    let last : from_end (raw_bytes fetch ip 0 (s + 1)) 1 ≡ d =
      from_end-raw_bytes fetch ip (s + 1) 1 (omega arith) (omega arith)
      ∙ ap (λ j. byte_at fetch (bit_and (ip + j) 0xffff)) (omega arith) in
    ap (λ (t : ℕ). if leb 0x80 t then sub_ℕ t 0x100 else pos t) last
    ∙ signed d 0x80 0x100 (truthy_sign 7 d (byte_at-lt fetch (bit_and (ip + s) 0xffff)))

-- The same for a word.
pub relative-word :
    (fetch : ℕ → ℕ) (ip s : ℕ)
    → relative (raw_bytes fetch ip 0 (s + 2)) 2 ≡ sign16 (word_of fetch (bit_and (ip + s) 0xffff))
unfolding relative sign16 word_of
relative-word fetch ip s =
    let at = bit_and (ip + s) 0xffff in
    let raw = raw_bytes fetch ip 0 (s + 2) in
    let low : from_end raw 2 ≡ byte_at fetch at =
      from_end-raw_bytes fetch ip (s + 2) 2 (omega arith) (omega arith)
      ∙ ap (λ j. byte_at fetch (bit_and (ip + j) 0xffff)) (omega arith) in
    let high : from_end raw 1 ≡ byte_at fetch (bit_and (at + 1) 0xffff) =
      from_end-raw_bytes fetch ip (s + 2) 1 (omega arith) (omega arith)
      ∙ ap (byte_at fetch)
          (ap (λ j. bit_and (ip + j) 0xffff) (omega arith) ∙ sym (further ip s 1)) in
    ap₂
      (λ (l h : ℕ).
        if leb 0x8000 (bit_or l (h * 2 ^ 8))
        then sub_ℕ (bit_or l (h * 2 ^ 8)) 0x10000
        else pos (bit_or l (h * 2 ^ 8)))
      low high
    ∙ signed (word_of fetch at) 0x8000 0x10000
        (truthy_sign 15 (word_of fetch at) (word_of-lt fetch at))
