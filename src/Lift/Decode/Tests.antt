-- ===== src/Lift/Decode/Tests.antt =====
-- Instructions decoded by dos_re/lift/decode.py.
use dos_re.Prelude.{true, ℕ, ◌-◌, some, none, [], ◌∷◌, get_or, ◌≡◌, ◌↔◌, refl, arith}
use dos_re.Prelude.Int.{◌+ℤ◌}
use dos_re.Lift.Decode.{is_prefix, decode_one, next_ip}
use dos_re.Lift.Decode.Table.{entry_of, unsupported, jmp_ind}
use dos_re.Lift.Decode.Complete.{entry_of-none_iff}
use dos_re.Lift.Decode.Whole.{Extent, decode_one-Extent}
use dos_re.Lift.Decode.Target.{Reaches, decode_one-Reaches}

-- `rep movsb`, a call back to the first byte, and an indirect jump.
abbrev code : ℕ → ℕ
code a = get_or (0xf3 ∷ 0xa4 ∷ 0xe8 ∷ 0xfb ∷ 0xff ∷ 0xff ∷ 0x65 ∷ 0xfe ∷ []) (a - 0x100) 0

call_back : (decode_one code 0x102).target ≡ some 0x100
unfolding decode_one ◌+ℤ◌ entry_of
call_back = refl

behind_call : next_ip (decode_one code 0x102) ≡ 0x105
unfolding next_ip decode_one ◌+ℤ◌ entry_of
behind_call = refl

rep_movsb : ((decode_one code 0x100).length ≡ 2) × ((decode_one code 0x100).prefixes ≡ 0xf3 ∷ [])
unfolding decode_one ◌+ℤ◌ entry_of
rep_movsb = (refl, refl)

indirect : ((decode_one code 0x105).kind ≡ jmp_ind) × ((decode_one code 0x105).length ≡ 3)
unfolding decode_one ◌+ℤ◌ entry_of
indirect = (refl, refl)

all_prefixes : (decode_one (λ a. 0x2e) 0).kind ≡ unsupported
unfolding decode_one ◌+ℤ◌ entry_of
all_prefixes = refl

entry_of-none_iff_example : (entry_of 0x26 ≡ none) ↔ (is_prefix 0x26 ≡ true)
entry_of-none_iff_example = entry_of-none_iff 0x26 (omega arith)

decode_one-Extent_example : Extent code 0x100 (decode_one code 0x100)
decode_one-Extent_example = decode_one-Extent code 0x100 (omega arith)

decode_one-Reaches_example : Reaches (decode_one code 0x102)
unfolding decode_one entry_of
decode_one-Reaches_example = decode_one-Reaches code 0x102 (omega arith) refl
