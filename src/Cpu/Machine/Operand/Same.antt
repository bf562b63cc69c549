-- ===== src/Cpu/Machine/Operand/Same.antt =====
-- `read_rm` and `write_rm` of dos_re/cpu.py against the operand that decode_rm_operand builds.
use dos_re.Prelude.{
  ℕ, Option, some, none, ◌==◌, get_elem?, ◌≡◌, refl, sym, ◌∙◌, inl, inr, Bool-cases,
}
use dos_re.Memory.State.{Result, ok, err, index_error}
use dos_re.Cpu.Regs.{SegReg, reg8_table, reg16_table, get_reg8, get_reg16, set_reg8, set_reg16}
use dos_re.Cpu.Machine.{Machine, Exec, return, ◌>=>◌}
use dos_re.Cpu.Machine.Address.{decode_ea}
use dos_re.Cpu.Machine.Operand.{
  Operand, reg_operand, item, read_reg, write_reg, read_mem, write_mem, read_operand, write_operand,
  new_reg_operand, new_mem_operand, decode_rm_operand, register_name, read_rm_register,
  read_rm_memory, read_rm, write_rm_register, write_rm_memory, write_rm,
}

abbrev looked_up : {A : Type 0} → Option A → Exec A
looked_up x m = elim x [ some y ↦ ok (y, m) | none ↦ err index_error ]

-- `read_rm` looks its register up for the value and then for the name, an operand for the name and
-- then for the value.
read_twice :
    {A B C : Type 0} (x : Option A) (b : B) (f : B → Exec C) (value : A → Machine → C) (m : Machine)
    → f b m ≡ (looked_up x >=> λ r n. ok (value r n, n)) m
    → ((looked_up x >=> λ r n. ok (value r n, n)) >=> λ v.
          (looked_up x >=> λ _. return tt) >=> λ (_ : Unit {0}). return v)
        m
      ≡ ((looked_up x >=> λ _. return b) >=> f) m
read_twice none b f value m h = refl
read_twice (some y) b f value m h = sym h

write_twice :
    {A B : Type 0} (x : Option A) (b : B) (f : B → Exec (Unit {0})) (after : A → Machine → Machine)
    (m : Machine)
    → f b m ≡ (looked_up x >=> λ r n. ok (tt, after r n)) m
    → (looked_up x >=> λ r n. (looked_up x >=> λ _. return tt) (after r n)) m
      ≡ ((looked_up x >=> λ _. return b) >=> f) m
write_twice none b f after m h = refl
write_twice (some y) b f after m h = sym h

assoc :
    {A B C : Type 0} (r : Result (A × Machine)) (start : Machine) (g : A → Exec B) (k : B → Exec C)
    → elim r [ ok (a, n) ↦ (g a >=> k) n | err e ↦ err e ]
      ≡ ((λ (m : Machine). elim r [ ok (a, n) ↦ g a n | err e ↦ err e ]) >=> k) start
assoc (ok (a, n)) start g k = refl
assoc (err e) start g k = refl

same_after :
    {A B : Type 0} (r : Result (A × Machine)) (g k : A → Exec B)
    → ((a : A) (n : Machine) → g a n ≡ k a n)
    → elim r [ ok (a, n) ↦ g a n | err e ↦ err e ] ≡ elim r [ ok (a, n) ↦ k a n | err e ↦ err e ]
same_after (ok (a, n)) g k h = h a n
same_after (err e) g k h = refl

-- What follows two Exec in a row follows the second.
bind_assoc :
    {A B C : Type 0} (f : Exec A) (g : A → Exec B) (k : B → Exec C) (m : Machine)
    → (f >=> λ a. g a >=> k) m ≡ ((f >=> g) >=> k) m
bind_assoc f g k m = assoc (f m) m g k

read_rm_register-new_reg_operand :
    (rm bits : ℕ) (m : Machine)
    → read_rm_register rm bits m ≡ (new_reg_operand rm bits >=> read_operand) m
unfolding read_rm_register register_name new_reg_operand read_operand read_reg item
read_rm_register-new_reg_operand rm bits m =
    let o = reg_operand rm bits in
    elim (Bool-cases (bits == 8)) [
      | inl e ↦ rw e (
          read_twice (get_elem? reg8_table rm) o read_operand (λ r n. get_reg8 r n.regs) m
            (rw e refl))
      | inr e ↦ rw e (
          read_twice (get_elem? reg16_table rm) o read_operand (λ r n. get_reg16 r n.regs) m
            (rw e refl))
    ]

write_rm_register-new_reg_operand :
    (rm bits value : ℕ) (m : Machine)
    → write_rm_register rm bits value m ≡ (new_reg_operand rm bits >=> λ o. write_operand o value) m
unfolding write_rm_register new_reg_operand write_operand write_reg item
write_rm_register-new_reg_operand rm bits value m =
    let o = reg_operand rm bits in
    let put : Operand → Exec (Unit {0}) = λ o. write_operand o value in
    elim (Bool-cases (bits == 8)) [
      | inl e ↦ rw e (
          write_twice (get_elem? reg8_table rm) o put
            (λ r n. record n { regs = set_reg8 r value n.regs }) m (rw e refl))
      | inr e ↦ rw e (
          write_twice (get_elem? reg16_table rm) o put
            (λ r n. record n { regs = set_reg16 r value n.regs }) m (rw e refl))
    ]

-- Two continuations that agree everywhere.
then_same :
    {A B : Type 0} (f : Exec A) (g k : A → Exec B) (m : Machine)
    → ((a : A) (n : Machine) → g a n ≡ k a n)
    → (f >=> g) m ≡ (f >=> k) m
then_same f g k m h = same_after (f m) g k h

-- The place in memory, at the width of the operand.
read_rm_memory-new_mem_operand :
    (bits : ℕ) (ea : SegReg × ℕ) (m : Machine)
    → read_rm_memory bits ea m ≡ (new_mem_operand bits ea >=> read_operand) m
unfolding read_rm_memory new_mem_operand read_operand read_mem
read_rm_memory-new_mem_operand bits (seg, offset) m = refl

write_rm_memory-new_mem_operand :
    (bits value : ℕ) (ea : SegReg × ℕ) (m : Machine)
    → write_rm_memory bits value ea m ≡ (new_mem_operand bits ea >=> λ o. write_operand o value) m
unfolding write_rm_memory new_mem_operand write_operand write_mem
write_rm_memory-new_mem_operand bits value (seg, offset) m = refl

-- To read or to write an r/m operand at once is to decode it, and then to read or write what was
-- decoded: value, registers, effects on the memory and failures.
pub rm-decode_rm_operand :
    (mode rm bits value : ℕ) (seg_override : Option SegReg) (m : Machine)
    → (read_rm mode rm bits seg_override m
        ≡ (decode_rm_operand mode rm bits seg_override >=> read_operand) m)
      × (write_rm mode rm bits value seg_override m
          ≡ (decode_rm_operand mode rm bits seg_override >=> λ o. write_operand o value) m)
unfolding read_rm write_rm decode_rm_operand
rm-decode_rm_operand mode rm bits value seg_override m =
    let ea = decode_ea mode rm seg_override in
    let make = new_mem_operand bits in
    elim (Bool-cases (mode == 3)) [
      | inl e ↦ (
        rw e (read_rm_register-new_reg_operand rm bits m),
        rw e (write_rm_register-new_reg_operand rm bits value m),
      )
      | inr e ↦ (
        rw e (
            then_same ea (read_rm_memory bits) (λ a. make a >=> read_operand) m
              (read_rm_memory-new_mem_operand bits)
            ∙ bind_assoc ea make read_operand m),
        rw e (
            then_same ea (write_rm_memory bits value) (λ a. make a >=> λ o. write_operand o value) m
              (write_rm_memory-new_mem_operand bits value)
            ∙ bind_assoc ea make (λ o. write_operand o value) m),
      )
    ]
