-- ===== src/Cpu/Machine/Interrupt.antt =====
-- Hardware interrupt entry of dos_re/cpu.py, and the IRET that ends a handler.
use dos_re.Prelude.{
  subst, ℕ, ◌+◌, ◌-◌, ◌*◌, ◌%◌, ◌^◌, ◌<◌, bit_and, bit_or, false, truthy, ltb, if◌then◌else◌, ◌≡◌,
  refl, sym, ap, ◌∙◌, arith, inl,
}
use dos_re.Prelude.Bits.{bit, bit_and_mask}
use dos_re.Cpu.Flags.Chain.{bit-set_flag, get_flag-bit}
use dos_re.X86.{CpuState, if_flag, tf}
use dos_re.Cpu.Flags.{set_flag, get_flag}
use dos_re.Memory.State.{ok}
use dos_re.Memory.Access
use dos_re.Memory.Access.Word.{
  PlainWord, PlainWord-stored, HoldsWord, HoldsWord-apart, rw-HoldsWord,
}
use dos_re.Cpu.Machine.{
  Machine, Exec, ◌>=>◌, on_mem, set_sp, push, pop, enter_handler, enter_hardware_interrupt, iret,
}
use dos_re.Cpu.Machine.Stack.{then-ok, on_mem-ok, below, below-above, push-HoldsWord, pop-HoldsWord}

-- The vector of an IRQ line.
abbrev pub vector_of : ℕ → ℕ
vector_of irq = if ltb irq 8 then 0x08 + irq else 0x70 + irq - 8

-- Three words of ordinary RAM under the stack pointer, apart from each other, and a vector at v
-- and v' that names the handler.
pub record Ready (m : Machine) (irq a b c v v' seg off : ℕ) : Type 0 where
  pub small : m.regs.sp < 65536
  pub first : PlainWord m.mem m.regs.ss (below m.regs.sp) a
  pub second : PlainWord m.mem m.regs.ss (below (below m.regs.sp)) b
  pub third : PlainWord m.mem m.regs.ss (below (below (below m.regs.sp))) c
  pub apart : (b + 1 < a) × (c + 1 < b)
  pub vector : PlainWord m.mem 0 (vector_of irq * 4) v
  pub vector' : PlainWord m.mem 0 (vector_of irq * 4 + 2) v'
  pub handler_off : HoldsWord m.mem v off
  pub handler_seg : HoldsWord m.mem v' seg

-- The machine with its stack pointer and its cells replaced.
at_stack : Machine → ℕ → (ℕ → ℕ) → Machine
at_stack m sp cells = record m {
  regs = record (m.regs) { sp = sp };
  mem = record (m.mem) { cells = cells };
}

abbrev push_flags : Exec (Unit {0})
push_flags n = push n.regs.flags n

abbrev push_cs : Exec (Unit {0})
push_cs n = push (bit_and n.regs.cs 0xffff) n

abbrev push_ip : Exec (Unit {0})
push_ip n = push (bit_and n.regs.ip 0xffff) n

-- What the three pushes leave.
record Pushed (m : Machine) (a b c : ℕ) (cells : ℕ → ℕ) : Type 0 where
  pub pushes :
      (k : Unit {0} → Exec (Unit {0}))
      → (push_flags >=> λ _. push_cs >=> λ _. push_ip >=> k) m
        ≡ k tt (at_stack m (below (below (below m.regs.sp))) cells)
  pub flags_at : HoldsWord (record (m.mem) { cells = cells }) a (m.regs.flags % 65536)
  pub cs_at : HoldsWord (record (m.mem) { cells = cells }) b (m.regs.cs % 65536)
  pub ip_at : HoldsWord (record (m.mem) { cells = cells }) c (m.regs.ip % 65536)

cut : (x : ℕ) → bit_and x 0xffff % 65536 ≡ x % 65536
cut x = omega (arith, bit_and_mask 16 x)

pushed :
    (m : Machine) (a b c : ℕ)
    → PlainWord m.mem m.regs.ss (below m.regs.sp) a
    → PlainWord m.mem m.regs.ss (below (below m.regs.sp)) b
    → PlainWord m.mem m.regs.ss (below (below (below m.regs.sp))) c
    → b + 1 < a
    → c + 1 < b
    → (cells : ℕ → ℕ) × Pushed m a b c cells
unfolding at_stack
pushed m a b c pa pb pc ba cb =
    let w1 = push-HoldsWord m a m.regs.flags pa in
    let m1 = at_stack m (below m.regs.sp) w1.0 in
    let w2 = push-HoldsWord m1 b (bit_and m.regs.cs 0xffff) (PlainWord-stored w1.0 pb) in
    let m2 = at_stack m (below (below m.regs.sp)) w2.0 in
    let w3 = push-HoldsWord m2 c (bit_and m.regs.ip 0xffff) (PlainWord-stored w2.0 pc) in
    let a2 = HoldsWord-apart m1.mem m2.mem b a (m.regs.flags % 65536) w2.3 (inl ba) w1.2 in
    (
      w3.0,
      record {
        pushes = λ k.
            then-ok push_flags (λ _. push_cs >=> λ _. push_ip >=> k) m w1.1
            ∙ then-ok push_cs (λ _. push_ip >=> k) m1 w2.1
            ∙ then-ok push_ip k m2 w3.1;
        flags_at =
            HoldsWord-apart m2.mem (record (m2.mem) { cells = w3.0 }) c a (m.regs.flags % 65536)
              w3.3 (inl (omega arith)) a2;
        cs_at =
            HoldsWord-apart m2.mem (record (m2.mem) { cells = w3.0 }) c b (m.regs.cs % 65536) w3.3
              (inl cb) (subst (HoldsWord m2.mem b) (cut m.regs.cs) w2.2);
        ip_at = subst (HoldsWord (record (m2.mem) { cells = w3.0 }) c) (cut m.regs.ip) w3.2;
      },
    )

-- A pop from where a push has been.
pop-below :
    (m : Machine) (sp a v : ℕ)
    → sp < 65536
    → m.regs.sp ≡ below sp
    → PlainWord m.mem m.regs.ss (below sp) a
    → HoldsWord m.mem a v
    → pop m ≡ ok (v, set_sp sp m)
unfolding set_sp
pop-below m sp a v small at c h =
    let here : PlainWord m.mem m.regs.ss m.regs.sp a =
      subst (λ o. PlainWord m.mem m.regs.ss o a) (sym at) c in
    pop-HoldsWord m a v here h
    ∙ ap (λ t. ok (v, record m { regs = record (m.regs) { sp = t } }))
        (ap (λ t. bit_and (t + 2) 0xffff) at ∙ below-above sp small)

below-small : (sp : ℕ) → below sp < 65536
below-small sp = omega (arith, bit_and_mask 16 (sp + 0xfffe))

-- The registers that IRET restores: the old ones, with three of them cut to 16 bits.
pub returned : CpuState → ℕ → CpuState
returned s sp = record s {
  sp = sp;
  flags = bit_or (s.flags % 65536) 0x0002;
  ip = s.ip % 65536;
  cs = s.cs % 65536;
}

-- IF and TF are clear at the handler.
cleared :
    (f : ℕ)
    → (get_flag if_flag (set_flag tf false (set_flag if_flag false f)) ≡ false)
      × (get_flag tf (set_flag tf false (set_flag if_flag false f)) ≡ false)
cleared f =
    let g = set_flag if_flag false f in
    let own : bit 9 f - bit 9 if_flag ≡ 0 = unfold bit in omega arith in
    let other : bit 9 0x0002 ≡ 0 = unfold bit in refl in
    let low : (bit 8 g - bit 8 tf ≡ 0) × (bit 8 0x0002 ≡ 0) = unfold bit in (omega arith, refl) in
    let down : bit 9 (set_flag tf false g) ≡ 0 =
      omega (arith, bit-set_flag 9 tf g false, bit-set_flag 9 if_flag f false, own, other) in
    let off : bit 8 (set_flag tf false g) ≡ 0 =
      omega (arith, bit-set_flag 8 tf g false, low.0, low.1) in
    (
      get_flag-bit 9 (set_flag tf false g) ∙ ap (λ t. truthy (t * 2 ^ 9)) down,
      get_flag-bit 8 (set_flag tf false g) ∙ ap (λ t. truthy (t * 2 ^ 8)) off,
    )

-- IRET on a machine whose stack holds the three words.
iret-returns :
    (m : Machine) (sp a b c : ℕ) (ip cs flags : ℕ)
    → sp < 65536
    → m.regs.sp ≡ below (below (below sp))
    → PlainWord m.mem m.regs.ss (below sp) a
    → PlainWord m.mem m.regs.ss (below (below sp)) b
    → PlainWord m.mem m.regs.ss (below (below (below sp))) c
    → HoldsWord m.mem a flags
    → HoldsWord m.mem b cs
    → HoldsWord m.mem c ip
    → iret m
      ≡ ok (
        tt,
        record m {
          regs = record (m.regs) { sp = sp; flags = bit_or flags 0x0002; ip = ip; cs = cs };
        },
      )
unfolding iret set_sp
iret-returns m sp a b c ip cs flags small at pa pb pc ha hb hc =
    let m1 = set_sp (below (below sp)) m in
    let m2 = set_sp (below sp) m in
    let finish : ℕ → ℕ → ℕ → Exec (Unit {0}) = λ target_ip target_cs popped m. ok (
      tt,
      record m {
        regs = record (m.regs) { flags = bit_or popped 0x0002; ip = target_ip; cs = target_cs };
      },
    ) in
    then-ok pop (λ target_ip. pop >=> λ target_cs. pop >=> finish target_ip target_cs) m
      (pop-below m (below (below sp)) c ip (below-small (below sp)) at pc hc)
    ∙ then-ok pop (λ target_cs. pop >=> finish ip target_cs) m1
        (pop-below m1 (below sp) b cs (below-small sp) refl pb hb)
    ∙ then-ok pop (finish ip cs) m2 (pop-below m2 sp a flags small refl pa ha)

-- A hardware interrupt, on a machine whose stack and vector are in ordinary RAM, succeeds: control
-- is at the vector's handler with IF and TF clear. IRET at that point succeeds too, and restores
-- CS, IP and FLAGS (with its reserved bit set), each cut to 16 bits, and every other register, SP
-- included.
pub enter_hardware_interrupt-iret :
    (m : Machine) (irq a b c v v' seg off : ℕ)
    → Ready m irq a b c v v' seg off
    → (n r : Machine) × (enter_hardware_interrupt irq m ≡ ok (tt, n))
      × (n.regs.cs ≡ seg % 65536)
      × (n.regs.ip ≡ off % 65536)
      × (get_flag if_flag n.regs.flags ≡ false)
      × (get_flag tf n.regs.flags ≡ false)
      × (iret n ≡ ok (tt, r))
      × (r.regs ≡ returned m.regs m.regs.sp)
unfolding at_stack enter_handler returned enter_hardware_interrupt
enter_hardware_interrupt-iret m irq a b c v v' seg off h =
    let p = pushed m a b c h.first h.second h.third h.apart.0 h.apart.1 in
    let stacked = at_stack m (below (below (below m.regs.sp))) p.0 in
    let n = enter_handler seg off stacked in
    let vec = vector_of irq in
    let handle : ℕ → ℕ → Exec (Unit {0}) = λ off seg.
      push_flags >=> λ _. push_cs >=> λ _. push_ip >=> λ _ m. ok (tt, enter_handler seg off m) in
    let clear = cleared m.regs.flags in
    (
      n,
      record stacked { regs = returned m.regs m.regs.sp },
      then-ok (on_mem (Access.rw 0 (vec * 4)))
            (λ off. on_mem (Access.rw 0 (vec * 4 + 2)) >=> λ seg. handle off seg) m
            (on_mem-ok (Access.rw 0 (vec * 4)) m
              (rw-HoldsWord m.mem 0 (vec * 4) v off h.vector h.handler_off))
          ∙ then-ok (on_mem (Access.rw 0 (vec * 4 + 2))) (λ seg. handle off seg) m
              (on_mem-ok (Access.rw 0 (vec * 4 + 2)) m
                (rw-HoldsWord m.mem 0 (vec * 4 + 2) v' seg h.vector' h.handler_seg))
          ∙ p.1.pushes (λ _ m. ok (tt, enter_handler seg off m)),
      bit_and_mask 16 seg,
      bit_and_mask 16 off,
      clear.0,
      clear.1,
      iret-returns n m.regs.sp a b c (m.regs.ip % 65536) (m.regs.cs % 65536) (m.regs.flags % 65536)
          h.small refl (PlainWord-stored p.0 h.first) (PlainWord-stored p.0 h.second)
          (PlainWord-stored p.0 h.third) p.1.flags_at p.1.cs_at p.1.ip_at,
      refl,
    )
