-- ===== src/Cpu/Strings/Loop.antt =====
-- The loop of `string_op` of dos_re/cpu.py for STOS and MOVS on ordinary ranges, as one slice.
use dos_re.Prelude.{
  ℕ, zero, suc, ◌+◌, ◌*◌, ◌%◌, ◌<◌, ◌≤◌, false, ◌||◌, Option, some, none, length, if◌then◌else◌,
  ◌≡◌, refl, sym, ap, ap₂, ◌∙◌, arith, inl, inr, ◌⊎◌,
}
use dos_re.Prelude.Int.{pos, negsuc}
use dos_re.X86.{CpuState}
use dos_re.Cpu.Regs.{SegReg, es, cs, ss, ds}
use dos_re.Memory.State.{ok, bios_rom_base}
use dos_re.Memory.Block.{store_slice, load_slice, repeated}
use dos_re.Memory.Block.Range.{Contiguous, Contiguous-stored}
use dos_re.Cpu.Machine.{Machine, Exec, ◌>=>◌, on_mem}
use dos_re.Cpu.Machine.Stack.{then-ok, on_mem-ok}
use dos_re.Cpu.Machine.Address.{displaced}
use dos_re.Cpu.Machine.Address.Signed.{positive}
use dos_re.Cpu.Strings.{
  Host, move_di, move_si, source_segment, get, put, stos, movs, is_cmps, is_scas, element,
  count_down, stops, loop, fill_pattern,
}
use dos_re.Cpu.Strings.Bulk.{
  ByteOrWord, value_at, store_slice-append, load_slice-add, get-value_at, put-fill_pattern,
  fill_pattern-value_at, length-load_slice, store_loaded-bytes, unread,
}
use dos_re.Cpu.Strings.Ends.{displaced-one}

same_source :
    (seg : Option SegReg) (s : CpuState) (x y z : ℕ)
    → source_segment seg (record s { si = x; di = y; cx = z }) ≡ source_segment seg s
unfolding source_segment
same_source none s x y z = refl
same_source (some es) s x y z = refl
same_source (some cs) s x y z = refl
same_source (some ss) s x y z = refl
same_source (some ds) s x y z = refl

-- A pointer after so many elements.
unfoldable pub advanced : ℕ → ℕ → ℕ → ℕ
advanced zero w x = x
advanced (suc c) w x = advanced c w (displaced x (pos w))

never_stops :
    (op prefix : ℕ) (s : CpuState)
    → (is_cmps op || is_scas op) ≡ false
    → stops op (some prefix) s ≡ false
unfolding stops
never_stops op prefix s plain = rw plain refl

-- The slice that one element and the rest copy together.
copied_on :
    (cells : ℕ → ℕ) (src dst k w left n : ℕ)
    → (dst ≤ src) ⊎ (src + n ≤ dst)
    → k + suc left * w ≡ n
    → store_slice (store_slice cells (dst + k) (load_slice cells (src + k) w)) (dst + (k + w)) (
        load_slice
          (store_slice cells (dst + k) (load_slice cells (src + k) w))
          (src + (k + w))
          (left * w))
      ≡ store_slice cells (dst + k) (load_slice cells (src + k) (suc left * w))
copied_on cells src dst k w left n apart len =
    let vs = load_slice cells (src + k) w in
    let out = store_slice cells (dst + k) vs in
    let r = left * w in
    let to : dst + (k + w) ≡ dst + k + length vs =
      omega (arith, length-load_slice cells (src + k) w) in
    let from : src + (k + w) ≡ src + k + w = omega arith in
    let whole : w + r ≡ suc left * w = omega arith in
    ap₂ (λ p q. store_slice out p (load_slice out q r)) to from
    ∙ ap (store_slice out (dst + k + length vs))
        (unread cells src dst k w r n apart (omega (arith, len)))
    ∙ sym (store_slice-append cells (dst + k) vs (load_slice cells (src + k + w) r))
    ∙ ap (store_slice cells (dst + k)) (sym (load_slice-add cells (src + k) w r))
    ∙ ap (λ t. store_slice cells (dst + k) (load_slice cells (src + k) t)) whole

module _ (host : Host) (op prefix : ℕ) (seg : Option SegReg) (w : ℕ) (size : ByteOrWord w)
    (plain : (is_cmps op || is_scas op) ≡ false) where
  -- One round of the loop.
  loop_round :
      (count : ℕ) (m n : Machine)
      → element host op seg w (pos w) m ≡ ok (tt, n)
      → loop host op (some prefix) seg w (pos w) (suc count) m
        ≡ loop host op (some prefix) seg w (pos w) count (count_down (some prefix) n)
  unfolding loop
  loop_round count m n e =
      let more : Exec (Unit {0}) = loop host op (some prefix) seg w (pos w) count in
      then-ok (element host op seg w (pos w))
        (λ _ n.
          if stops op (some prefix) (count_down (some prefix) n).regs
          then ok (tt, count_down (some prefix) n)
          else more (count_down (some prefix) n))
        m e
      ∙ ap
          (λ b.
            if b then ok (tt, count_down (some prefix) n) else more (count_down (some prefix) n))
          (never_stops op prefix (count_down (some prefix) n).regs plain)

  -- The machine after the loop of STOS.
  abbrev pub stored : ℕ → ℕ → Machine → Machine
  stored left b m = record {
    regs = record (m.regs) { di = advanced left w m.regs.di; cx = 0 };
    mem = record (m.mem) {
      cells = store_slice m.mem.cells b (repeated (fill_pattern w m.regs.ax) left);
    };
  }

  pub length-fill_pattern : (v : ℕ) → length (fill_pattern w v) ≡ w
  unfolding fill_pattern
  length-fill_pattern v = elim size [ inl e ↦ rw e refl | inr e ↦ rw e refl ]

  -- The address after one more element.
  next_place : (left k n : ℕ) → k + suc left * w ≡ n → k + w + left * w ≡ n
  next_place left k n h = omega arith

  pub loop-stos :
      (off n a k left : ℕ) (m : Machine)
      → element host op seg w (pos w) ≡ stos w (pos w)
      → m.mem.sel_base ≡ none
      → m.mem.watched ≡ false
      → Contiguous m.mem m.regs.es off n a
      → a + n ≤ bios_rom_base
      → k + left * w ≡ n
      → m.regs.di % 65536 ≡ (off % 65536 + k) % 65536
      → m.regs.cx ≡ left
      → left < 65536
      → loop host op (some prefix) seg w (pos w) left m ≡ ok (tt, stored left (a + k) m)
  unfolding loop advanced repeated store_slice stos move_di count_down
  loop-stos off n a k zero m kind real quiet c ram len at cx small =
      ap (λ x. ok (tt, record m { regs = record (m.regs) { cx = x } })) cx
  loop-stos off n a k (suc left) m kind real quiet c ram len at cx small =
      let pattern = fill_pattern w m.regs.ax in
      let cells = store_slice m.mem.cells (a + k) pattern in
      let next : Machine = record {
        regs = record (m.regs) {
          di = displaced m.regs.di (pos w);
          cx = displaced m.regs.cx (negsuc 0);
        };
        mem = record (m.mem) { cells = cells };
      } in
      let written =
        put-fill_pattern m.mem w m.regs.es off n a k m.regs.di m.regs.ax size real quiet c ram
          (omega (arith, len)) at in
      let one =
        ap (λ (f : Exec (Unit {0})). f m) kind
        ∙ then-ok (λ m. on_mem (put w m.regs.es m.regs.di m.regs.ax) m)
            (λ _ t. ok (tt, move_di (pos w) t)) m
            (on_mem-ok (put w m.regs.es m.regs.di m.regs.ax) m written) in
      let counted : next.regs.cx ≡ left =
        ap (λ x. displaced x (negsuc 0)) cx ∙ displaced-one left ∙ omega arith in
      let moved : next.regs.di % 65536 ≡ (off % 65536 + (k + w)) % 65536 =
        omega (arith, positive m.regs.di w, at) in
      loop_round left m (move_di (pos w) (record m { mem = record (m.mem) { cells = cells } })) one
      ∙ loop-stos off n a (k + w) left next kind real quiet (Contiguous-stored cells c) ram
          (omega (arith, len)) moved counted (omega arith)
      ∙ ap
          (λ x. ok (
            tt,
            record {
              regs = record (m.regs) { di = advanced left w (displaced m.regs.di (pos w)); cx = 0 };
              mem = record (m.mem) { cells = x };
            },
          ))
          (ap (λ b. store_slice cells b (repeated pattern left))
              (omega (arith, length-fill_pattern m.regs.ax))
            ∙ sym (store_slice-append m.mem.cells (a + k) pattern (repeated pattern left)))

  -- The machine after the loop of MOVS.
  abbrev pub transferred : ℕ → ℕ → ℕ → Machine → Machine
  transferred left s d m = record {
    regs = record (m.regs) {
      si = advanced left w m.regs.si;
      di = advanced left w m.regs.di;
      cx = 0;
    };
    mem = record (m.mem) {
      cells = store_slice m.mem.cells d (load_slice m.mem.cells s (left * w));
    };
  }

  pub loop-movs :
      (from off_s off_d n src dst k left : ℕ) (m : Machine)
      → element host op seg w (pos w) ≡ movs seg w (pos w)
      → source_segment seg m.regs ≡ from
      → m.mem.sel_base ≡ none
      → m.mem.watched ≡ false
      → ((x : ℕ) → m.mem.cells x < 256)
      → Contiguous m.mem from off_s n src
      → Contiguous m.mem m.regs.es off_d n dst
      → dst + n ≤ bios_rom_base
      → (dst ≤ src) ⊎ (src + n ≤ dst)
      → k + left * w ≡ n
      → m.regs.si % 65536 ≡ (off_s % 65536 + k) % 65536
      → m.regs.di % 65536 ≡ (off_d % 65536 + k) % 65536
      → m.regs.cx ≡ left
      → left < 65536
      → loop host op (some prefix) seg w (pos w) left m
        ≡ ok (tt, transferred left (src + k) (dst + k) m)
  unfolding loop advanced load_slice store_slice movs move_di move_si count_down
  loop-movs from so dof n src dst k zero m kind seg_is real quiet bytes c_s c_d ram apart len at_s
        at_d cx small =
      let nothing : 0 ≡ zero * w = omega arith in
      ap (λ x. ok (tt, record m { regs = record (m.regs) { cx = x } })) cx
      ∙ ap
          (λ t. ok (
            tt,
            record {
              regs = record (m.regs) { cx = 0 };
              mem = record (m.mem) {
                cells = store_slice m.mem.cells (dst + k) (load_slice m.mem.cells (src + k) t);
              };
            },
          ))
          nothing
  loop-movs from so dof n src dst k (suc left) m kind seg_is real quiet bytes c_s c_d ram apart len
        at_s at_d cx small =
      let v = value_at w m.mem.cells (src + k) in
      let vs = load_slice m.mem.cells (src + k) w in
      let cells = store_slice m.mem.cells (dst + k) vs in
      let next : Machine = record {
        regs = record (m.regs) {
          si = displaced m.regs.si (pos w);
          di = displaced m.regs.di (pos w);
          cx = displaced m.regs.cx (negsuc 0);
        };
        mem = record (m.mem) { cells = cells };
      } in
      let read =
        ap (λ s. get w s m.regs.si m.mem) seg_is
        ∙ get-value_at m.mem w from so n src k m.regs.si size real c_s (omega (arith, len)) at_s in
      let written =
        put-fill_pattern m.mem w m.regs.es dof n dst k m.regs.di v size real quiet c_d ram
          (omega (arith, len)) at_d
        ∙ ap (λ t. ok (tt, record (m.mem) { cells = store_slice m.mem.cells (dst + k) t }))
            (fill_pattern-value_at w m.mem.cells (src + k) size bytes) in
      let after = record m { mem = record (m.mem) { cells = cells } } in
      let one =
        ap (λ (f : Exec (Unit {0})). f m) kind
        ∙ then-ok (λ m. on_mem (get w (source_segment seg m.regs) m.regs.si) m)
            (λ x. (λ m. on_mem (put w m.regs.es m.regs.di x) m) >=> λ _ t.
              ok (tt, move_di (pos w) (move_si (pos w) t)))
            m (on_mem-ok (get w (source_segment seg m.regs) m.regs.si) m read)
        ∙ then-ok (λ m. on_mem (put w m.regs.es m.regs.di v) m)
            (λ _ t. ok (tt, move_di (pos w) (move_si (pos w) t))) m
            (on_mem-ok (put w m.regs.es m.regs.di v) m written) in
      let counted : next.regs.cx ≡ left =
        ap (λ x. displaced x (negsuc 0)) cx ∙ displaced-one left ∙ omega arith in
      let moved_s : next.regs.si % 65536 ≡ (so % 65536 + (k + w)) % 65536 =
        omega (arith, positive m.regs.si w, at_s) in
      let moved_d : next.regs.di % 65536 ≡ (dof % 65536 + (k + w)) % 65536 =
        omega (arith, positive m.regs.di w, at_d) in
      let r = left * w in
      loop_round left m (move_di (pos w) (move_si (pos w) after)) one
      ∙ loop-movs from so dof n src dst (k + w) left next kind
          (same_source seg m.regs next.regs.si next.regs.di next.regs.cx ∙ seg_is) real quiet
          (store_loaded-bytes m.mem.cells m.mem.cells (dst + k) (src + k) w bytes bytes)
          (Contiguous-stored cells c_s) (Contiguous-stored cells c_d) ram apart (omega (arith, len))
          moved_s moved_d counted (omega arith)
      ∙ ap
          (λ x. ok (
            tt,
            record {
              regs = record (m.regs) {
                si = advanced left w (displaced m.regs.si (pos w));
                di = advanced left w (displaced m.regs.di (pos w));
                cx = 0;
              };
              mem = record (m.mem) { cells = x };
            },
          ))
          (copied_on m.mem.cells src dst k w left n apart len)
