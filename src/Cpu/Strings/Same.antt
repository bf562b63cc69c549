-- ===== src/Cpu/Strings/Same.antt =====
-- `string_op` of dos_re/cpu.py is its loop, whether it takes the bulk path or not.
use dos_re.Prelude.{
  ℕ, zero, suc, ◌+◌, ◌*◌, ◌<◌, ◌≤◌, true, false, not, ◌||◌, ◌&&◌, ◌==◌, ltb, Option, some, length,
  ◌≡◌, refl, sym, ap, ap₂, ◌∙◌, subst, arith, le→ltb, ltb→lt, Bool-cases, inl, inr, ◌⊎◌,
}
use dos_re.Prelude.Int.{ℤ, pos}
use dos_re.X86.{df}
use dos_re.Cpu.Flags.{get_flag}
use dos_re.Cpu.Regs.{SegReg}
use dos_re.Memory.State.{HoldsBytes, ok}
use dos_re.Memory.Block.{
  ordinary_real_mode_range, unobserved, store_slice, load_slice, repeated, overlaps_forward,
  try_forward_bulk_fill, try_forward_bulk_copy,
}
use dos_re.Memory.Block.Range.{ordinary_real_mode_range-Contiguous}
use dos_re.Memory.Block.Store.{unobserved_lem}
use dos_re.Cpu.Machine.{Machine, Exec, on_mem}
use dos_re.Cpu.Strings.{
  Host, source_segment, stos, movs, is_cmps, is_scas, element, loop, fill_pattern, filled, copied,
  bulk, string_op, width_of, delta_of,
}
use dos_re.Cpu.Strings.Ends.{fill_pattern-some}
use dos_re.Cpu.Strings.Bulk.{ByteOrWord}
use dos_re.Cpu.Strings.Loop.{advanced, loop-stos, loop-movs, length-fill_pattern}
use dos_re.Cpu.Strings.Fast.{
  advanced-suc, width_of-ByteOrWord, Agrees, settled, fill-FillAnswer, copy-CopyAnswer, fill-Agrees,
  copy-Agrees,
}

some_bytes : (x y : ℕ) → 0 < x → 0 < suc y * x
some_bytes x y h = omega arith

some_elements : (x y : ℕ) → 0 < x → 0 < x * suc y
some_elements x y h = omega arith

-- The opcodes of STOS and MOVS.
two_ops : (op x y : ℕ) → (op == x || op == y) ≡ true → (op ≡ x) ⊎ (op ≡ y)
two_ops op x y h = ground arith

element-stos :
    (host : Host) (op : ℕ) (seg : Option SegReg) (w : ℕ) (delta : ℤ)
    → (op == 0xaa || op == 0xab) ≡ true
    → (element host op seg w delta ≡ stos w delta) × ((is_cmps op || is_scas op) ≡ false)
unfolding element is_cmps is_scas
element-stos host op seg w delta h = elim (two_ops op 0xaa 0xab h) [
  | inl e ↦ rw e (refl, refl)
  | inr e ↦ rw e (refl, refl)
]

element-movs :
    (host : Host) (op : ℕ) (seg : Option SegReg) (w : ℕ) (delta : ℤ)
    → (op == 0xa4 || op == 0xa5) ≡ true
    → (element host op seg w delta ≡ movs seg w delta) × ((is_cmps op || is_scas op) ≡ false)
unfolding element is_cmps is_scas
element-movs host op seg w delta h = elim (two_ops op 0xa4 0xa5 h) [
  | inl e ↦ rw e (refl, refl)
  | inr e ↦ rw e (refl, refl)
]

module _ (host : Host) (op prefix : ℕ) (seg : Option SegReg) (w : ℕ) (size : ByteOrWord w) where
  abbrev whole : ℕ → Exec (Unit {0})
  whole count = loop host op (some prefix) seg w (pos w) count

  -- The loop of STOS over an ordinary range, in the words of the bulk path.
  stos_range :
      (m : Machine) (count a : ℕ)
      → (op == 0xaa || op == 0xab) ≡ true
      → m.regs.cx ≡ suc count
      → suc count < 65536
      → unobserved m.mem ≡ true
      → ordinary_real_mode_range m.mem m.regs.es m.regs.di
          (length (fill_pattern w m.regs.ax) * suc count)
          true
        ≡ some a
      → whole (suc count) m
        ≡ ok (
          tt,
          filled (suc count * w) (record m {
            mem = record (m.mem) {
              cells = store_slice m.mem.cells a (repeated (fill_pattern w m.regs.ax) (suc count));
            };
          }),
        )
  unfolding filled
  stos_range m count a is_stos cx small plain range =
      let kind = element-stos host op seg w (pos w) is_stos in
      let u = unobserved_lem m.mem plain in
      let n = length (fill_pattern w m.regs.ax) * suc count in
      let long = length-fill_pattern host op prefix seg w size kind.1 m.regs.ax in
      let c = ordinary_real_mode_range-Contiguous m.mem m.regs.es m.regs.di n a true range in
      let total : 0 + suc count * w ≡ n = omega (arith, ap (λ t. t * suc count) long) in
      loop-stos host op prefix seg w size kind.1 m.regs.di n a 0 (suc count) m kind.0 u.0 u.1 c.0
        (ground (arith, c.1)) total (omega arith) cx small
      ∙ ap₂
          (λ p q. ok (
            tt,
            record {
              regs = record (m.regs) { di = p; cx = 0 };
              mem = record (m.mem) {
                cells = store_slice m.mem.cells q (repeated (fill_pattern w m.regs.ax) (suc count));
              };
            },
          ))
          (advanced-suc count w m.regs.di) (omega arith)

  -- The loop of MOVS over ordinary ranges that do not overlap forward.
  movs_range :
      (m : Machine) (count src dst : ℕ)
      → (op == 0xa4 || op == 0xa5) ≡ true
      → HoldsBytes m.mem
      → m.regs.cx ≡ suc count
      → suc count < 65536
      → unobserved m.mem ≡ true
      → ordinary_real_mode_range m.mem (source_segment seg m.regs) m.regs.si (suc count * w) false
        ≡ some src
      → ordinary_real_mode_range m.mem m.regs.es m.regs.di (suc count * w) true ≡ some dst
      → overlaps_forward src dst (suc count * w) ≡ false
      → whole (suc count) m
        ≡ ok (
          tt,
          copied (suc count * w) (record m {
            mem = record (m.mem) {
              cells = store_slice m.mem.cells dst (load_slice m.mem.cells src (suc count * w));
            };
          }),
        )
  unfolding copied HoldsBytes overlaps_forward
  movs_range m count src dst is_movs bytes cx small plain read write clear =
      let kind = element-movs host op seg w (pos w) is_movs in
      let u = unobserved_lem m.mem plain in
      let n = suc count * w in
      let from = source_segment seg m.regs in
      let c_s = ordinary_real_mode_range-Contiguous m.mem from m.regs.si n src false read in
      let c_d = ordinary_real_mode_range-Contiguous m.mem m.regs.es m.regs.di n dst true write in
      let apart : (dst ≤ src) ⊎ (src + n ≤ dst) = ground arith in
      loop-movs host op prefix seg w size kind.1 from m.regs.si m.regs.di n src dst 0 (suc count) m
        kind.0 refl u.0 u.1 bytes c_s.0 c_d.0 (ground (arith, c_d.1)) apart (omega arith)
        (omega arith) (omega arith) cx small
      ∙ ap
          (λ q. ok (
            tt,
            record {
              regs = record (m.regs) {
                si = advanced (suc count) w m.regs.si;
                di = advanced (suc count) w m.regs.di;
                cx = 0;
              };
              mem = record (m.mem) { cells = q };
            },
          ))
          (ap₂ (λ x y. store_slice m.mem.cells x (load_slice m.mem.cells y n)) (omega arith)
            (omega arith))
      ∙ ap₂
          (λ p q. ok (
            tt,
            record {
              regs = record (m.regs) { si = p; di = q; cx = 0 };
              mem = record (m.mem) {
                cells = store_slice m.mem.cells dst (load_slice m.mem.cells src n);
              };
            },
          ))
          (advanced-suc count w m.regs.si) (advanced-suc count w m.regs.di)

  -- Where the bulk path answers, it answers as the loop.
  bulk-Agrees :
      (m : Machine) (count : ℕ)
      → HoldsBytes m.mem
      → m.regs.cx ≡ suc count
      → suc count < 65536
      → Agrees (whole (suc count)) m (bulk op seg w (suc count) m)
  unfolding bulk Agrees on_mem
  bulk-Agrees m count bytes cx small =
      let from = source_segment seg m.regs in
      let n = suc count * w in
      elim (Bool-cases (op == 0xaa || op == 0xab)) [
        | inl is_stos ↦ rw is_stos (
            fill-Agrees (whole (suc count)) m w (suc count)
              (try_forward_bulk_fill m.regs.es m.regs.di (fill_pattern w m.regs.ax) (suc count)
                m.mem)
              (fill-FillAnswer m.mem m.regs.es m.regs.di (fill_pattern w m.regs.ax) (suc count)
                (fill_pattern-some w m.regs.ax)
                (some_elements (length (fill_pattern w m.regs.ax)) count
                  (fill_pattern-some w m.regs.ax)))
              (λ a plain range. stos_range m count a is_stos cx small plain range))
        | inr other ↦ elim (Bool-cases (op == 0xa4 || op == 0xa5)) [
          | inl is_movs ↦
              rw (other, is_movs)
                (copy-Agrees (whole (suc count)) m from n
                  (try_forward_bulk_copy from m.regs.si m.regs.es m.regs.di n m.mem)
                  (copy-CopyAnswer m.mem from m.regs.si m.regs.es m.regs.di n
                    (some_bytes w count (elim size [ inl e ↦ omega arith | inr e ↦ omega arith ])))
                  (λ src dst plain read write clear.
                    movs_range m count src dst is_movs bytes cx small plain read write clear))
          | inr neither ↦ rw (other, neither) refl
        ]
      ]

counted : (count : ℕ) → 8 < count → (c : ℕ) × (count ≡ suc c)
counted zero h = absurd (omega arith)
counted (suc c) h = (c, refl)

-- On a memory of bytes a repeated string instruction is its element loop, in registers, memory,
-- reports and failures, whether or not the bulk path is taken; the count is at most the limit.
pub string_op-loop :
    (host : Host) (op prefix : ℕ) (seg : Option SegReg) (m : Machine)
    → HoldsBytes m.mem
    → m.regs.cx < 65536
    → m.regs.cx ≤ host.max_rep_count
    → string_op host op (some prefix) seg m
      ≡ loop host op (some prefix) seg (width_of op) (delta_of (width_of op) m.regs) m.regs.cx m
unfolding string_op delta_of
string_op-loop host op prefix seg m bytes small within =
    let w = width_of op in
    let count = m.regs.cx in
    let allowed : ltb host.max_rep_count count ≡ false = le→ltb host.max_rep_count count within in
    rw allowed (elim (Bool-cases (ltb 8 count && not (get_flag df m.regs.flags))) [
      | inr slow ↦ rw slow refl
      | inl fast ↦
          let forward : get_flag df m.regs.flags ≡ false = ground arith in
          let many : ltb 8 count ≡ true = ground arith in
          let some_c = counted count (ltb→lt 8 count many) in
          let agree =
            subst (λ t. Agrees (loop host op (some prefix) seg w (pos w) t) m (bulk op seg w t m))
              (sym some_c.1)
              (bulk-Agrees host op prefix seg w (width_of-ByteOrWord op) m some_c.0 bytes some_c.1
                (omega (arith, some_c.1))) in
          rw (forward, many)
            (settled (loop host op (some prefix) seg w (pos w) count) m (bulk op seg w count m)
              agree)
    ])
