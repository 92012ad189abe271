-- ===== src/Vm/Settled.antt =====
-- The operands of an instruction are the values of their cells (`compute_operands` of
-- starkware/cairo/lang/vm/vm_core.py).
use pip_cairo_lang.Prelude.{◌≡◌, sym, ap, subst, ◌∙◌, Option, some, List, [], ◌∷◌}
use pip_cairo_lang.Value.{MaybeRelocatable}
use pip_cairo_lang.Result.{ok}
use pip_cairo_lang.Exec.Steps.{Returns}
use pip_cairo_lang.MathUtils.{Gcdex}
use pip_cairo_lang.Instruction.{Instruction}
use pip_cairo_lang.Vm.Addresses.{compute_dst_addr, compute_op0_addr, compute_op1_addr}
use pip_cairo_lang.Vm.State.{RunContext, Vm, Operands, memory_of}
use pip_cairo_lang.Vm.Deduction.{Deduced}
use pip_cairo_lang.Vm.Operands.{
  or_res, or_compute, or_read, deduce_first, deduce_second, deduce_dst, update_if_missing,
  compute_operands,
}
use pip_cairo_lang.Vm.Fills.{
  Fills, fills, or_option-Fills, or_read-Fills, deduce_first-Fills, deduce_second-Fills,
  or_compute-Fills, deduce_dst-Fills, update_if_missing-Fills, deduce_memory_cell-Fills,
}
use pip_cairo_lang.Vm.Stages.{compute_operands-Stages}
use pip_cairo_lang.Vm.Holds.{
  moved, ◌>>>◌, Holds, kept, update_if_missing-Holds, get-Holds, known_cell-Holds,
  deduce_first-known, deduce_second-known, deduce_dst-known, or_option-known, or_read-known,
  carried,
}

-- What is known of an operand is what is taken for it.
abbrev Taken : Option MaybeRelocatable → MaybeRelocatable → Type 0
Taken o value = (v : MaybeRelocatable) → o ≡ some v → value ≡ v

-- From the cells that are known to the operands: nothing known is replaced.
record Resolved (dst_cell op0_cell op1_cell : Option MaybeRelocatable)
    (dst_value op0_value op1_value : MaybeRelocatable) (s t : Vm) : Type 0 where
  moves : Fills s t
  dst : Taken dst_cell dst_value
  op0 : Taken op0_cell op0_value
  op1 : Taken op1_cell op1_value

module _ (igcdex : Gcdex) (i : Instruction) (dst op0_known op1_known : Option MaybeRelocatable)
    (dst_addr op0_addr op1_addr : MaybeRelocatable) where
  resolved :
      {s2 s3 s4 s5 s6 s7 s8 s9 : Vm} (first second : Deduced) (op0 op1 : MaybeRelocatable)
      (res dst_deduced : Option MaybeRelocatable) (dst_value : MaybeRelocatable)
      → Returns (deduce_first igcdex i dst op0_known op1_known) s2 first s3
      → Returns (deduce_second igcdex i dst first.0 op1_known) s3 second s4
      → Returns (or_read first.0 op0_addr) s4 op0 s5
      → Returns (or_read second.0 op1_addr) s5 op1 s6
      → Returns (or_compute (or_res first.1 second.1) i op0 op1) s6 res s7
      → Returns (deduce_dst dst i res) s7 dst_deduced s8
      → Returns (or_read dst_deduced dst_addr) s8 dst_value s9
      → Resolved dst op0_known op1_known dst_value op0 op1 s2 s9
  resolved {s2} {s3} {s4} {s5} {s6} {s7} {s8} {s9} first second op0 op1 res dst_deduced dst_value h9
        h10 h11 h12 h13 h14 h15 =
      record {
        moves =
            moved _ s2 (deduce_first-Fills igcdex i dst op0_known op1_known) h9
            >>> moved _ s3 (deduce_second-Fills igcdex i dst first.0 op1_known) h10
            >>> moved _ s4 (or_read-Fills first.0 op0_addr) h11
            >>> moved _ s5 (or_read-Fills second.0 op1_addr) h12
            >>> moved _ s6 (or_compute-Fills _ i op0 op1) h13
            >>> moved _ s7 (deduce_dst-Fills dst i res) h14
            >>> moved _ s8 (or_read-Fills dst_deduced dst_addr) h15;
        dst = λ v e.
            or_read-known dst_deduced dst_addr v s8 s9 (deduce_dst-known i dst res v s7 s8 e h14)
              h15;
        op0 = λ v e.
            or_read-known first.0 op0_addr v s4 s5
              (deduce_first-known igcdex i dst op0_known op1_known v s2 s3 e h9) h11;
        op1 = λ v e.
            or_read-known second.0 op1_addr v s5 s6
              (deduce_second-known igcdex i dst first.0 op1_known v s3 s4 e h10) h12;
      }

  -- The writes at the end: what was known is in memory, and what was not is written.
  written :
      (s9 s10 s11 s12 : Vm) (dst_value op0 op1 : MaybeRelocatable)
      → ((v : MaybeRelocatable) → dst ≡ some v → Holds dst_addr dst_value s9)
      → ((v : MaybeRelocatable) → op0_known ≡ some v → Holds op0_addr op0 s9)
      → ((v : MaybeRelocatable) → op1_known ≡ some v → Holds op1_addr op1 s9)
      → Returns (update_if_missing dst dst_addr dst_value) s9 tt s10
      → Returns (update_if_missing op0_known op0_addr op0) s10 tt s11
      → Returns (update_if_missing op1_known op1_addr op1) s11 tt s12
      → Holds dst_addr dst_value s12 × Holds op0_addr op0 s12 × Holds op1_addr op1 s12
  written s9 s10 s11 s12 dst_value op0 op1 kd k0 k1 h16 h17 h18 =
      let m10 = moved _ s9 (update_if_missing-Fills dst dst_addr dst_value) h16 in
      let m11 = moved _ s10 (update_if_missing-Fills op0_known op0_addr op0) h17 in
      let m12 = moved _ s11 (update_if_missing-Fills op1_known op1_addr op1) h18 in
      (
        kept dst_addr dst_value (m11 >>> m12)
            (update_if_missing-Holds dst dst_addr dst_value s9 s10 kd h16),
        kept op0_addr op0 m12 (
            update_if_missing-Holds op0_known op0_addr op0 s10 s11
              (λ v e. kept op0_addr op0 m10 (k0 v e)) h17),
        update_if_missing-Holds op1_known op1_addr op1 s11 s12
            (λ v e. kept op1_addr op1 (m10 >>> m11) (k1 v e)) h18,
      )

-- The three operands, at their addresses.
pub record Settled (c : RunContext) (i : Instruction) (o : Operands)
    (addresses : List MaybeRelocatable) (s : Vm) : Type 0 where
  pub dst_addr : MaybeRelocatable
  pub op0_addr : MaybeRelocatable
  pub op1_addr : MaybeRelocatable
  pub listed : addresses ≡ dst_addr ∷ op0_addr ∷ op1_addr ∷ []
  pub dst_at : compute_dst_addr c i ≡ ok dst_addr
  pub op0_at : compute_op0_addr c i ≡ ok op0_addr
  pub op1_at :
      (op0_cell : Option MaybeRelocatable) × (compute_op1_addr c i op0_cell ≡ ok op1_addr)
      × ((v : MaybeRelocatable) → op0_cell ≡ some v → o.op0 ≡ v)
  pub dst : Holds dst_addr o.dst s
  pub op0 : Holds op0_addr o.op0 s
  pub op1 : Holds op1_addr o.op1 s

-- Where the memory has no relocation rules and the operands of an instruction are found, the
-- addresses are those that the instruction says of the registers, and each operand is the value
-- that its address has in memory afterwards, whether it was read, deduced from the other operands
-- or from a builtin's rule, or implied by the opcode.
pub compute_operands-Settled :
    (igcdex : Gcdex) (i : Instruction) (s t : Vm) (o : Operands) (addresses : List MaybeRelocatable)
    → (memory_of s).relocation_rules ≡ []
    → Returns (compute_operands igcdex i) s (o, addresses) t
    → Settled s.run_context i o addresses t
compute_operands-Settled igcdex i s t o addresses bare h =
    let g = compute_operands-Stages igcdex i s t o addresses h in
    let m1 =
      moved _ s (or_option-Fills g.op0_cell _ (deduce_memory_cell-Fills g.op0_addr)) g.op0_rules in
    let m2 =
      moved _ g.s1 (or_option-Fills g.op1_cell _ (deduce_memory_cell-Fills g.op1_addr))
        g.op1_rules in
    let r =
      resolved igcdex i g.dst g.op0_known g.op1_known g.dst_addr g.op0_addr g.op1_addr g.first
        g.second g.op0 g.op1 g.res g.dst_deduced g.dst_value g.first_at g.second_at g.op0_value
        g.op1_value g.res_value g.dst_implied g.dst_taken in
    let (at_dst, at_op0, at_op1) =
      written igcdex i g.dst g.op0_known g.op1_known g.dst_addr g.op0_addr g.op1_addr g.s9 g.s10
        g.s11 t g.dst_value g.op0 g.op1
        (carried g.dst_addr (m1 >>> m2 >>> r.moves)
          (λ v e. get-Holds (memory_of s) g.dst_addr v bare (g.dst_read ∙ ap ok e)) r.dst)
        (carried g.op0_addr (m2 >>> r.moves)
          (known_cell-Holds g.op0_cell g.op0_known g.op0_addr s s g.s1 bare g.op0_read
            (fills.refl s) g.op0_rules)
          r.op0)
        (carried g.op1_addr r.moves
          (known_cell-Holds g.op1_cell g.op1_known g.op1_addr s g.s1 g.s2 bare g.op1_read m1
            g.op1_rules)
          r.op1)
        g.dst_write g.op0_write g.op1_write in
    let found : Settled s.run_context i
        (record { dst = g.dst_value; res = g.res; op0 = g.op0; op1 = g.op1 }) addresses t =
      record {
        dst_addr = g.dst_addr;
        op0_addr = g.op0_addr;
        op1_addr = g.op1_addr;
        listed = g.listed;
        dst_at = g.dst_at;
        op0_at = g.op0_at;
        op1_at = (
          g.op0_cell,
          g.op1_at,
          λ v e. r.op0 v (or_option-known g.op0_cell _ v s g.s1 e g.op0_rules),
        );
        dst = at_dst;
        op0 = at_op0;
        op1 = at_op1;
      } in
    subst (λ (q : Operands). Settled s.run_context i q addresses t) (sym g.operands) found
