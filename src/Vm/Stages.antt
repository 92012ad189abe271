-- ===== src/Vm/Stages.antt =====
-- The stages of `compute_operands` of starkware/cairo/lang/vm/vm_core.py, where it returns.
use pip_cairo_lang.Prelude
use pip_cairo_lang.Prelude.{◌≡◌, refl, sym, subst, Option, List, [], ◌∷◌}
use pip_cairo_lang.Value.{MaybeRelocatable}
use pip_cairo_lang.Result.{ok}
use pip_cairo_lang.Exec.Steps.{Returns, run_elim, asks_elim, pure-Returns}
use pip_cairo_lang.MathUtils.{Gcdex}
use pip_cairo_lang.Instruction.{Instruction}
use pip_cairo_lang.Memory.{get}
use pip_cairo_lang.Vm.State.{Vm, Operands, memory_of, deduce_memory_cell}
use pip_cairo_lang.Vm.Addresses.{compute_dst_addr, compute_op0_addr, compute_op1_addr}
use pip_cairo_lang.Vm.Deduction.{Deduced}
use pip_cairo_lang.Vm.Operands.{
  or_option, or_read, or_res, deduce_first, deduce_second, or_compute, deduce_dst,
  update_if_missing, compute_operands,
}

-- What each stage returns, and the states between them.
pub record Stages (igcdex : Gcdex) (i : Instruction) (s : Vm) (o : Operands)
    (addresses : List MaybeRelocatable) (t : Vm) : Type 0 where
  pub dst_addr : MaybeRelocatable
  pub op0_addr : MaybeRelocatable
  pub op1_addr : MaybeRelocatable
  pub dst : Option MaybeRelocatable
  pub op0_cell : Option MaybeRelocatable
  pub op1_cell : Option MaybeRelocatable
  pub op0_known : Option MaybeRelocatable
  pub op1_known : Option MaybeRelocatable
  pub first : Deduced
  pub second : Deduced
  pub op0 : MaybeRelocatable
  pub op1 : MaybeRelocatable
  pub res : Option MaybeRelocatable
  pub dst_deduced : Option MaybeRelocatable
  pub dst_value : MaybeRelocatable
  pub s1 : Vm
  pub s2 : Vm
  pub s3 : Vm
  pub s4 : Vm
  pub s5 : Vm
  pub s6 : Vm
  pub s7 : Vm
  pub s8 : Vm
  pub s9 : Vm
  pub s10 : Vm
  pub s11 : Vm
  pub dst_at : compute_dst_addr s.run_context i ≡ ok dst_addr
  pub dst_read : get (memory_of s) dst_addr ≡ ok dst
  pub op0_at : compute_op0_addr s.run_context i ≡ ok op0_addr
  pub op0_read : get (memory_of s) op0_addr ≡ ok op0_cell
  pub op1_at : compute_op1_addr s.run_context i op0_cell ≡ ok op1_addr
  pub op1_read : get (memory_of s) op1_addr ≡ ok op1_cell
  pub op0_rules : Returns (or_option op0_cell (deduce_memory_cell op0_addr)) s op0_known s1
  pub op1_rules : Returns (or_option op1_cell (deduce_memory_cell op1_addr)) s1 op1_known s2
  pub first_at : Returns (deduce_first igcdex i dst op0_known op1_known) s2 first s3
  pub second_at : Returns (deduce_second igcdex i dst first.0 op1_known) s3 second s4
  pub op0_value : Returns (or_read first.0 op0_addr) s4 op0 s5
  pub op1_value : Returns (or_read second.0 op1_addr) s5 op1 s6
  pub res_value : Returns (or_compute (or_res first.1 second.1) i op0 op1) s6 res s7
  pub dst_implied : Returns (deduce_dst dst i res) s7 dst_deduced s8
  pub dst_taken : Returns (or_read dst_deduced dst_addr) s8 dst_value s9
  pub dst_write : Returns (update_if_missing dst dst_addr dst_value) s9 tt s10
  pub op0_write : Returns (update_if_missing op0_known op0_addr op0) s10 tt s11
  pub op1_write : Returns (update_if_missing op1_known op1_addr op1) s11 tt t
  pub operands : o ≡ record { dst = dst_value; res = res; op0 = op0; op1 = op1 }
  pub listed : addresses ≡ dst_addr ∷ op0_addr ∷ op1_addr ∷ []

pub compute_operands-Stages :
    (igcdex : Gcdex) (i : Instruction) (s t : Vm) (o : Operands) (addresses : List MaybeRelocatable)
    → Returns (compute_operands igcdex i) s (o, addresses) t
    → Stages igcdex i s o addresses t
unfolding compute_operands
compute_operands-Stages igcdex i s t o addresses h = asks_elim _ _ s h λ dst_addr h1 k1.
    asks_elim _ _ s k1 λ dst h2 k2. asks_elim _ _ s k2 λ op0_addr h3 k3.
      asks_elim _ _ s k3 λ op0_cell h4 k4. asks_elim _ _ s k4 λ op1_addr h5 k5.
        asks_elim _ _ s k5 λ op1_cell h6 k6.
          run_elim (or_option op0_cell (deduce_memory_cell op0_addr)) _ s k6 λ op0_known s1 h7 k7.
            run_elim (or_option op1_cell (deduce_memory_cell op1_addr)) _ s1 k7
              λ op1_known s2 h8 k8. run_elim _ _ s2 k8 λ first s3 h9 k9.
                run_elim _ _ s3 k9 λ second s4 h10 k10. run_elim _ _ s4 k10 λ op0 s5 h11 k11.
                  run_elim _ _ s5 k11 λ op1 s6 h12 k12. run_elim _ _ s6 k12 λ res s7 h13 k13.
                    run_elim _ _ s7 k13 λ dst_deduced s8 h14 k14.
                      run_elim _ _ s8 k14 λ dst_value s9 h15 k15.
                        run_elim _ _ s9 k15 λ u1 s10 h16 k16. run_elim _ _ s10 k16 λ u2 s11 h17 k17.
                          run_elim _ _ s11 k17 λ u3 s12 h18 k18.
                            let (pair, end) = pure-Returns _ s12 k18 in
                            record {
                              dst_addr = dst_addr;
                              op0_addr = op0_addr;
                              op1_addr = op1_addr;
                              dst = dst;
                              op0_cell = op0_cell;
                              op1_cell = op1_cell;
                              op0_known = op0_known;
                              op1_known = op1_known;
                              first = first;
                              second = second;
                              op0 = op0;
                              op1 = op1;
                              res = res;
                              dst_deduced = dst_deduced;
                              dst_value = dst_value;
                              s1 = s1;
                              s2 = s2;
                              s3 = s3;
                              s4 = s4;
                              s5 = s5;
                              s6 = s6;
                              s7 = s7;
                              s8 = s8;
                              s9 = s9;
                              s10 = s10;
                              s11 = s11;
                              dst_at = h1;
                              dst_read = h2;
                              op0_at = h3;
                              op0_read = h4;
                              op1_at = h5;
                              op1_read = h6;
                              op0_rules = h7;
                              op1_rules = h8;
                              first_at = h9;
                              second_at = h10;
                              op0_value = h11;
                              op1_value = h12;
                              res_value = h13;
                              dst_implied = h14;
                              dst_taken = h15;
                              dst_write = h16;
                              op0_write = h17;
                              op1_write =
                                  subst
                                    (λ (z : Vm).
                                      Returns (update_if_missing op1_known op1_addr op1) s11 tt z)
                                    (sym end) h18;
                              operands =
                                  sym (
                                    Prelude.ap (λ (q : Operands × List MaybeRelocatable). q.0)
                                      pair);
                              listed =
                                  sym (
                                    Prelude.ap (λ (q : Operands × List MaybeRelocatable). q.1)
                                      pair);
                            }
