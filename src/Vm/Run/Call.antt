-- ===== src/Vm/Run/Call.antt =====
-- What a call leaves in memory (`opcode_assertions` and `run_instruction` of
-- starkware/cairo/lang/vm/vm_core.py).
use pip_cairo_lang.Prelude.{◌≡◌, refl, ap, subst, ◌∙◌, some, [], Bool-cases, inl, inr}
use pip_cairo_lang.Prelude.Int.{pos}
use pip_cairo_lang.Value.{MaybeRelocatable, int, eqb, eqb_iff}
use pip_cairo_lang.Result.{Error, Result, ok, err, call_return_pc, call_return_fp}
use pip_cairo_lang.Exec.Steps.{Returns}
use pip_cairo_lang.Relocatable.{add}
use pip_cairo_lang.MathUtils.{Gcdex}
use pip_cairo_lang.Instruction.{Opcode, Instruction, size}
use pip_cairo_lang.Memory.Dict.{lookup}
use pip_cairo_lang.Memory.{MemoryDict}
use pip_cairo_lang.Vm.State.{Vm, RunContext, Operands, memory_of}
use pip_cairo_lang.Vm.Addresses.{compute_dst_addr, compute_op0_addr}
use pip_cairo_lang.Vm.Holds.{Holds}
use pip_cairo_lang.Vm.Settled.{compute_operands-Settled}
use pip_cairo_lang.Vm.Run.{must_equal, check_call, assertion_of, opcode_assertions, run_instruction}
use pip_cairo_lang.Vm.Run.Success.{run_instruction-Ran}

pub must_equal-same :
    (a b : MaybeRelocatable) (e : Error) {u : Unit {0}} → must_equal a b e ≡ ok u → a ≡ b
must_equal-same a b e h = elim (Bool-cases (eqb a b)) [
  | inl t ↦ (eqb_iff a b).0 t
  | inr t ↦ absurd (cc (rw t at h))
]

-- The assertions of a call: op0 is the address after it, and dst is the frame of the caller.
call_asserted :
    (i : Instruction) (o : Operands) (c : RunContext) (return_pc : MaybeRelocatable)
    → i.opcode ≡ Opcode.call
    → add c.pc (int (pos (size i))) ≡ ok return_pc
    → opcode_assertions i o c ≡ ok tt
    → (o.op0 ≡ return_pc) × (o.dst ≡ c.fp)
unfolding opcode_assertions
call_asserted i o c return_pc call next h =
    let h1 : check_call c o (ok return_pc) ≡ ok tt =
      subst (λ (r : Result MaybeRelocatable). check_call c o r ≡ ok tt) next
        (subst (λ (op : Opcode). assertion_of op i o c ≡ ok tt) call h) in
    both (must_equal o.op0 return_pc call_return_pc) refl h1
  where
    both :
        (r : Result (Unit {0}))
        → must_equal o.op0 return_pc call_return_pc ≡ r
        → (elim r [ err e ↦ err e | ok _ ↦ must_equal o.dst c.fp call_return_fp ]) ≡ ok tt
        → (o.op0 ≡ return_pc) × (o.dst ≡ c.fp)
    both (err e) first h = absurd (cc h)
    both (ok u) first h =
        (must_equal-same _ _ call_return_pc first, must_equal-same _ _ call_return_fp h)

-- What a call has left in memory.
pub record Saved (c : RunContext) (i : Instruction) (return_pc : MaybeRelocatable) (t : Vm)
    : Type 0 where
  pub dst_addr : MaybeRelocatable
  pub op0_addr : MaybeRelocatable
  pub dst_at : compute_dst_addr c i ≡ ok dst_addr
  pub op0_at : compute_op0_addr c i ≡ ok op0_addr
  pub frame : Holds dst_addr c.fp t
  pub address : Holds op0_addr return_pc t

-- After a call that runs to its end, on a memory without relocation rules, the cell of dst has the
-- fp of the caller and the cell of op0 has the address after the call.
pub run_instruction-Saved :
    (igcdex : Gcdex) (i : Instruction) (s t : Vm) (return_pc : MaybeRelocatable)
    → i.opcode ≡ Opcode.call
    → (memory_of s).relocation_rules ≡ []
    → add s.run_context.pc (int (pos (size i))) ≡ ok return_pc
    → Returns (run_instruction igcdex i) s tt t
    → Saved s.run_context i return_pc t
run_instruction-Saved igcdex i s t return_pc call bare next h =
    let r = run_instruction-Ran igcdex i s t h in
    let settled =
      compute_operands-Settled igcdex i s r.found r.operands r.addresses bare r.computed in
    let (address, frame) =
      call_asserted i r.operands s.run_context return_pc call next r.asserted in
    record {
      dst_addr = settled.dst_addr;
      op0_addr = settled.op0_addr;
      dst_at = settled.dst_at;
      op0_at = settled.op0_at;
      frame = at_end settled.dst_addr r.found frame r.memory_found settled.dst;
      address = at_end settled.op0_addr r.found address r.memory_found settled.op0;
    }
  where
    at_end :
        {v w : MaybeRelocatable} (k : MaybeRelocatable) (found : Vm)
        → v ≡ w
        → memory_of t ≡ memory_of found
        → Holds k v found
        → Holds k w t
    at_end {v} {w} k found same memory h =
        ap (λ (m : MemoryDict). lookup k m.cells) memory ∙ (h ∙ ap some same)
