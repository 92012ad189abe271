-- ===== src/Compiler/Meaning/Return.antt =====
-- A call and the return from it (`_build_call_instruction` and `_build_ret_instruction` of
-- starkware/cairo/lang/compiler/instruction_builder.py, `run_instruction` of
-- starkware/cairo/lang/vm/vm_core.py).
use pip_cairo_lang.Prelude.{
  ℕ, ◌<◌, ◌≡◌, refl, sym, ap, ◌∙◌, Bool, Option, none, some, some-injective, [],
}
use pip_cairo_lang.Prelude.Int.{ℤ, pos, negsuc, ◌+ℤ◌, int_laws}
use pip_cairo_lang.Value.{MaybeRelocatable, int, relocatable}
use pip_cairo_lang.Result.{ok, bind_elim, ok-injective}
use pip_cairo_lang.Exec.Steps.{Returns}
use pip_cairo_lang.Relocatable.{add, mod_prime}
use pip_cairo_lang.MathUtils.{Gcdex, IsBezout}
use pip_cairo_lang.Instruction.{Res, PcUpdate, FpUpdate, Opcode, Instruction, size}
use pip_cairo_lang.Memory.{MemoryDict}
use pip_cairo_lang.Memory.Dict.{lookup}
use pip_cairo_lang.Memory.WriteOnce.{Writes, here, next, set_item-Wrote, Writes-keeps}
use pip_cairo_lang.Vm.State.{RunContext, Vm, memory_of}
use pip_cairo_lang.Vm.Addresses.{displace, compute_dst_addr, compute_op0_addr, compute_op1_addr}
use pip_cairo_lang.Vm.Registers.{required, next_fp, next_pc}
use pip_cairo_lang.Vm.Deduction.Agrees.{Agrees}
use pip_cairo_lang.Vm.ResValue.{compute_operands-Agrees}
use pip_cairo_lang.Vm.Settled.{compute_operands-Settled}
use pip_cairo_lang.Vm.Holds.{Holds}
use pip_cairo_lang.Vm.Run.{run_instruction}
use pip_cairo_lang.Vm.Run.Success.{run_instruction-Ran}
use pip_cairo_lang.Vm.Run.Call.{run_instruction-Saved}
use pip_cairo_lang.Compiler.Expr.{Expr}
use pip_cairo_lang.Compiler.Builder.{parse_target, refuse, build_call, build_ret}

-- What a call that has been built does with the frame.
record IsCall (i : Instruction) : Type 0 where
  opcode : i.opcode ≡ Opcode.call
  new_fp : i.fp_update ≡ FpUpdate.ap_plus2
  dst : (c : RunContext) → compute_dst_addr c i ≡ displace c.ap (pos 0) c.prime
  op0 : (c : RunContext) → compute_op0_addr c i ≡ displace c.ap (pos 1) c.prime

build_call-IsCall :
    (val : Expr) (relative inc_ap : Bool) (i : Instruction)
    → build_call val relative inc_ap ≡ ok i
    → IsCall i
unfolding build_call compute_dst_addr compute_op0_addr
build_call-IsCall val relative inc_ap i h = bind_elim (parse_target val _) _ h λ d hd h1.
    bind_elim (refuse inc_ap _) _ h1 λ u hu h2.
      rw (← ok-injective h2)
        (record { opcode = refl; new_fp = refl; dst = λ c. refl; op0 = λ c. refl })

-- What a return that has been built does.
record IsRet (r : Instruction) : Type 0 where
  new_fp : r.fp_update ≡ FpUpdate.dst
  new_pc : r.pc_update ≡ PcUpdate.jump
  res : r.res ≡ Res.op1
  dst : (c : RunContext) → compute_dst_addr c r ≡ displace c.fp (negsuc 1) c.prime
  op1 :
      (c : RunContext) (o : Option MaybeRelocatable)
      → compute_op1_addr c r o ≡ displace c.fp (negsuc 0) c.prime

build_ret-IsRet : (inc_ap : Bool) (r : Instruction) → build_ret inc_ap ≡ ok r → IsRet r
unfolding build_ret compute_dst_addr compute_op1_addr
build_ret-IsRet inc_ap r h = bind_elim (refuse inc_ap _) _ h λ u hu h1.
    rw (← ok-injective h1)
      (record { new_fp = refl; new_pc = refl; res = refl; dst = λ c. refl; op1 = λ c o. refl })

-- The cells below the new fp are the cells at ap.
displaced_back :
    (x f : MaybeRelocatable) (off back : ℤ) (p : ℕ)
    → add x (int (pos 2)) ≡ ok f
    → off ≡ pos 2 +ℤ back
    → displace f back p ≡ displace x off p
unfolding displace add
displaced_back (int a) f off back p h e =
    let sum : a +ℤ pos 2 +ℤ back ≡ a +ℤ (pos 2 +ℤ back) = omega int_laws in
    rw (← ok-injective h, e) (ap (λ (n : ℤ). ok (mod_prime (int n) p)) sum)
displaced_back (relocatable a) f off back p h e =
    let sum : a.offset +ℤ pos 2 +ℤ back ≡ a.offset +ℤ (pos 2 +ℤ back) = omega int_laws in
    rw (← ok-injective h, e)
      (ap (λ (n : ℤ). ok (mod_prime (relocatable (record a { offset = n })) p)) sum)

Writes-rules : {m m' : MemoryDict} → Writes m m' → m'.relocation_rules ≡ m.relocation_rules
Writes-rules here = refl
Writes-rules (next {n} {n'} addr value before step) =
    (set_item-Wrote n n' addr value step).1.rules ∙ Writes-rules before

-- What a return finds: the caller's fp below the new fp, and the return address after it.
record Framed (c : RunContext) (f return_pc : MaybeRelocatable) (m : MemoryDict) : Type 0 where
  frame :
      (k : MaybeRelocatable) → displace f (negsuc 1) c.prime ≡ ok k → lookup k m.cells ≡ some c.fp
  address :
      (k : MaybeRelocatable)
      → displace f (negsuc 0) c.prime ≡ ok k
      → lookup k m.cells ≡ some return_pc

run_call-Framed :
    (igcdex : Gcdex) (i : Instruction) (s t : Vm) (return_pc : MaybeRelocatable)
    → IsCall i
    → (memory_of s).relocation_rules ≡ []
    → add s.run_context.pc (int (pos (size i))) ≡ ok return_pc
    → Returns (run_instruction igcdex i) s tt t
    → Framed s.run_context t.run_context.fp return_pc (memory_of t)
unfolding next_fp ◌+ℤ◌
run_call-Framed igcdex i s t return_pc call bare following h =
    let c = s.run_context in
    let saved = run_instruction-Saved igcdex i s t return_pc call.opcode bare following h in
    let ran = run_instruction-Ran igcdex i s t h in
    let raised : add c.ap (int (pos 2)) ≡ ok t.run_context.fp =
      rw call.new_fp at ran.registers.fp in
    record {
      frame = λ k at_k.
          let here' = displaced_back c.ap t.run_context.fp (pos 0) (negsuc 1) c.prime raised refl in
          let same : k ≡ saved.dst_addr =
            ok-injective (sym at_k ∙ (here' ∙ (sym (call.dst c) ∙ saved.dst_at))) in
          rw same saved.frame;
      address = λ k at_k.
          let here' = displaced_back c.ap t.run_context.fp (pos 1) (negsuc 0) c.prime raised refl in
          let same : k ≡ saved.op0_addr =
            ok-injective (sym at_k ∙ (here' ∙ (sym (call.op0 c) ∙ saved.op0_at))) in
          rw same saved.address;
    }

required-some :
    (o : Option MaybeRelocatable) (v : MaybeRelocatable) → required o ≡ ok v → o ≡ some v
required-some (some x) v h = ap some (ok-injective h)
required-some none v h = absurd (cc h)

op1_Agrees :
    (p : ℕ) (op0 op1 res : MaybeRelocatable)
    → Agrees p Res.op1 op0 op1 res
    → mod_prime res p ≡ mod_prime op1 p
op1_Agrees p op0 op1 res (q, e, same) =
    let taken : op1 ≡ q = some-injective (ok-injective e) in rw taken (sym same)

-- The registers after a return whose frame is there.
run_ret-Framed :
    (igcdex : Gcdex) (r : Instruction) (c : RunContext) (u w : Vm) (return_pc : MaybeRelocatable)
    → IsBezout igcdex
    → 0 < c.prime
    → IsRet r
    → (memory_of u).relocation_rules ≡ []
    → u.run_context.prime ≡ c.prime
    → Framed c u.run_context.fp return_pc (memory_of u)
    → Returns (run_instruction igcdex r) u tt w
    → (w.run_context.fp ≡ c.fp) × (w.run_context.pc ≡ mod_prime return_pc c.prime)
unfolding next_fp next_pc
run_ret-Framed igcdex r c u w return_pc documented positive ret bare prime framed h =
    let d = u.run_context in
    let ran = run_instruction-Ran igcdex r u w h in
    let o = ran.operands in
    let settled = compute_operands-Settled igcdex r u ran.found o ran.addresses bare ran.computed in
    let (cell, op1_at, known) = settled.op1_at in
    let kept_frame =
      Writes-keeps settled.dst_addr c.fp ran.memory
        (framed.frame settled.dst_addr (rw (← prime) (sym (ret.dst d) ∙ settled.dst_at))) in
    let kept_address =
      Writes-keeps settled.op1_addr return_pc ran.memory
        (framed.address settled.op1_addr (rw (← prime) (sym (ret.op1 d cell) ∙ op1_at))) in
    let dst : o.dst ≡ c.fp =
      at_end settled.dst_addr ran.found ran.memory_found settled.dst kept_frame in
    let op1 : o.op1 ≡ return_pc =
      at_end settled.op1_addr ran.found ran.memory_found settled.op1 kept_address in
    let fp : o.dst ≡ w.run_context.fp = ok-injective (rw ret.new_fp at ran.registers.fp) in
    let (v, jumped, pc) = ran.registers.pc in
    let res : o.res ≡ some v = required-some o.res v (rw ret.new_pc at jumped) in
    let agrees : Agrees d.prime Res.op1 o.op0 o.op1 v = rw ret.res at (
      compute_operands-Agrees igcdex r u ran.found o ran.addresses v documented (rw prime positive)
        ran.computed res) in
    let goes = op1_Agrees d.prime o.op0 o.op1 v agrees in
    (
      sym fp ∙ dst,
      pc
          ∙ (goes
              ∙ (ap (λ (p : ℕ). mod_prime o.op1 p) prime
                  ∙ ap (λ (x : MaybeRelocatable). mod_prime x c.prime) op1)),
    )
  where
    at_end :
        {v x : MaybeRelocatable} (k : MaybeRelocatable) (found : Vm)
        → memory_of w ≡ memory_of found
        → Holds k v found
        → Holds k x w
        → v ≡ x
    at_end k found memory first second =
        some-injective
          (sym first ∙ (ap (λ (m : MemoryDict). lookup k m.cells) (sym memory) ∙ second))

-- A call that has been built and runs to its end, then any checked writes of the memory, then a
-- return that has been built and runs to its end with fp as the call has set it: fp is again that
-- of the caller, and pc is the address after the call, modulo the prime; the memory has no
-- relocation rules at the call, `igcdex` gives Bezout's coefficients, and the prime is positive.
pub run-call-ret :
    (igcdex : Gcdex) (val : Expr) (relative inc_call inc_ret : Bool) (i r : Instruction)
    (s t u w : Vm) (return_pc : MaybeRelocatable)
    → IsBezout igcdex
    → 0 < s.run_context.prime
    → build_call val relative inc_call ≡ ok i
    → build_ret inc_ret ≡ ok r
    → (memory_of s).relocation_rules ≡ []
    → add s.run_context.pc (int (pos (size i))) ≡ ok return_pc
    → Returns (run_instruction igcdex i) s tt t
    → Writes (memory_of t) (memory_of u)
    → u.run_context.fp ≡ t.run_context.fp
    → u.run_context.prime ≡ s.run_context.prime
    → Returns (run_instruction igcdex r) u tt w
    → (w.run_context.fp ≡ s.run_context.fp)
      × (w.run_context.pc ≡ mod_prime return_pc s.run_context.prime)
run-call-ret igcdex val relative inc_call inc_ret i r s t u w return_pc documented positive built
      built_ret bare following called writes fp prime returned =
    let c = s.run_context in
    let call = build_call-IsCall val relative inc_call i built in
    let framed = run_call-Framed igcdex i s t return_pc call bare following called in
    let ran = run_instruction-Ran igcdex i s t called in
    run_ret-Framed igcdex r c u w return_pc documented positive
      (build_ret-IsRet inc_ret r built_ret) (Writes-rules writes ∙ (Writes-rules ran.memory ∙ bare))
      prime
      (record {
        frame = λ k at_k. Writes-keeps k c.fp writes (framed.frame k (rw fp at at_k));
        address = λ k at_k. Writes-keeps k return_pc writes (framed.address k (rw fp at at_k));
      })
      returned
