-- ===== src/Vm/Registers.antt =====
-- The update of the registers (`update_registers` and `is_zero` of
-- starkware/cairo/lang/vm/vm_core.py): fp, then ap, then pc, each written before the next may raise.
use pip_cairo_lang.Prelude.{Bool, true, false, Option, none, some, if◌then◌else◌}
use pip_cairo_lang.Prelude.Int.{pos, eqb_ℤ, ltb_ℤ}
use pip_cairo_lang.Value.{MaybeRelocatable, int, relocatable}
use pip_cairo_lang.Result.{Result, ok, err, not_implemented, pure_value}
use pip_cairo_lang.Exec.{Exec, asks, modify, ◌>>=◌, ◌>>◌}
use pip_cairo_lang.Relocatable.{add, mod_prime}
use pip_cairo_lang.Instruction.{PcUpdate, ApUpdate, FpUpdate, Instruction, size}
use pip_cairo_lang.Vm.State.{RunContext, Operands}

-- `is_zero`: an address with an offset that is not negative is not zero.
unfoldable pub is_zero : MaybeRelocatable → Result Bool
is_zero (int v) = ok (eqb_ℤ v (pos 0))
is_zero (relocatable v) = if ltb_ℤ v.offset (pos 0) then err pure_value else ok false

-- `res`, where an unconstrained one cannot be used
abbrev pub required : Option MaybeRelocatable → Result MaybeRelocatable
required none = err not_implemented
required (some v) = ok v

abbrev pub required_int : MaybeRelocatable → Result MaybeRelocatable
required_int (int v) = ok (int v)
required_int (relocatable _) = err pure_value

unfoldable pub next_fp : RunContext → Instruction → Operands → Result MaybeRelocatable
next_fp c i o = elim i.fp_update [
  | FpUpdate.ap_plus2 ↦ add c.ap (int (pos 2))
  | FpUpdate.dst ↦ ok o.dst
  | FpUpdate.regular ↦ ok c.fp
]

abbrev add_res : RunContext → Option MaybeRelocatable → Result MaybeRelocatable
add_res c none = err not_implemented
add_res c (some res) = add c.ap (mod_prime res c.prime)

-- ap before it is reduced
unfoldable pub next_ap : RunContext → Instruction → Operands → Result MaybeRelocatable
next_ap c i o = elim i.ap_update [
  | ApUpdate.add ↦ add_res c o.res
  | ApUpdate.add1 ↦ add c.ap (int (pos 1))
  | ApUpdate.add2 ↦ add c.ap (int (pos 2))
  | ApUpdate.regular ↦ ok c.ap
]

abbrev jump_rel : RunContext → Option MaybeRelocatable → Result MaybeRelocatable
jump_rel c none = err not_implemented
jump_rel c (some (int res)) = add c.pc (int res)
jump_rel c (some (relocatable _)) = err pure_value

abbrev branch : RunContext → Instruction → Operands → Result Bool → Result MaybeRelocatable
branch c i o (err e) = err e
branch c i o (ok true) = add c.pc (int (pos (size i)))
branch c i o (ok false) = add c.pc o.op1

-- pc before it is reduced
unfoldable pub next_pc : RunContext → Instruction → Operands → Result MaybeRelocatable
next_pc c i o = elim i.pc_update [
  | PcUpdate.regular ↦ add c.pc (int (pos (size i)))
  | PcUpdate.jump ↦ required o.res
  | PcUpdate.jump_rel ↦ jump_rel c o.res
  | PcUpdate.jnz ↦ branch c i o (is_zero o.dst)
]

abbrev set_fp : MaybeRelocatable → Exec RunContext (Unit {0})
set_fp v = modify (λ c. record c { fp = v })

abbrev set_ap : MaybeRelocatable → Exec RunContext (Unit {0})
set_ap v = modify (λ c. record c { ap = mod_prime v c.prime })

abbrev set_pc : MaybeRelocatable → Exec RunContext (Unit {0})
set_pc v = modify (λ c. record c { pc = mod_prime v c.prime })

unfoldable pub update_registers : Instruction → Operands → Exec RunContext (Unit {0})
update_registers i o = do
  fp ← asks (λ c. next_fp c i o)
  set_fp fp
  ap ← asks (λ c. next_ap c i o)
  set_ap ap
  pc ← asks (λ c. next_pc c i o)
  set_pc pc
