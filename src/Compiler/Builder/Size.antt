-- ===== src/Compiler/Builder/Size.antt =====
-- The size of an instruction before it is built (`get_instruction_size` of
-- starkware/cairo/lang/compiler/instruction_builder.py).
use pip_cairo_lang.Prelude.{◌≡◌, true, false, ◌⊎◌}
use pip_cairo_lang.Result.{Result, ok, err, instruction_builder}
use pip_cairo_lang.Instruction.{Instruction, size}
use pip_cairo_lang.Compiler.Expr.{Expr}
use pip_cairo_lang.Compiler.Builder.{has_const_form}

-- A result that an `except InstructionBuilderError` handles.
abbrev IsCaught {ℓ} : {A : Type ℓ} → Result A → Type 0
IsCaught (ok _) = Unit
IsCaught (err (instruction_builder _)) = Unit
IsCaught (err _) = ⊥

-- What `get_instruction_size` finds of an assertion, beside the instruction that is built.
abbrev Foretold : Expr → Expr → Instruction → Type 0
Foretold a b i = (has_const_form a b ≡ ok false) ⊎ ((has_const_form a b ≡ ok true) × (size i ≡ 2))
