-- ===== src/Compiler/Builder/Encodable.antt =====
-- What is built can be encoded (starkware/cairo/lang/compiler/instruction_builder.py,
-- starkware/cairo/lang/compiler/encode.py).
use pip_cairo_lang.Prelude.{ℕ, ◌≡◌, refl, List, length}
use pip_cairo_lang.Prelude.Int.{ℤ}
use pip_cairo_lang.Result.{Result, ok, err, ok-injective, instruction_builder}
use pip_cairo_lang.Instruction.{Instruction, BytecodeElement, instruction}
use pip_cairo_lang.Encode.Encoder.{encode_instruction}
use pip_cairo_lang.Compiler.Expr.{Expr}
use pip_cairo_lang.Compiler.Builder.{or_swapped, as_element, element_size}

-- Whichever of the two attempts gives the instruction, it has what either attempt's has.
pub or_swapped_elim {ℓ} :
    {A : Type 0} {Goal : Type ℓ} (first second : Result A) {v : A}
    → or_swapped first second ≡ ok v
    → (first ≡ ok v → Goal)
    → (second ≡ ok v → Goal)
    → Goal
or_swapped_elim (ok i) second h left right = left h
or_swapped_elim (err (instruction_builder c)) (ok i) h left right = right h
or_swapped_elim (err (instruction_builder c)) (err e) h left right = absurd (cc h)
or_swapped_elim (err _) second h left right = absurd (cc h)

pub as_instruction :
    (m : Result Instruction) (e : BytecodeElement)
    → as_element m ≡ ok e
    → (i : Instruction) × (m ≡ ok i) × (instruction i ≡ e)
as_instruction (ok i) e h = (i, refl, ok-injective h)
as_instruction (err x) e h = absurd (cc h)

-- The encoding of what is built, with as many words as its size says.
Encodes : BytecodeElement → ℕ → Type 0
Encodes e p =
    (words : List ℤ) × (encode_instruction e p ≡ ok words) × (length words ≡ element_size e)
