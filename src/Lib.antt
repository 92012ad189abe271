-- ===== src/Lib.antt =====
-- The Cairo virtual machine (starkware/cairo/lang/vm), the parts of the compiler
-- (starkware/cairo/lang/compiler) that make its instructions, and the tree that commits to the
-- state of StarkNet (starkware/starkware_utils/commitment_tree), as executable definitions with
-- their theorems.
--
-- A program is a list of field elements. Each instruction is one word, with an immediate in the
-- word after it. The compiler builds instructions from the syntax tree (instruction_builder.py) and
-- makes the words (encode.py), and the machine (vm_core.py) reads a word at its program counter,
-- decodes it, finds the operands in memory or deduces them, checks the assertion of the opcode,
-- appends to the trace and updates its registers. The memory (memory_dict.py) is a dictionary whose
-- cells are written once, behind a proxy (validated_memory_dict.py) that runs the rules of a
-- builtin on each cell of its segment. Addresses are pairs of a segment and an offset
-- (relocatable.py); the segment manager (memory_segments.py) measures the segments at the end and
-- places them one after the other.
--
-- Files, and the code that they are about:
--   Prelude        notation, Boolean tests, lists, bits, Python's integers and their remainders.
--   Value          int and RelocatableValue, the two kinds of value.
--   Result, Exec   exceptions as values. Exec is state passing that keeps the state beside an error,
--                  since what a method has written before it raises stays written; Exec/Steps has the
--                  rules that follow a relation of states, or a successful run, through a sequence.
--   Instruction    starkware/cairo/lang/compiler/instruction.py.
--   Encode         starkware/cairo/lang/compiler/encode.py: Flags and Encoder (encode_instruction),
--                  Decoder (decode_instruction, is_call_instruction), Layout and Fields (the word as
--                  a sum of fields), RoundTrip and Canonical (the two are inverse to each other).
--   Relocatable    relocatable.py: arithmetic, order, bytes, relocate_value.
--   Memory         memory_dict.py, with the cells in the order of their first writes; Serial is its
--                  binary form, Validated is validated_memory_dict.py.
--   Segments       memory_segments.py.
--   Vm             vm_core.py and the deduction rules of virtual_machine_base.py: State, Addresses,
--                  Deduction, Registers, Operands (compute_operands), Run (run_instruction, step).
--                  Fills, Holds, Stages, Settled and ResValue follow one compute_operands to its end.
--   Trace          trace_entry.py.
--   Builtins       SimpleBuiltinRunner of builtin_runner.py, and the range-check builtin.
--   Compiler       Expr is the syntax tree of expressions and instructions (ast/expr.py,
--                  ast/instructions.py) with const_expr_checker.py, Builder is instruction_builder.py,
--                  with its children Parts and Encodable (what is built can be encoded), Sugar and
--                  Size. Meaning has the value of an expression, a definition that is independent of
--                  the builder, and its children hold the built instructions against it. Simplifier is
--                  expression_simplifier.py over expression_transformer.py: Weight, Fits, Operators
--                  and Total are about its end, Reading, Congruent, Units, Operation and Sound about what
--                  the expressions stand for.
--   Patricia       starkware/starkware_utils/commitment_tree: Nodes and Serial (patricia_tree/nodes.py),
--                  VirtualNode (patricia_tree/virtual_patricia_node.py), Calculation (calculation.py),
--                  CalculationNode (patricia_tree/virtual_calculation_node.py), UpdateTree and Root
--                  (build_update_tree and the end of update_tree in update_tree.py); Utils has the
--                  reference of starkware/cairo/common/patricia_utils.py. Canonic says which node of the
--                  reference a node stands for; Decommit, Triplets, Combine, Commitment and Children
--                  hold the two against each other.
--   RegTracking    starkware/cairo/lang/compiler/preprocessor/reg_tracking.py.
--   MathUtils      starkware/python/math_utils.py; Ec has the points of an elliptic curve.
--   Tests          each theorem at a concrete input.
--
-- How the code is written here. Python's unbounded integers are ℤ over the native numbers; the
-- prime of the field and other moduli are ℕ, as the code never gives a negative one. A dictionary
-- is an association list, an enum is a data type, a record field is the attribute of the same name.
-- Hints, validation rules and auto-deduction rules are Python callbacks, so they are arguments:
-- actions on the machine, functions of the memory, and, for the auto-deduction rules, which may
-- keep a state of their own, functions of the memory and of their earlier calls. sympy's `igcdex`
-- is an argument too; that its coefficients give the divisor, and that it divides its arguments,
-- are the hypotheses IsBezout and IsDivisor. The hash function of the tree is an argument, and
-- where an empty node must not be mistaken for a full one, that it does not give 0 is the
-- hypothesis IsNonzero. A hash of 32 bytes is its number, and the storage that is read is a
-- function from hashes to facts.
--
-- Recursion. `relocate_value` of a memory follows a chain of rules on fuel, the number of rules: a
-- chain without a cycle uses each rule at most once (Memory/Relocation/Chains), and one with a
-- cycle never ends in the code either, where Python raises RecursionError, which the definition
-- returns. `isqrt` has its argument as fuel, as the variable of its loop falls; `bit_length`
-- likewise; `ec_mult` has the multiplier, which each call lowers. `visit` of the simplifier spends
-- a unit for each nested call, also where it visits again what it has turned; a weight of
-- expressions, which no step raises, bounds them. `blockify` has the number of bytes as fuel, as
-- each block takes one at least.
--
-- Not modelled: the Python hints and their scopes, error messages and tracebacks, the debug
-- information, `gen_arg` and `write_arg` of the segment manager, the parser and the other passes of
-- the compiler, the runner and the proof input that it writes, the asynchronous traversal of a tree
-- and its storage, the StarkNet layers on top, and what only does input or output.
pub mod Prelude
pub mod Value
pub mod Result
pub mod Instruction
pub mod Encode
pub mod Relocatable
pub mod Memory
pub mod Exec
pub mod MathUtils
pub mod Vm
pub mod Segments
pub mod RegTracking
pub mod Compiler
pub mod Trace
pub mod Patricia
pub mod Builtins
pub mod Tests
