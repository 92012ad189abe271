-- ===== src/Compiler.antt =====
-- The compiler (starkware/cairo/lang/compiler): its expressions and instructions, and the passes
-- over them.
pub mod Expr
pub mod Simplifier
pub mod Builder
pub mod Meaning
