-- ===== src/Tests.antt =====
-- The theorems at concrete inputs.
mod Encode
mod Math
mod Memory
mod Serial
mod Simplifier
mod Patricia
mod Return
mod Deduction
mod Machine
mod Compiler
