-- ===== src/Typechecker.antt =====
-- The type checker (src/typechecker): its coercion and cast rules, and its checks
-- of assembly functions and of what a switch covers.
pub mod Types
pub mod Asm
pub mod Switch
