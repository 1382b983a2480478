-- ===== src/Tests.antt =====
-- Tests, and the theorems at concrete inputs.
mod ExprEval
mod Conditionals
mod Defines
mod Lexing
mod Types
mod Symbols
mod Layouts
mod Assembly
mod TypeExprs
mod Recovery
mod Switches
