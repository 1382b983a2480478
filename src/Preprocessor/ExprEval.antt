-- ===== src/Preprocessor/ExprEval.antt =====
-- The `$if` constant-expression evaluator (src/preprocessor/expr_eval.rs).
pub mod Operators
pub mod Operands
pub mod Eval
pub mod Total
pub mod Grammar
pub mod Weight
pub mod Climbing
pub mod RoundTrip
