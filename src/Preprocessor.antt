-- ===== src/Preprocessor.antt =====
-- The preprocessor (src/preprocessor): defines, `$if` expressions and conditional chains.
pub mod Error
pub mod Defines
pub mod ExprEval
pub mod Conditional
