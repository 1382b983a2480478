-- ===== src/Parser.antt =====
-- The parser (src/parser): its errors and its cursor, type expressions, and its checks of
-- visibility and of type layouts.
pub mod Error
pub mod State
pub mod Onward
pub mod Cursor
pub mod TypeExpr
pub mod Recovery
pub mod Visibility
pub mod Cycles
