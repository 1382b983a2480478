-- ===== src/Lexer.antt =====
-- The lexer (src/lexer): its data and its scanner.
pub mod Position
pub mod LangType
pub mod Token
pub mod Keywords
pub mod Chars
pub mod Scanner
