-- ===== src/Lexer/Position.antt =====
-- Source positions: `Position` of src/lexer/errors.rs.
use aspect.Prelude.{ℕ}

pub record Position : Type 0 where
  pub line : ℕ
  pub column : ℕ
  pub file_id : ℕ

unfoldable pub with_file : ℕ → ℕ → ℕ → Position
with_file line column file_id = record { line = line; column = column; file_id = file_id }

-- `Position::new`: the entry file.
unfoldable pub new : ℕ → ℕ → Position
unfolding with_file
new line column = with_file line column 0
