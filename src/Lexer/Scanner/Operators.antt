-- ===== src/Lexer/Scanner/Operators.antt =====
-- Punctuation as `Display for TokenKind` prints it (src/lexer/tokens.rs), read back by the scanner.
use aspect.Prelude.{
  ℕ, ◌+◌, ◌≡◌, refl, subst, Option, none, some, List, [], ◌∷◌, Str, codes, length, ok,
}
use aspect.Lexer.Position.{with_file}
use aspect.Lexer.Token.{
  TokenKind, open_paren, close_paren, open_brace, close_brace, open_bracket, close_bracket,
  semicolon, colon, comma, dot, arrow, question, dollar, plus, minus, asterisk, slash, percent,
  equal, not_equal, less, greater, less_equal, greater_equal, logical_and, logical_or, logical_not,
  ampersand, pipe, caret, tilde, left_shift, right_shift, assign, plus_assign, minus_assign,
  mult_assign, div_assign, mod_assign, and_assign, or_assign, xor_assign, left_shift_assign,
  right_shift_assign, Token, new,
}
use aspect.Lexer.Chars.{is_blank}
use aspect.Lexer.Scanner.{
  is_at_end, with_file_id, peek, advance, matches, left, current_position, slice_to_string,
}
use aspect.Lexer.Scanner.Trivia.{skip_whitespace, trivia}
use aspect.Lexer.Scanner.Tokens.{
  tokenize_with_file_id, scan_all, scan_token, scan_at, punctuation, single, operator, assign_or,
  doubled_or, with_scanner, or_operator, punctuated,
}

module _ {F : Type 0} where
  -- The kinds that print as punctuation.
  unfoldable pub punctuation_text : TokenKind F → Option Str
  punctuation_text open_paren = some (codes "(")
  punctuation_text close_paren = some (codes ")")
  punctuation_text open_brace = some (codes "{")
  punctuation_text close_brace = some (codes "}")
  punctuation_text open_bracket = some (codes "[")
  punctuation_text close_bracket = some (codes "]")
  punctuation_text semicolon = some (codes ";")
  punctuation_text colon = some (codes ":")
  punctuation_text comma = some (codes ",")
  punctuation_text dot = some (codes ".")
  punctuation_text arrow = some (codes "->")
  punctuation_text question = some (codes "?")
  punctuation_text dollar = some (codes "$")
  punctuation_text plus = some (codes "+")
  punctuation_text minus = some (codes "-")
  punctuation_text asterisk = some (codes "*")
  punctuation_text slash = some (codes "/")
  punctuation_text percent = some (codes "%")
  punctuation_text equal = some (codes "==")
  punctuation_text not_equal = some (codes "!=")
  punctuation_text less = some (codes "<")
  punctuation_text greater = some (codes ">")
  punctuation_text less_equal = some (codes "<=")
  punctuation_text greater_equal = some (codes ">=")
  punctuation_text logical_and = some (codes "&&")
  punctuation_text logical_or = some (codes "||")
  punctuation_text logical_not = some (codes "!")
  punctuation_text ampersand = some (codes "&")
  punctuation_text pipe = some (codes "|")
  punctuation_text caret = some (codes "^")
  punctuation_text tilde = some (codes "~")
  punctuation_text left_shift = some (codes "<<")
  punctuation_text right_shift = some (codes ">>")
  punctuation_text assign = some (codes "=")
  punctuation_text plus_assign = some (codes "+=")
  punctuation_text minus_assign = some (codes "-=")
  punctuation_text mult_assign = some (codes "*=")
  punctuation_text div_assign = some (codes "/=")
  punctuation_text mod_assign = some (codes "%=")
  punctuation_text and_assign = some (codes "&=")
  punctuation_text or_assign = some (codes "|=")
  punctuation_text xor_assign = some (codes "^=")
  punctuation_text left_shift_assign = some (codes "<<=")
  punctuation_text right_shift_assign = some (codes ">>=")
  punctuation_text _ = none

module _ {F : Type 0} (parse_f64 : Str → Option F) (file_id : ℕ) where
  -- The one token, at the first column, and the end of the file behind it.
  abbrev pub alone : TokenKind F → Str → List (Token F)
  alone kind text =
      new kind (record { line = 1; column = 1; file_id = file_id }) text
      ∷ new TokenKind.eof (record { line = 1; column = 1 + length text; file_id = file_id }) []
      ∷ []

  abbrev ReadBack : TokenKind F → Option Str → Type 0
  ReadBack kind none = Unit
  ReadBack kind (some text) = tokenize_with_file_id parse_f64 text file_id ≡ ok (alone kind text)

  read_back : (kind : TokenKind F) → ReadBack kind (punctuation_text kind)
  unfolding punctuation_text tokenize_with_file_id scan_all scan_token scan_at punctuation single
      operator assign_or doubled_or with_scanner or_operator punctuated skip_whitespace trivia
      is_blank is_at_end with_file_id peek advance matches left current_position slice_to_string
      with_file
  read_back open_paren = refl
  read_back close_paren = refl
  read_back open_brace = refl
  read_back close_brace = refl
  read_back open_bracket = refl
  read_back close_bracket = refl
  read_back semicolon = refl
  read_back colon = refl
  read_back comma = refl
  read_back dot = refl
  read_back arrow = refl
  read_back question = refl
  read_back dollar = refl
  read_back plus = refl
  read_back minus = refl
  read_back asterisk = refl
  read_back slash = refl
  read_back percent = refl
  read_back equal = refl
  read_back not_equal = refl
  read_back less = refl
  read_back greater = refl
  read_back less_equal = refl
  read_back greater_equal = refl
  read_back logical_and = refl
  read_back logical_or = refl
  read_back logical_not = refl
  read_back ampersand = refl
  read_back pipe = refl
  read_back caret = refl
  read_back tilde = refl
  read_back left_shift = refl
  read_back right_shift = refl
  read_back assign = refl
  read_back plus_assign = refl
  read_back minus_assign = refl
  read_back mult_assign = refl
  read_back div_assign = refl
  read_back mod_assign = refl
  read_back and_assign = refl
  read_back or_assign = refl
  read_back xor_assign = refl
  read_back left_shift_assign = refl
  read_back right_shift_assign = refl
  read_back _ = tt

  -- Every operator and delimiter, printed and scanned alone, is read as itself and as nothing shorter,
  -- with its position and its text.
  pub tokenize-punctuation_text :
      (kind : TokenKind F) (text : Str)
      → punctuation_text kind ≡ some text
      → tokenize_with_file_id parse_f64 text file_id ≡ ok (alone kind text)
  tokenize-punctuation_text kind text e = subst (ReadBack kind) e (read_back kind)
