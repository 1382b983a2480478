-- ===== src/Lexer/Scanner/Tokens.antt =====
-- `scan_token` and `scan_all` of src/lexer/scanner.rs.
use aspect.Prelude.{
  ℕ, zero, suc, ◌||◌, Option, none, some, List, [], ◌∷◌, if◌then◌else◌, ◌==◌, Str, Result, ok, err,
  out_of_fuel, ◌>>=◌,
}
use aspect.Lexer.Position.{Position}
use aspect.Lexer.Token.{
  TokenKind, open_paren, close_paren, open_brace, close_brace, open_bracket, close_bracket,
  semicolon, colon, comma, dot, arrow, question, dollar, plus, minus, asterisk, slash, percent,
  equal, not_equal, less, greater, less_equal, greater_equal, logical_and, logical_or, logical_not,
  ampersand, pipe, caret, tilde, left_shift, right_shift, assign, plus_assign, minus_assign,
  mult_assign, div_assign, mod_assign, and_assign, or_assign, xor_assign, left_shift_assign,
  right_shift_assign, newline, eof, Token, new,
}
use aspect.Lexer.Chars.{LexerError, unexpected_char, unexpected_eof, is_alpha, is_digit}
use aspect.Lexer.Scanner.{
  Scanner, with_file_id, slice_to_string, current_position, is_at_end, peek, advance, matches, left,
}
use aspect.Lexer.Scanner.Trivia.{skip_whitespace}
use aspect.Lexer.Scanner.Words.{scan_identifier_or_keyword}
use aspect.Lexer.Scanner.Literals.{scan_number, scan_string_literal}

module _ {F : Type 0} where
  unfoldable pub single : ℕ → Option (TokenKind F)
  single c =
      if c == b'('
      then some open_paren
      else if c == b')'
      then some close_paren
      else if c == b'{'
      then some open_brace
      else if c == b'}'
      then some close_brace
      else if c == b'['
      then some open_bracket
      else if c == b']'
      then some close_bracket
      else if c == b';'
      then some semicolon
      else if c == b':'
      then some colon
      else if c == b','
      then some comma
      else if c == b'.'
      then some dot
      else if c == b'?'
      then some question
      else if c == b'$'
      then some dollar
      else if c == b'~'
      then some tilde
      else if c == 10
      then some newline
      else none

  unfoldable pub assign_or : Scanner → TokenKind F → TokenKind F → TokenKind F × Scanner
  assign_or s plain compound = if matches s b'=' then (compound, advance s) else (plain, s)

  -- `first` if the next character is `c`, and else `=` is tried.
  unfoldable pub doubled_or :
      Scanner → ℕ → TokenKind F × Scanner → TokenKind F → TokenKind F → TokenKind F × Scanner
  unfolding assign_or
  doubled_or s c first plain compound = if matches s c then first else assign_or s plain compound

  -- The operators, at the character `c` with the scanner behind it.
  unfoldable pub operator : ℕ → Scanner → Option (TokenKind F × Scanner)
  unfolding assign_or doubled_or
  operator c s =
      if c == b'='
      then some (assign_or s assign equal)
      else if c == b'!'
      then some (assign_or s logical_not not_equal)
      else if c == b'<'
      then some
          (doubled_or s b'<' (assign_or (advance s) left_shift left_shift_assign) less less_equal)
      else if c == b'>'
      then some (
          doubled_or s b'>' (assign_or (advance s) right_shift right_shift_assign) greater
            greater_equal)
      else if c == b'-'
      then some (doubled_or s b'>' (arrow, advance s) minus minus_assign)
      else if c == b'+'
      then some (assign_or s plus plus_assign)
      else if c == b'*'
      then some (assign_or s asterisk mult_assign)
      else if c == b'/'
      then some (assign_or s slash div_assign)
      else if c == b'%'
      then some (assign_or s percent mod_assign)
      else if c == b'&'
      then some (doubled_or s b'&' (logical_and, advance s) ampersand and_assign)
      else if c == b'|'
      then some (doubled_or s b'|' (logical_or, advance s) pipe or_assign)
      else if c == b'^'
      then some (assign_or s caret xor_assign)
      else none

  unfoldable pub with_scanner : Scanner → Option (TokenKind F) → Option (TokenKind F × Scanner)
  with_scanner s none = none
  with_scanner s (some kind) = some (kind, s)

  unfoldable pub or_operator :
      Option (TokenKind F × Scanner)
      → Option (TokenKind F × Scanner)
      → Option (TokenKind F × Scanner)
  or_operator (some found) other = some found
  or_operator none other = other

  unfoldable pub punctuation : ℕ → Scanner → Option (TokenKind F × Scanner)
  unfolding with_scanner or_operator
  punctuation c s = or_operator (with_scanner s (single c)) (operator c s)

-- What one pass of `scan_token` comes to: a token, or a line continuation to scan on after.
pub data Scanned (F : Type 0) : Type 0 where
  token : Token F × Scanner → Scanned F
  splice : Scanner → Scanned F

module _ {F : Type 0} (parse_f64 : Str → Option F) where
  -- After a backslash: a line ending, LF or CRLF, or an error.
  unfoldable pub continuation : Position → Scanner → Result LexerError (Scanned F)
  continuation start_pos s =
      if matches s 13
      then if matches (advance s) 10
        then ok (splice (advance (advance s)))
        else err (unexpected_char 92 start_pos)
      else if matches s 10
      then ok (splice (advance s))
      else err (unexpected_char 92 start_pos)

  unfoldable pub scan_other : ℕ → Position → ℕ → Scanner → Result LexerError (Scanned F)
  unfolding continuation
  scan_other c start_pos start_idx s =
      if c == 92
      then continuation start_pos s
      else if c == b'"'
      then (scan_string_literal parse_f64 start_pos s >>= λ r. ok (token r))
      else if is_digit c
      then (scan_number parse_f64 c start_idx start_pos s >>= λ r. ok (token r))
      else if is_alpha c || c == b'_'
      then ok (token (scan_identifier_or_keyword start_pos start_idx s))
      else err (unexpected_char c start_pos)

  unfoldable pub punctuated :
      Option (TokenKind F × Scanner)
      → Position
      → ℕ
      → Result LexerError (Scanned F)
      → Result LexerError (Scanned F)
  punctuated none start_pos start_idx other = other
  punctuated (some (kind, t)) start_pos start_idx other =
      ok (token (new kind start_pos (slice_to_string t start_idx), t))

  unfoldable pub scan_at : Option ℕ → Scanner → Result LexerError (Scanned F)
  unfolding scan_other punctuated
  scan_at none s = err unexpected_eof
  scan_at (some c) s =
      punctuated (punctuation c (advance s)) (current_position s) s.current
        (scan_other c (current_position s) s.current (advance s))

  unfoldable pub after_scan :
      Scanned F
      → (Scanner → Result LexerError (Token F × Scanner))
      → Result LexerError (Token F × Scanner)
  after_scan (token r) k = ok r
  after_scan (splice s) k = k s

  unfoldable pub scan_token_rounds : ℕ → Scanner → Result LexerError (Token F × Scanner)
  unfolding scan_at after_scan
  scan_token_rounds zero s = out_of_fuel
  scan_token_rounds (suc n) s =
      scan_at (peek s) s >>= λ a. after_scan a λ t. skip_whitespace t >>= λ u. scan_token_rounds n u

  unfoldable pub scan_token : Scanner → Result LexerError (Token F × Scanner)
  unfolding scan_token_rounds
  scan_token s = scan_token_rounds (suc (left s)) s

  unfoldable pub end_of_file : Scanner → List (Token F)
  end_of_file s = new eof (current_position s) [] ∷ []

  unfoldable pub scan_rounds : ℕ → Scanner → Result LexerError (List (Token F))
  unfolding end_of_file
  scan_rounds zero s = out_of_fuel
  scan_rounds (suc n) s =
      let rest = skip_whitespace s >>= λ t.
      let next = scan_token t >>= λ r. scan_rounds n r.1 >>= λ tokens. ok (r.0 ∷ tokens) in
      if is_at_end t then ok (end_of_file t) else next in
      if is_at_end s then ok (end_of_file s) else rest

  unfoldable pub scan_all : Scanner → Result LexerError (List (Token F))
  unfolding scan_rounds
  scan_all s = scan_rounds (suc (left s)) s

  unfoldable pub tokenize_with_file_id : List ℕ → ℕ → Result LexerError (List (Token F))
  unfolding scan_all
  tokenize_with_file_id input file_id = scan_all (with_file_id input file_id)

  unfoldable pub tokenize : List ℕ → Result LexerError (List (Token F))
  unfolding scan_all
  tokenize input = scan_all (with_file_id input 0)
