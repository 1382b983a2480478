-- ===== src/Lexer/Scanner/Literals.antt =====
-- Numbers and strings: `scan_number`, `scan_radix_number` and `scan_string_literal` of
-- src/lexer/scanner.rs. The parser of floats is a parameter.
use aspect.Prelude.{
  ℕ, zero, suc, Bool, ◌&&◌, ◌||◌, Option, none, some, [], ◌∷◌, ◌++◌, if◌then◌else◌, ◌==◌, Str, drop,
  Result, ok, err, out_of_fuel, ◌>>=◌,
}
use aspect.Prelude.Int.{ℤ}
use aspect.Lexer.Position.{Position}
use aspect.Lexer.Token.{integer, float, string_literal, Token, new}
use aspect.Lexer.Chars.{
  LexerError, unterminated_string, invalid_number, invalid_escape, is_digit, is_hex_digit,
  is_binary_digit, parse_i64,
}
use aspect.Lexer.Scanner.{
  Scanner, slice_to_string, current_position, peek, peek_ahead, advance, matches, is_in, skip_while,
  left,
}

-- One round of the loop over a string: it ends, fails, or goes on with what was read.
pub data Round : Type 0 where
  stop : Round
  fail : LexerError → Round
  more : ℕ → Scanner → Round

unfoldable pub escape : ℕ → Option ℕ
escape c =
    if c == b'n'
    then some 10
    else if c == b'r'
    then some 13
    else if c == b't'
    then some 9
    else if c == 92
    then some 92
    else if c == b'"'
    then some b'"'
    else none

unfoldable pub escaped : Option ℕ → ℕ → Scanner → Round
escaped (some c) other s = more c s
escaped none other s = fail (invalid_escape other (current_position s))

-- After the backslash.
unfoldable pub escape_round : Position → Option ℕ → Scanner → Round
unfolding escaped
escape_round start_pos none s = fail (unterminated_string start_pos)
escape_round start_pos (some c) s = escaped (escape c) c (advance s)

unfoldable pub string_round : Position → Option ℕ → Scanner → Round
unfolding escape_round
string_round start_pos none s = stop
string_round start_pos (some c) s =
    if c == b'"'
    then stop
    else if c == 10
    then fail (unterminated_string start_pos)
    else if c == 92
    then escape_round start_pos (peek (advance s)) (advance s)
    else more c (advance s)

unfoldable pub after_round :
    Round
    → Str
    → Scanner
    → (Str → Scanner → Result LexerError (Str × Scanner))
    → Result LexerError (Str × Scanner)
after_round stop value s k = ok (value, s)
after_round (fail e) value s k = err e
after_round (more c t) value s k = k (value ++ c ∷ []) t

unfoldable pub string_rounds : ℕ → Position → Str → Scanner → Result LexerError (Str × Scanner)
unfolding string_round after_round
string_rounds zero start_pos value s = out_of_fuel
string_rounds (suc n) start_pos value s =
    after_round (string_round start_pos (peek s) s) value s λ v t. string_rounds n start_pos v t

module _ {F : Type 0} (parse_f64 : Str → Option F) where
  unfoldable pub integer_token :
      Option ℤ → Position → Str → Scanner → Result LexerError (Token F × Scanner)
  integer_token (some value) start_pos lexeme s = ok (new (integer value) start_pos lexeme, s)
  integer_token none start_pos lexeme s = err (invalid_number lexeme start_pos)

  unfoldable pub float_token :
      Option F → Position → Str → Scanner → Result LexerError (Token F × Scanner)
  float_token (some value) start_pos lexeme s = ok (new (float value) start_pos lexeme, s)
  float_token none start_pos lexeme s = err (invalid_number lexeme start_pos)

  unfoldable pub scan_radix_number :
      Position → ℕ → ℕ → (ℕ → Bool) → Scanner → Result LexerError (Token F × Scanner)
  unfolding integer_token
  scan_radix_number start_pos start_idx radix is_radix_digit s =
      let t = skip_while is_radix_digit s in
      let lexeme = slice_to_string t start_idx in
      integer_token (parse_i64 radix (drop 2 lexeme)) start_pos lexeme t

  unfoldable pub scan_decimal : Position → ℕ → Scanner → Result LexerError (Token F × Scanner)
  unfolding integer_token float_token
  scan_decimal start_pos start_idx s =
      let t = skip_while is_digit s in
      let u = skip_while is_digit (advance t) in
      if matches t b'.' && is_in is_digit (peek_ahead t 1)
      then float_token (parse_f64 (slice_to_string u start_idx)) start_pos
          (slice_to_string u start_idx) u
      else integer_token (parse_i64 10 (slice_to_string t start_idx)) start_pos
          (slice_to_string t start_idx) t

  unfoldable pub scan_number : ℕ → ℕ → Position → Scanner → Result LexerError (Token F × Scanner)
  unfolding scan_radix_number scan_decimal
  scan_number first start_idx start_pos s =
      if first == b'0' && (matches s b'x' || matches s b'X')
      then scan_radix_number start_pos start_idx 16 is_hex_digit (advance s)
      else if first == b'0' && (matches s b'b' || matches s b'B')
      then scan_radix_number start_pos start_idx 2 is_binary_digit (advance s)
      else scan_decimal start_pos start_idx s

  -- After the loop: the closing quote.
  unfoldable pub close_string : Position → Str × Scanner → Result LexerError (Token F × Scanner)
  close_string start_pos (value, t) =
      if matches t b'"'
      then ok (new (string_literal value) start_pos (b'"' ∷ value ++ b'"' ∷ []), advance t)
      else err (unterminated_string start_pos)

  unfoldable pub scan_string_literal : Position → Scanner → Result LexerError (Token F × Scanner)
  unfolding close_string string_rounds
  scan_string_literal start_pos s =
      string_rounds (suc (left s)) start_pos [] s >>= close_string start_pos
