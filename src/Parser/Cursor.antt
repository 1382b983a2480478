-- ===== src/Parser/Cursor.antt =====
-- The cursor helpers of src/parser/expressions.rs that look at a token's kind. Kinds are compared
-- by their discriminant, here the number of the constructor.
use aspect.Prelude.{
  ℕ, zero, suc, Bool, true, false, List, [], ◌∷◌, if◌then◌else◌, Str, codes, length, ◌==◌,
}
use aspect.Prelude.Checked.{Checked, returns, ◌>>!◌}
use aspect.Lexer.Token.{Token, TokenKind}
use aspect.Lexer.Token.{
  open_paren, close_paren, open_brace, close_brace, open_bracket, close_bracket, semicolon, colon,
  comma, dot, arrow, question, dollar, plus, minus, asterisk, slash, percent, equal, not_equal,
  less, greater, less_equal, greater_equal, logical_and, logical_or, logical_not, ampersand, pipe,
  caret, tilde, left_shift, right_shift, assign, plus_assign, minus_assign, mult_assign, div_assign,
  mod_assign, and_assign, or_assign, xor_assign, left_shift_assign, right_shift_assign, integer,
  float, string_literal, identifier, keyword, lang_type, newline, eof,
}
use aspect.Parser.Error.{expected_token}
use aspect.Parser.State.{
  Parser, Parsed, parsed, failed, out_of_fuel, ◌>>-◌, reading, peek, is_eof, advance,
}

module _ {F : Type 0} where
  unfoldable pub discriminant : TokenKind F → ℕ
  discriminant open_paren = 0
  discriminant close_paren = 1
  discriminant open_brace = 2
  discriminant close_brace = 3
  discriminant open_bracket = 4
  discriminant close_bracket = 5
  discriminant semicolon = 6
  discriminant colon = 7
  discriminant comma = 8
  discriminant dot = 9
  discriminant arrow = 10
  discriminant question = 11
  discriminant dollar = 12
  discriminant plus = 13
  discriminant minus = 14
  discriminant asterisk = 15
  discriminant slash = 16
  discriminant percent = 17
  discriminant equal = 18
  discriminant not_equal = 19
  discriminant less = 20
  discriminant greater = 21
  discriminant less_equal = 22
  discriminant greater_equal = 23
  discriminant logical_and = 24
  discriminant logical_or = 25
  discriminant logical_not = 26
  discriminant ampersand = 27
  discriminant pipe = 28
  discriminant caret = 29
  discriminant tilde = 30
  discriminant left_shift = 31
  discriminant right_shift = 32
  discriminant assign = 33
  discriminant plus_assign = 34
  discriminant minus_assign = 35
  discriminant mult_assign = 36
  discriminant div_assign = 37
  discriminant mod_assign = 38
  discriminant and_assign = 39
  discriminant or_assign = 40
  discriminant xor_assign = 41
  discriminant left_shift_assign = 42
  discriminant right_shift_assign = 43
  discriminant (integer n) = 44
  discriminant (float x) = 45
  discriminant (string_literal s) = 46
  discriminant (identifier s) = 47
  discriminant (keyword k) = 48
  discriminant (lang_type t) = 49
  discriminant newline = 50
  discriminant eof = 51

  unfoldable pub token_is : TokenKind F → Token F → Bool
  unfolding discriminant is_eof
  token_is kind t = if is_eof t.kind then false else discriminant t.kind == discriminant kind

  unfoldable pub check : TokenKind F → Parser F → Checked Bool
  unfolding token_is peek
  check kind p = peek p >>! λ t. returns (token_is kind t)

  unfoldable pub advance_if : Parser F → Bool → Parsed F Bool
  unfolding advance
  advance_if p true = advance p >>- λ t p. parsed true p
  advance_if p false = parsed false p

  -- `match_token` with one kind.
  unfoldable pub match_token : TokenKind F → Parser F → Parsed F Bool
  unfolding check advance_if
  match_token kind p = reading p (check kind p) >>- λ found p. advance_if p found

  unfoldable pub advance_or_fail : Parser F → Str → Token F → Bool → Parsed F (Token F)
  unfolding advance
  advance_or_fail p message t true = advance p
  advance_or_fail p message t false = failed (expected_token message t.kind t.pos) p

  unfoldable pub expect_kind : TokenKind F → Str → Parser F → Parsed F (Token F)
  unfolding peek token_is advance_or_fail
  expect_kind kind message p =
      reading p (peek p) >>- λ t p. advance_or_fail p message t (token_is kind t)

  -- The loop of `parse_comma_separated`, on fuel: after each item a comma goes on with the next.
  unfoldable pub items_from :
      {A : Type 0} → ℕ → (Parser F → Parsed F A) → Parser F → Parsed F (List A)
  unfolding match_token
  items_from zero item p = out_of_fuel
  items_from (suc rounds) item p = item p >>- λ x p. match_token comma p >>- λ more p.
      if more then (items_from rounds item p >>- λ xs p. parsed (x ∷ xs) p) else parsed (x ∷ []) p

  unfoldable pub closing_text : TokenKind F → Str
  closing_text close_paren = codes ")"
  closing_text close_bracket = codes "]"
  closing_text close_brace = codes "}"
  closing_text _ = codes "closing delimiter"

  unfoldable pub items_unless :
      {A : Type 0} → Bool → (Parser F → Parsed F A) → Parser F → Parsed F (List A)
  unfolding items_from
  items_unless true item p = parsed [] p
  items_unless false item p = items_from (suc (length p.tokens)) item p

  unfoldable pub parse_comma_separated :
      {A : Type 0} → TokenKind F → (Parser F → Parsed F A) → Parser F → Parsed F (List A)
  unfolding check items_unless expect_kind closing_text
  parse_comma_separated close item p = reading p (check close p) >>- λ closed p.
      items_unless closed item p >>- λ items p.
      expect_kind close (closing_text close) p >>- λ t p. parsed items p
