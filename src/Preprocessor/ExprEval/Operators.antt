-- ===== src/Preprocessor/ExprEval/Operators.antt =====
-- Operators of `$if` expressions: `infix_prec`, `apply`, `mask_shift` and `single_name` of
-- src/preprocessor/expr_eval.rs.
use aspect.Prelude.{
  ℕ, ◌%◌, Bool, true, false, not, ◌&&◌, ◌||◌, Option, none, some, List, [], ◌∷◌, Str, if◌then◌else◌,
  ok, err,
}
use aspect.Prelude.Int.{ℤ, ltb_ℤ, leb_ℤ, eq_ℤ}
use aspect.Prelude.Int64.{
  to_bits, wrapping_add, wrapping_sub, wrapping_mul, wrapping_div, wrapping_rem, or64, xor64, and64,
  wrapping_shl, wrapping_shr,
}
use aspect.Lexer.Position.{Position}
use aspect.Lexer.Token.{Token, TokenKind}
use aspect.Preprocessor.Error.{
  Preprocess, expected_name, trailing_tokens, if_division_by_zero, panic,
}
use aspect.Preprocessor.Defines.Scoped.{identifier_of}

-- `i64::from(b)`.
abbrev pub of_bool : Bool → ℤ
of_bool true = ℤ.pos 1
of_bool false = ℤ.pos 0

abbrev pub is_zero : ℤ → Bool
is_zero z = eq_ℤ z (ℤ.pos 0)

-- `mask_shift`: `count & 63`.
unfoldable pub mask_shift : ℤ → ℕ
mask_shift count = to_bits count % 64

module _ {F : Type 0} where
  -- `single_name`.
  unfoldable pub single_name : Str → List (Token F) → Position → Preprocess Str
  single_name directive [] pos = err (expected_name directive pos)
  single_name directive (name_token ∷ extra) pos = elim (identifier_of name_token.kind) [
    | none ↦ err (expected_name directive name_token.pos)
    | some name ↦ elim extra [ [] ↦ ok name | e ∷ _ ↦ err (trailing_tokens directive e.pos) ]
  ]

  unfoldable pub infix_prec : TokenKind F → Option ℕ
  infix_prec TokenKind.logical_or = some 1
  infix_prec TokenKind.logical_and = some 2
  infix_prec TokenKind.equal = some 3
  infix_prec TokenKind.not_equal = some 3
  infix_prec TokenKind.less = some 3
  infix_prec TokenKind.greater = some 3
  infix_prec TokenKind.less_equal = some 3
  infix_prec TokenKind.greater_equal = some 3
  infix_prec TokenKind.pipe = some 4
  infix_prec TokenKind.caret = some 5
  infix_prec TokenKind.ampersand = some 6
  infix_prec TokenKind.left_shift = some 7
  infix_prec TokenKind.right_shift = some 7
  infix_prec TokenKind.plus = some 10
  infix_prec TokenKind.minus = some 10
  infix_prec TokenKind.asterisk = some 20
  infix_prec TokenKind.slash = some 20
  infix_prec TokenKind.percent = some 20
  infix_prec _ = none

  -- Any other kind is the source's `unreachable!`.
  unfoldable pub apply : TokenKind F → ℤ → ℤ → Position → Preprocess ℤ
  unfolding mask_shift
  apply TokenKind.logical_or l r p = ok (of_bool (not (is_zero l) || not (is_zero r)))
  apply TokenKind.logical_and l r p = ok (of_bool (not (is_zero l) && not (is_zero r)))
  apply TokenKind.equal l r p = ok (of_bool (eq_ℤ l r))
  apply TokenKind.not_equal l r p = ok (of_bool (not (eq_ℤ l r)))
  apply TokenKind.less l r p = ok (of_bool (ltb_ℤ l r))
  apply TokenKind.greater l r p = ok (of_bool (ltb_ℤ r l))
  apply TokenKind.less_equal l r p = ok (of_bool (leb_ℤ l r))
  apply TokenKind.greater_equal l r p = ok (of_bool (leb_ℤ r l))
  apply TokenKind.pipe l r p = ok (or64 l r)
  apply TokenKind.caret l r p = ok (xor64 l r)
  apply TokenKind.ampersand l r p = ok (and64 l r)
  apply TokenKind.left_shift l r p = ok (wrapping_shl l (mask_shift r))
  apply TokenKind.right_shift l r p = ok (wrapping_shr l (mask_shift r))
  apply TokenKind.plus l r p = ok (wrapping_add l r)
  apply TokenKind.minus l r p = ok (wrapping_sub l r)
  apply TokenKind.asterisk l r p = ok (wrapping_mul l r)
  apply TokenKind.slash l r p =
      if is_zero r then err (if_division_by_zero p) else ok (wrapping_div l r)
  apply TokenKind.percent l r p =
      if is_zero r then err (if_division_by_zero p) else ok (wrapping_rem l r)
  apply _ l r p = err panic
