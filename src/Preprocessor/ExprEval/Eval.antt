-- ===== src/Preprocessor/ExprEval/Eval.antt =====
-- The Pratt walk over the expanded tokens: `Eval` and `eval_if_expr` of
-- src/preprocessor/expr_eval.rs. The cursor's `tokens` are the source's `tokens[i..]`; the fuel
-- bounds the depth of calls and the rounds of the loop.
use aspect.Prelude.{
  ℕ, zero, suc, ◌+◌, ◌*◌, Option, none, some, List, [], ◌∷◌, ◌++◌, Str, codes, if◌then◌else◌, ltb,
  length, ok, err, out_of_fuel, ◌>>=◌,
}
use aspect.Prelude.Int.{ℤ}
use aspect.Prelude.Int64.{wrapping_neg}
use aspect.Lexer.Position.{Position}
use aspect.Lexer.Token.{Token, TokenKind}
use aspect.Preprocessor.Error.{PreprocessError, Preprocess, undefined_in_if_expr, malformed_if_expr}
use aspect.Preprocessor.Defines.Scoped.{ScopedDefines, is_defined}
use aspect.Preprocessor.ExprEval.Operators.{of_bool, is_zero, infix_prec, apply}
use aspect.Preprocessor.ExprEval.Operands.{expand_operands}

pub record Cursor (F : Type 0) : Type 0 where
  pub tokens : List (Token F)
  pub last_pos : Position

-- Which of the unary operators a token is.
pub data UnaryOp : Type 0 where
  logical_not minus : UnaryOp

unfoldable pub apply_unary : UnaryOp → ℤ → ℤ
apply_unary logical_not v = of_bool (is_zero v)
apply_unary minus v = wrapping_neg v

module _ {F : Type 0} where
  unfoldable pub unary_op : TokenKind F → Option UnaryOp
  unary_op TokenKind.logical_not = some logical_not
  unary_op TokenKind.minus = some minus
  unary_op _ = none

  unfoldable pub peek : Cursor F → Option (Token F)
  peek c = elim c.tokens [ [] ↦ none | token ∷ rest ↦ some token ]

  -- The consumed token and the cursor behind it.
  unfoldable pub advance : Cursor F → Option (Token F × Cursor F)
  advance c = elim c.tokens [
    | [] ↦ none
    | token ∷ rest ↦ some (token, record { tokens = rest; last_pos = token.pos })
  ]

  -- The next token, if it is an infix operator that binds at least as tightly as `min_prec`, with
  -- its precedence and the cursor behind it: the guards at the head of the loop of `expr`.
  unfoldable pub next_infix : ℕ → Cursor F → Option (ℕ × Token F × Cursor F)
  unfolding advance
  next_infix min_prec c = elim (advance c) [
    | none ↦ none
    | some (token, behind) ↦ elim (infix_prec token.kind) [
      | none ↦ none
      | some prec ↦ if ltb prec min_prec then none else some (prec, token, behind)
    ]
  ]

  unfoldable pub next_unary : Cursor F → Option (UnaryOp × Cursor F)
  unfolding advance unary_op
  next_unary c = elim (advance c) [
    | none ↦ none
    | some (token, behind) ↦ elim (unary_op token.kind) [
      | none ↦ none
      | some op ↦ some (op, behind)
    ]
  ]

  unfoldable pub name_error : ScopedDefines F → Str → Position → PreprocessError
  name_error d name pos =
      if is_defined d name
      then malformed_if_expr
          (codes "`" ++ (name ++ codes "` does not expand to a constant integer expression")) pos
      else undefined_in_if_expr name pos

  -- The match on the token behind a parenthesised expression.
  unfoldable pub closing : ℤ → TokenKind F → Token F → Cursor F → Preprocess (ℤ × Cursor F)
  closing value TokenKind.close_paren token behind = ok (value, behind)
  closing value _ token behind =
      err
        (malformed_if_expr (codes "expected `)`, found `" ++ (token.lexeme ++ codes "`")) token.pos)

  -- The `)` that closes the parenthesis opened at `open_pos`.
  unfoldable pub close_paren : Position → ℤ → Cursor F → Preprocess (ℤ × Cursor F)
  unfolding advance closing
  close_paren open_pos value c = elim (advance c) [
    | none ↦ err (malformed_if_expr (codes "unclosed `(`") open_pos)
    | some (token, behind) ↦ closing value token.kind token behind
  ]

-- The walk itself. `climb` is the loop of `expr`.
unfoldable mutual
  pub expr : {F : Type 0} → ℕ → ScopedDefines F → ℕ → Cursor F → Preprocess (ℤ × Cursor F)
  expr zero d min_prec c = out_of_fuel
  expr (suc fuel) d min_prec c = do
    (left, behind) ← unary fuel d c
    climb fuel d min_prec left behind

  pub climb : {F : Type 0} → ℕ → ScopedDefines F → ℕ → ℤ → Cursor F → Preprocess (ℤ × Cursor F)
  climb zero d min_prec left c = out_of_fuel
  climb (suc fuel) d min_prec left c = elim (next_infix min_prec c) [
    | none ↦ ok (left, c)
    | some (prec, token, behind) ↦ do
      (right, c') ← expr fuel d (prec + 1) behind
      v ← apply token.kind left right token.pos
      climb fuel d min_prec v c'
  ]

  pub unary : {F : Type 0} → ℕ → ScopedDefines F → Cursor F → Preprocess (ℤ × Cursor F)
  unary zero d c = out_of_fuel
  unary (suc fuel) d c = elim (next_unary c) [
    | none ↦ primary fuel d c
    | some (op, behind) ↦ do (v, c') ← unary fuel d behind; ok (apply_unary op v, c')
  ]

  pub primary : {F : Type 0} → ℕ → ScopedDefines F → Cursor F → Preprocess (ℤ × Cursor F)
  primary zero d c = out_of_fuel
  primary (suc fuel) d c = elim (advance c) [
    | none ↦ err (malformed_if_expr (codes "expression ended unexpectedly") c.last_pos)
    | some (token, behind) ↦ primary_token fuel d token.kind token behind
  ]

  -- The match of `primary` on the kind of the consumed token.
  pub primary_token :
      {F : Type 0}
      → ℕ
      → ScopedDefines F
      → TokenKind F
      → Token F
      → Cursor F
      → Preprocess (ℤ × Cursor F)
  primary_token zero d kind token behind = out_of_fuel
  primary_token (suc fuel) d (TokenKind.integer value) token behind = ok (value, behind)
  primary_token (suc fuel) d TokenKind.open_paren token behind = do
    (value, c) ← expr fuel d 0 behind
    close_paren token.pos value c
  primary_token (suc fuel) d (TokenKind.identifier name) token behind =
      err (name_error d name token.pos)
  primary_token (suc fuel) d kind token behind =
      err (malformed_if_expr (codes "unexpected `" ++ (token.lexeme ++ codes "`")) token.pos)

-- The fuel that `eval_if_expr` gives to the walk over a token list.
abbrev pub walk_fuel : {F : Type 0} → List (Token F) → ℕ
walk_fuel tokens = 5 * length tokens + 5

-- The value, unless a token is left over.
unfoldable pub finish : {F : Type 0} → ℤ → Cursor F → Preprocess ℤ
unfolding peek
finish value c = elim (peek c) [
  | none ↦ ok value
  | some extra ↦ err (
      malformed_if_expr (codes "unexpected trailing token `" ++ (extra.lexeme ++ codes "`"))
        extra.pos)
]

unfoldable pub eval_expanded :
    {F : Type 0} → List (Token F) → ScopedDefines F → Position → Preprocess ℤ
unfolding finish
eval_expanded [] d pos =
    err (malformed_if_expr (codes "expected a constant integer expression") pos)
eval_expanded (token ∷ tokens) d pos = do
  (value, c) ←
      expr (walk_fuel (token ∷ tokens)) d 0 (record { tokens = token ∷ tokens; last_pos = pos })
  finish value c

unfoldable pub eval_if_expr :
    {F : Type 0} → List (Token F) → ScopedDefines F → Position → Preprocess ℤ
unfolding eval_expanded
eval_if_expr rest d pos = do expanded ← expand_operands d rest; eval_expanded expanded d pos
