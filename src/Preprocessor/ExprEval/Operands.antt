-- ===== src/Preprocessor/ExprEval/Operands.antt =====
-- `expand_operands` of src/preprocessor/expr_eval.rs.
use aspect.Prelude.{
  ℕ, zero, suc, Bool, true, false, Option, none, some, List, [], ◌∷◌, ◌++◌, Str, codes, str_eq,
  if◌then◌else◌, ok, err, ◌>>=◌,
}
use aspect.Lexer.Position.{Position}
use aspect.Lexer.Token.{Token, TokenKind, new}
use aspect.Preprocessor.Error.{Preprocess, malformed_if_expr}
use aspect.Preprocessor.Defines.Scoped.{ScopedDefines, identifier_of, is_defined, expand_into}
use aspect.Preprocessor.ExprEval.Operators.{of_bool}

module _ {F : Type 0} where
  -- `(`, a name and `)`: the operand of `defined`.
  unfoldable pub operand : TokenKind F → TokenKind F → TokenKind F → Option Str
  operand TokenKind.open_paren (TokenKind.identifier tested) TokenKind.close_paren = some tested
  operand _ _ _ = none

  unfoldable pub defined_operand : List (Token F) → Option Str
  unfolding operand
  defined_operand (open_token ∷ name_token ∷ close_token ∷ rest) =
      operand open_token.kind name_token.kind close_token.kind
  defined_operand _ = none

  unfoldable pub is_defined_keyword : TokenKind F → Bool
  unfolding identifier_of
  is_defined_keyword kind = elim (identifier_of kind) [
    | none ↦ false
    | some name ↦ str_eq name (codes "defined")
  ]

  -- The integer token that takes the place of `defined(NAME)`.
  unfoldable pub definedness : ScopedDefines F → Str → Position → Token F
  definedness d tested pos =
      let found = is_defined d tested in
      new (TokenKind.integer (of_bool found)) pos (if found then codes "1" else codes "0")

  -- `expand_operands`, with the tokens still to be skipped: `i += 4` skips three more than `i += 1`.
  unfoldable pub expand_from : ScopedDefines F → ℕ → List (Token F) → Preprocess (List (Token F))
  unfolding is_defined_keyword defined_operand definedness
  expand_from d skip [] = ok []
  expand_from d (suc skip) (token ∷ rest) = expand_from d skip rest
  expand_from d zero (token ∷ rest) = elim (is_defined_keyword token.kind) [
    | true ↦ elim (defined_operand rest) [
      | none ↦ err (malformed_if_expr (codes "`defined` expects `defined(NAME)`") token.pos)
      | some tested ↦ do more ← expand_from d 3 rest; ok (definedness d tested token.pos ∷ more)
    ]
    | false ↦ do expanded ← expand_into d token; more ← expand_from d 0 rest; ok (expanded ++ more)
  ]

  unfoldable pub expand_operands : ScopedDefines F → List (Token F) → Preprocess (List (Token F))
  unfolding expand_from
  expand_operands d rest = expand_from d 0 rest
