-- ===== src/Preprocessor/ExprEval/Grammar.antt =====
-- An independent description of `$if` expressions: syntax trees, their tokens with the fewest
-- parentheses that the operators' precedences allow, and their values.
use aspect.Prelude.{
  ℕ, ◌+◌, ◌≡◌, refl, some, List, [], ◌∷◌, ◌++◌, Str, if◌then◌else◌, ltb, ok, ◌>>=◌,
}
use aspect.Prelude.Int.{ℤ}
use aspect.Lexer.Position.{Position}
use aspect.Lexer.Token.{Token, TokenKind, new}
use aspect.Preprocessor.Error.{Preprocess}
use aspect.Preprocessor.Defines.Scoped.{ScopedDefines, is_defined}
use aspect.Preprocessor.ExprEval.Operators.{of_bool, infix_prec, apply}
use aspect.Preprocessor.ExprEval.Eval.{UnaryOp, logical_not, minus, apply_unary}

pub data InfixOp : Type 0 where
  logical_or logical_and equal not_equal less greater less_equal greater_equal : InfixOp
  bit_or bit_xor bit_and shift_left shift_right add sub mul div rem : InfixOp

abbrev pub infix_kind : {F : Type 0} → InfixOp → TokenKind F
infix_kind logical_or = TokenKind.logical_or
infix_kind logical_and = TokenKind.logical_and
infix_kind equal = TokenKind.equal
infix_kind not_equal = TokenKind.not_equal
infix_kind less = TokenKind.less
infix_kind greater = TokenKind.greater
infix_kind less_equal = TokenKind.less_equal
infix_kind greater_equal = TokenKind.greater_equal
infix_kind bit_or = TokenKind.pipe
infix_kind bit_xor = TokenKind.caret
infix_kind bit_and = TokenKind.ampersand
infix_kind shift_left = TokenKind.left_shift
infix_kind shift_right = TokenKind.right_shift
infix_kind add = TokenKind.plus
infix_kind sub = TokenKind.minus
infix_kind mul = TokenKind.asterisk
infix_kind div = TokenKind.slash
infix_kind rem = TokenKind.percent

-- `||` < `&&` < comparisons < `|` < `^` < `&` < shifts < `+ -` < `* / %`.
abbrev pub prec_of : InfixOp → ℕ
prec_of logical_or = 1
prec_of logical_and = 2
prec_of equal = 3
prec_of not_equal = 3
prec_of less = 3
prec_of greater = 3
prec_of less_equal = 3
prec_of greater_equal = 3
prec_of bit_or = 4
prec_of bit_xor = 5
prec_of bit_and = 6
prec_of shift_left = 7
prec_of shift_right = 7
prec_of add = 10
prec_of sub = 10
prec_of mul = 20
prec_of div = 20
prec_of rem = 20

pub infix_prec-infix_kind :
    (F : Type 0) (op : InfixOp) → infix_prec {F = F} (infix_kind op) ≡ some (prec_of op)
unfolding infix_prec
infix_prec-infix_kind F logical_or = refl
infix_prec-infix_kind F _ = refl

abbrev pub unary_kind : {F : Type 0} → UnaryOp → TokenKind F
unary_kind logical_not = TokenKind.logical_not
unary_kind minus = TokenKind.minus

-- Each node has the position of its token; a parenthesis has that of its node.
pub data Expr : Type 0 where
  literal : Position → ℤ → Expr
  defined : Position → Str → Expr
  prefix : Position → UnaryOp → Expr → Expr
  binary : Position → InfixOp → Expr → Expr → Expr

abbrev pub position : Expr → Position
position (literal p n) = p
position (defined p name) = p
position (prefix p op e) = p
position (binary p op l r) = p

-- How tightly the outermost operator binds.
abbrev pub level : Expr → ℕ
level (binary p op l r) = prec_of op
level _ = 30

-- The value, operands first from the left, with the first error on the way.
unfoldable pub value : {F : Type 0} → ScopedDefines F → Expr → Preprocess ℤ
value d (literal p n) = ok n
value d (defined p name) = ok (of_bool (is_defined d name))
value d (prefix p op e) = do v ← value d e; ok (apply_unary op v)
value {F} d (binary p op l r) = do a ← value d l; b ← value d r; apply {F = F} (infix_kind op) a b p

-- The tokens of an expression; `spell` gives the lexemes.
module _ {F : Type 0} (spell : TokenKind F → Str) where
  abbrev pub token : TokenKind F → Position → Token F
  token kind p = new kind p (spell kind)

  abbrev pub paren : Position → List (Token F) → List (Token F)
  paren p ts = token TokenKind.open_paren p ∷ (ts ++ token TokenKind.close_paren p ∷ [])

  -- The tokens of `e` where an operand of level `min_prec` or more must stand.
  abbrev pub place : ℕ → Expr → List (Token F) → List (Token F)
  place min_prec e ts = if ltb (level e) min_prec then paren (position e) ts else ts

-- `leaf` gives the tokens of `defined(NAME)`.
module _ {F : Type 0} (spell : TokenKind F → Str) (leaf : Position → Str → List (Token F)) where
  unfoldable pub tokens_of : Expr → List (Token F)
  tokens_of (literal p n) = token spell (TokenKind.integer n) p ∷ []
  tokens_of (defined p name) = leaf p name
  tokens_of (prefix p op e) = token spell (unary_kind op) p ∷ place spell 30 e (tokens_of e)
  tokens_of (binary p op l r) =
      place spell (prec_of op) l (tokens_of l)
      ++ token spell (infix_kind op) p ∷ place spell (prec_of op + 1) r (tokens_of r)
