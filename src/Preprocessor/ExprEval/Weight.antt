-- ===== src/Preprocessor/ExprEval/Weight.antt =====
-- How much of an expression there is to walk, and where the walk over its infix operators stops.
use aspect.Prelude.{
  ℕ, zero, suc, ◌+◌, ◌≤◌, ◌<◌, ◌≡◌, refl, none, some, List, [], ◌∷◌, ◌++◌, arith, if◌then◌else◌,
  ltb, ok,
}
use aspect.Prelude.Int.{ℤ}
use aspect.Lexer.Position.{Position}
use aspect.Lexer.Token.{Token}
use aspect.Preprocessor.Defines.Scoped.{ScopedDefines}
use aspect.Preprocessor.ExprEval.Operators.{infix_prec}
use aspect.Preprocessor.ExprEval.Eval.{Cursor, next_infix, climb}
use aspect.Preprocessor.ExprEval.Grammar.{
  InfixOp, prec_of, Expr, literal, defined, prefix, binary, level,
}

-- Operators and operands of an expression, and the rounds of the loop over its left spine.
abbrev pub weight : Expr → ℕ
weight (literal p n) = 1
weight (defined p name) = 1
weight (prefix p op e) = weight e + 1
weight (binary p op l r) = weight l + weight r + 1

abbrev pub rounds : Expr → ℕ
rounds (binary p op l r) = (if ltb (level l) (prec_of op) then 1 else rounds l) + 1
rounds _ = 1

abbrev pub placed_rounds : ℕ → Expr → ℕ
placed_rounds q e = if ltb (level e) q then 1 else rounds e

pub prec_of-le : (op : InfixOp) → prec_of op ≤ 20
prec_of-le InfixOp.logical_or = omega arith
prec_of-le _ = omega arith

pub level-le : (e : Expr) → level e ≤ 30
level-le (binary p op l r) = omega (arith, prec_of-le op)
level-le (literal p n) = omega arith
level-le (defined p n) = omega arith
level-le (prefix p op e) = omega arith

pub weight_pos : (e : Expr) → 0 < weight e
weight_pos (literal p n) = omega arith
weight_pos _ = omega arith

pub rounds-le-weight : (e : Expr) → rounds e ≤ weight e
rounds-le-weight (binary p op l r) = ground (arith, rounds-le-weight l, weight_pos l, weight_pos r)
rounds-le-weight (literal p n) = omega arith
rounds-le-weight (defined p n) = omega arith
rounds-le-weight (prefix p op e) = omega arith

pub placed_rounds-le : (q : ℕ) (e : Expr) → placed_rounds q e ≤ weight e
placed_rounds-le q e = ground (arith, rounds-le-weight e, weight_pos e)

module _ {F : Type 0} where
  -- The position of the last token, or the one given.
  abbrev pub last_of : List (Token F) → Position → Position
  last_of [] lp = lp
  last_of (t ∷ ts) lp = last_of ts t.pos

  pub last_of-append :
      (xs ys : List (Token F)) (lp : Position) → last_of (xs ++ ys) lp ≡ last_of ys (last_of xs lp)
  last_of-append [] ys lp = refl
  last_of-append (x ∷ xs) ys lp = last_of-append xs ys x.pos

  abbrev pub cursor : List (Token F) → Position → Cursor F
  cursor ts lp = record { tokens = ts; last_pos = lp }

  -- An infix operator at the front binds at most as tightly as `q`.
  abbrev pub Stops : ℕ → List (Token F) → Type 0
  Stops q [] = Unit
  Stops q (t ∷ ts) = elim (infix_prec t.kind) [ none ↦ Unit {0} | some prec ↦ prec ≤ q ]

  pub Stops-mono : (q r : ℕ) (rest : List (Token F)) → q ≤ r → Stops q rest → Stops r rest
  Stops-mono q r [] le s = tt
  Stops-mono q r (t ∷ ts) le s = ground arith

  pub climb-Stops :
      (k : ℕ) (d : ScopedDefines F) (p q : ℕ) (v : ℤ) (rest : List (Token F)) (lp : Position)
      → Stops q rest
      → q < p
      → 0 < k
      → climb k d p v (cursor rest lp) ≡ ok (v, cursor rest lp)
  unfolding climb next_infix
  climb-Stops zero d p q v rest lp s h pos = absurd (omega arith)
  climb-Stops (suc k) d p q v [] lp s h pos = refl
  climb-Stops (suc k) d p q v (t ∷ ts) lp s h pos = ground arith
