-- ===== src/Preprocessor/ExprEval/Total.antt =====
-- The fuel of the walk of src/preprocessor/expr_eval.rs.
use aspect.Prelude.{
  ℕ, zero, suc, ◌+◌, ◌*◌, ◌≤◌, ◌<◌, ◌≡◌, ◌≢◌, inl, inr, some, List, [], ◌∷◌, arith, Option-cases,
  length, Str, ok, err, out_of_fuel, Result, Meets, Meets-ne, Meets-ne-err, Meets-bind, Meets-never,
  Bool, true, false, if◌then◌else◌, Bool-cases,
}
use aspect.Prelude.Int.{ℤ}
use aspect.Lexer.Position.{Position}
use aspect.Lexer.Token.{Token, TokenKind}
use aspect.Preprocessor.Error.{PreprocessError, panic, if_division_by_zero}
use aspect.Preprocessor.Defines.Scoped.{ScopedDefines, is_defined, expand_into}
use aspect.Preprocessor.Defines.Expansion.{Always, expand_into-Meets}
use aspect.Preprocessor.ExprEval.Operators.{apply, infix_prec, is_zero}
use aspect.Preprocessor.ExprEval.Operands.{
  is_defined_keyword, defined_operand, expand_from, expand_operands,
}
use aspect.Preprocessor.ExprEval.Eval.{
  Cursor, UnaryOp, advance, next_infix, next_unary, closing, close_paren, expr, climb, unary,
  primary, primary_token, name_error, finish, eval_expanded, eval_if_expr, walk_fuel,
}

-- A failure that the program reports: any but a panic.
abbrev Reported : PreprocessError → Type 0
Reported panic = ⊥
Reported _ = Unit

division :
    (b : Bool) (p : Position) (v : ℤ)
    → Meets Always Reported (if b then err (if_division_by_zero p) else ok v)
division true p v = tt
division false p v = tt

module _ {F : Type 0} where
  abbrev left_over : Cursor F → ℕ
  left_over c = length c.tokens

  -- Fewer tokens are left than there were.
  abbrev Shorter : ℕ → ℤ × Cursor F → Type 0
  Shorter n r = left_over r.1 < n

  -- On the token of an infix operator `apply` does not reach its `unreachable!`.
  apply-Meets :
      (kind : TokenKind F) (l r : ℤ) (p : Position) {prec : ℕ}
      → infix_prec kind ≡ some prec
      → Meets Always Reported (apply kind l r p)
  unfolding apply infix_prec
  apply-Meets TokenKind.logical_or l r p e = tt
  apply-Meets TokenKind.logical_and l r p e = tt
  apply-Meets TokenKind.equal l r p e = tt
  apply-Meets TokenKind.not_equal l r p e = tt
  apply-Meets TokenKind.less l r p e = tt
  apply-Meets TokenKind.greater l r p e = tt
  apply-Meets TokenKind.less_equal l r p e = tt
  apply-Meets TokenKind.greater_equal l r p e = tt
  apply-Meets TokenKind.pipe l r p e = tt
  apply-Meets TokenKind.caret l r p e = tt
  apply-Meets TokenKind.ampersand l r p e = tt
  apply-Meets TokenKind.left_shift l r p e = tt
  apply-Meets TokenKind.right_shift l r p e = tt
  apply-Meets TokenKind.plus l r p e = tt
  apply-Meets TokenKind.minus l r p e = tt
  apply-Meets TokenKind.asterisk l r p e = tt
  apply-Meets TokenKind.slash l r p e = division (is_zero r) p _
  apply-Meets TokenKind.percent l r p e = division (is_zero r) p _
  apply-Meets _ l r p e = cc

  next_infix-prec :
      (p : ℕ) (c : Cursor F) {prec : ℕ} {token : Token F} {behind : Cursor F}
      → next_infix p c ≡ some (prec, token, behind)
      → infix_prec token.kind ≡ some prec
  unfolding next_infix
  next_infix-prec p c e = ground arith

  advance-left_over :
      (c : Cursor F) {token : Token F} {behind : Cursor F}
      → advance c ≡ some (token, behind)
      → left_over c ≡ suc (left_over behind)
  unfolding advance
  advance-left_over c e = ground arith

  next_infix-left_over :
      (p : ℕ) (c : Cursor F) {prec : ℕ} {token : Token F} {behind : Cursor F}
      → next_infix p c ≡ some (prec, token, behind)
      → left_over c ≡ suc (left_over behind)
  unfolding next_infix
  next_infix-left_over p c e = ground arith

  next_unary-left_over :
      (c : Cursor F) {op : UnaryOp} {behind : Cursor F}
      → next_unary c ≡ some (op, behind)
      → left_over c ≡ suc (left_over behind)
  unfolding next_unary
  next_unary-left_over c e = ground arith

  closing-Meets :
      (v : ℤ) (kind : TokenKind F) (token : Token F) (behind : Cursor F) (n : ℕ)
      → left_over behind < n
      → Meets (Shorter n) Reported (closing v kind token behind)
  unfolding closing
  closing-Meets v TokenKind.close_paren token behind n h = h
  closing-Meets v _ token behind n h = tt

  close_paren-Meets :
      (p : Position) (v : ℤ) (c : Cursor F)
      → Meets (Shorter (left_over c)) Reported (close_paren p v c)
  unfolding close_paren
  close_paren-Meets p v c = elim (Option-cases (advance c)) [
    | inl e ↦ rw (e, close_paren, Meets) tt
    | inr ((token, behind), e) ↦
        rw (e, close_paren)
          (closing-Meets v token.kind token behind (left_over c)
            (omega (arith, advance-left_over c e)))
  ]

  Meets-weaken :
      (m n : ℕ) (r : Result PreprocessError (ℤ × Cursor F))
      → m ≤ n
      → Meets (Shorter m) Reported r
      → Meets (Shorter n) Reported r
  Meets-weaken m n (ok a) le h = omega arith
  Meets-weaken m n (err e) le h = h
  Meets-weaken m n out_of_fuel le h = absurd h

  name_error-Reported :
      (d : ScopedDefines F) (name : Str) (pos : Position) → Reported (name_error d name pos)
  unfolding name_error
  name_error-Reported d name pos = elim (Bool-cases (is_defined d name)) [
    | inl e ↦ rw e tt
    | inr e ↦ rw e tt
  ]

-- One induction on the fuel, over the whole block.
mutual
  unfolding expr

  expr-Meets :
      {F : Type 0} (fuel : ℕ) (d : ScopedDefines F) (p : ℕ) (c : Cursor F)
      → 4 * left_over c + 5 ≤ fuel
      → Meets (Shorter (left_over c)) Reported (expr fuel d p c)
  expr-Meets zero d p c h = absurd (omega arith)
  expr-Meets (suc fuel) d p c h =
      Meets-bind (Shorter (left_over c)) (Shorter (left_over c)) Reported (unary fuel d c) _
        (unary-Meets fuel d c (omega arith))
        λ (v, behind) s.
          Meets-weaken (suc (left_over behind)) (left_over c) _ s
            (climb-Meets fuel d p v behind (omega arith))

  climb-Meets :
      {F : Type 0} (fuel : ℕ) (d : ScopedDefines F) (p : ℕ) (left : ℤ) (c : Cursor F)
      → 4 * left_over c + 2 ≤ fuel
      → Meets (Shorter (suc (left_over c))) Reported (climb fuel d p left c)
  climb-Meets zero d p left c h = absurd (omega arith)
  climb-Meets (suc fuel) d p left c h = elim (Option-cases (next_infix p c)) [
    | inl e ↦ rw (e, climb, Meets) (omega arith)
    | inr ((prec, token, behind), e) ↦
        rw (e, climb)
          (Meets-bind (Shorter (left_over behind)) (Shorter (suc (left_over c))) Reported
            (expr fuel d (prec + 1) behind) _
            (expr-Meets fuel d (prec + 1) behind (omega (arith, next_infix-left_over p c e)))
            λ (right, c') s.
              Meets-bind Always (Shorter (suc (left_over c))) Reported
                (apply token.kind left right token.pos) _
                (apply-Meets token.kind left right token.pos (next_infix-prec p c e))
                λ v _.
                  Meets-weaken (suc (left_over c')) (suc (left_over c)) _
                    (omega (arith, next_infix-left_over p c e))
                    (climb-Meets fuel d p v c' (omega (arith, next_infix-left_over p c e))))
  ]

  unary-Meets :
      {F : Type 0} (fuel : ℕ) (d : ScopedDefines F) (c : Cursor F)
      → 4 * left_over c + 4 ≤ fuel
      → Meets (Shorter (left_over c)) Reported (unary fuel d c)
  unary-Meets zero d c h = absurd (omega arith)
  unary-Meets (suc fuel) d c h = elim (Option-cases (next_unary c)) [
    | inl e ↦ rw (e, unary) (primary-Meets fuel d c (omega arith))
    | inr ((op, behind), e) ↦
        rw (e, unary)
          (Meets-bind (Shorter (left_over behind)) (Shorter (left_over c)) Reported
            (unary fuel d behind) _
            (unary-Meets fuel d behind (omega (arith, next_unary-left_over c e)))
            λ (v, c') s. omega (arith, next_unary-left_over c e))
  ]

  primary-Meets :
      {F : Type 0} (fuel : ℕ) (d : ScopedDefines F) (c : Cursor F)
      → 4 * left_over c + 3 ≤ fuel
      → Meets (Shorter (left_over c)) Reported (primary fuel d c)
  primary-Meets zero d c h = absurd (omega arith)
  primary-Meets (suc fuel) d c h = elim (Option-cases (advance c)) [
    | inl e ↦ rw (e, primary, Meets) tt
    | inr ((token, behind), e) ↦
        rw (e, primary)
          (Meets-weaken (suc (left_over behind)) (left_over c) _
            (omega (arith, advance-left_over c e))
            (primary_token-Meets fuel d token.kind token behind
              (omega (arith, advance-left_over c e))))
  ]

  primary_token-Meets :
      {F : Type 0} (fuel : ℕ) (d : ScopedDefines F) (kind : TokenKind F) (token : Token F)
      (behind : Cursor F)
      → 4 * left_over behind + 6 ≤ fuel
      → Meets (Shorter (suc (left_over behind))) Reported (primary_token fuel d kind token behind)
  primary_token-Meets zero d kind token behind h = absurd (omega arith)
  primary_token-Meets (suc fuel) d TokenKind.open_paren token behind h =
      Meets-bind (Shorter (left_over behind)) (Shorter (suc (left_over behind))) Reported
        (expr fuel d 0 behind) _ (expr-Meets fuel d 0 behind (omega arith))
        λ (v, c) s.
          Meets-weaken (left_over c) (suc (left_over behind)) _ (omega arith)
            (close_paren-Meets token.pos v c)
  primary_token-Meets (suc fuel) d (TokenKind.integer value) token behind h = omega arith
  primary_token-Meets (suc fuel) d (TokenKind.identifier name) token behind h =
      name_error-Reported d name token.pos
  primary_token-Meets (suc fuel) d kind token behind h = tt

module _ {F : Type 0} where
  expand_from-Meets :
      (d : ScopedDefines F) (skip : ℕ) (tokens : List (Token F))
      → Meets Always Reported (expand_from d skip tokens)
  unfolding expand_from
  expand_from-Meets d skip [] = tt
  expand_from-Meets d (suc skip) (token ∷ rest) = expand_from-Meets d skip rest
  expand_from-Meets d zero (token ∷ rest) = elim (Bool-cases (is_defined_keyword token.kind)) [
    | inl e ↦ elim (Option-cases (defined_operand rest)) [
      | inl o ↦ rw (e, o, expand_from, Meets) tt
      | inr (tested, o) ↦
          rw (e, o, expand_from)
            (Meets-bind Always Always Reported (expand_from d 3 rest) _ (expand_from-Meets d 3 rest)
              λ more _. tt)
    ]
    | inr e ↦
        rw (e, expand_from)
          (Meets-bind Always Always Reported (expand_into d token) _
            (Meets-never Always Reported (expand_into d token) (expand_into-Meets d token))
            λ expanded _.
              Meets-bind Always Always Reported (expand_from d 0 rest) _
                (expand_from-Meets d 0 rest) λ more _. tt)
  ]

  finish-Meets : (v : ℤ) (c : Cursor F) → Meets Always Reported (finish v c)
  unfolding finish
  finish-Meets v c = ground arith

  eval_expanded-Meets :
      (tokens : List (Token F)) (d : ScopedDefines F) (p : Position)
      → Meets Always Reported (eval_expanded tokens d p)
  unfolding eval_expanded
  eval_expanded-Meets [] d p = tt
  eval_expanded-Meets (token ∷ tokens) d p =
      Meets-bind (Shorter (length (token ∷ tokens))) Always Reported _ _
        (expr-Meets (walk_fuel (token ∷ tokens)) d 0
          (record { tokens = token ∷ tokens; last_pos = p }) (omega arith))
        λ (v, c) _. finish-Meets v c

  eval_if_expr-Meets :
      (rest : List (Token F)) (d : ScopedDefines F) (p : Position)
      → Meets Always Reported (eval_if_expr rest d p)
  unfolding eval_if_expr expand_operands
  eval_if_expr-Meets rest d p =
      Meets-bind Always Always Reported (expand_from d 0 rest) _ (expand_from-Meets d 0 rest)
        λ expanded _. eval_expanded-Meets expanded d p

  pub eval_if_expr_total :
      (rest : List (Token F)) (d : ScopedDefines F) (p : Position)
      → (eval_if_expr rest d p ≢ out_of_fuel) × (eval_if_expr rest d p ≢ err panic)
  eval_if_expr_total rest d p =
      let meets = eval_if_expr-Meets rest d p in
      (
        Meets-ne Always Reported (eval_if_expr rest d p) meets,
        Meets-ne-err Always Reported (eval_if_expr rest d p) panic (λ r. r) meets,
      )
