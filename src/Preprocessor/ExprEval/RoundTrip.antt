-- ===== src/Preprocessor/ExprEval/RoundTrip.antt =====
-- The evaluator of src/preprocessor/expr_eval.rs on the tokens of an expression.
use aspect.Prelude.{
  ℕ, zero, suc, ◌+◌, ◌*◌, ◌≤◌, ◌<◌, ◌-◌, ◌≡◌, refl, ◌∙◌, false, none, List, [], ◌∷◌, ◌++◌, arith,
  Str, codes, str_eq, inl, inr, ltb, length, length-append, ok, ◌>>=◌, >>=-ext, >>=-assoc, >>=-ok,
  Bool-cases,
}
use mathlib.Core.List.{append_assoc, append-nil}
use aspect.Prelude.Int.{ℤ}
use aspect.Lexer.Position.{Position}
use aspect.Lexer.Token.{Token, TokenKind}
use aspect.Preprocessor.Defines.Scoped.{
  ScopedDefines, identifier_of, substitution, expand_token, expand_into,
}
use aspect.Preprocessor.ExprEval.Operands.{
  definedness, is_defined_keyword, expand_from, expand_operands,
}
use aspect.Preprocessor.ExprEval.Eval.{
  UnaryOp, logical_not, minus, next_infix, expr, climb, finish, eval_expanded, eval_if_expr,
  walk_fuel,
}
use aspect.Preprocessor.ExprEval.Grammar.{
  InfixOp, infix_kind, prec_of, unary_kind, Expr, literal, defined, prefix, binary, position, level,
  value, token, place, tokens_of,
}
use aspect.Preprocessor.ExprEval.Weight.{weight, rounds, rounds-le-weight, weight_pos, cursor}
use aspect.Preprocessor.ExprEval.Climbing.{resolved, reads}

module _ {F : Type 0} (spell : TokenKind F → Str) where
  -- `defined(NAME)` as it is written.
  abbrev pub test : Position → Str → List (Token F)
  test p name =
      token spell (TokenKind.identifier (codes "defined")) p
      ∷ token spell TokenKind.open_paren p
      ∷ token spell (TokenKind.identifier name) p
      ∷ token spell TokenKind.close_paren p
      ∷ []

  -- The tokens of a `$if` line.
  abbrev pub source : Expr → List (Token F)
  source = tokens_of spell test

module _ {F : Type 0} (spell : TokenKind F → Str) (d : ScopedDefines F) where
  -- In front of any rest, `expand_operands` turns the one list into the other.
  abbrev Expands : List (Token F) → List (Token F) → Type 0
  Expands ts us =
      (rest : List (Token F))
      → expand_from d 0 (ts ++ rest) ≡ (expand_from d 0 rest >>= λ more. ok (us ++ more))

  Expands-append :
      (ts us ts' us' : List (Token F))
      → Expands ts us
      → Expands ts' us'
      → Expands (ts ++ ts') (us ++ us')
  Expands-append ts us ts' us' h h' rest =
      rw (append_assoc, h (ts' ++ rest), h' rest)
        (>>=-assoc (expand_from d 0 rest) _ _
          ∙ >>=-ext (expand_from d 0 rest) _ _ λ more. rw append_assoc)

  expand_into-plain : (t : Token F) → identifier_of t.kind ≡ none → expand_into d t ≡ ok (t ∷ [])
  unfolding expand_into expand_token substitution
  expand_into-plain t h = rw (h, expand_into, expand_token, substitution)

  is_defined_keyword-plain :
      (t : Token F) → identifier_of t.kind ≡ none → is_defined_keyword t.kind ≡ false
  unfolding is_defined_keyword
  is_defined_keyword-plain t h = rw (h, is_defined_keyword)

  Expands-plain : (t : Token F) → identifier_of t.kind ≡ none → Expands (t ∷ []) (t ∷ [])
  unfolding expand_from
  Expands-plain t h rest =
      rw (is_defined_keyword-plain t h, expand_from) (rw (expand_into-plain t h))

  Expands-test :
      (p : Position) (name : Str) → Expands (test spell p name) (definedness d name p ∷ [])
  unfolding expand_from str_eq
  Expands-test p name rest = refl

  unary-plain : (op : UnaryOp) → identifier_of (unary_kind {F = F} op) ≡ none
  unfolding identifier_of
  unary-plain logical_not = refl
  unary-plain minus = refl

  infix-plain : (op : InfixOp) → identifier_of (infix_kind {F = F} op) ≡ none
  unfolding identifier_of
  infix-plain InfixOp.logical_or = refl
  infix-plain _ = refl

  Expands-place :
      (q : ℕ) (e : Expr) (ts us : List (Token F))
      → Expands ts us
      → Expands (place spell q e ts) (place spell q e us)
  unfolding identifier_of
  Expands-place q e ts us h = elim (Bool-cases (ltb (level e) q)) [
    | inl parenthesised ↦
        let open_token = token spell TokenKind.open_paren (position e) in
        let close_token = token spell TokenKind.close_paren (position e) in
        rw parenthesised (
          Expands-append (open_token ∷ []) (open_token ∷ []) _ _ (Expands-plain open_token refl)
            (Expands-append ts us _ _ h (Expands-plain close_token refl)))
    | inr bare ↦ rw bare h
  ]

  source-Expands : (e : Expr) → Expands (source spell e) (resolved spell d e)
  unfolding tokens_of identifier_of
  source-Expands (literal p n) = Expands-plain _ refl
  source-Expands (defined p name) = Expands-test p name
  source-Expands (prefix p op e) =
      Expands-append (token spell (unary_kind op) p ∷ []) (token spell (unary_kind op) p ∷ []) _ _
        (Expands-plain _ (unary-plain op)) (Expands-place 30 e _ _ (source-Expands e))
  source-Expands (binary p op l r) =
      let o = token spell (infix_kind op) p in
      Expands-append (place spell (prec_of op) l (source spell l)) _ _ _
        (Expands-place (prec_of op) l _ _ (source-Expands l))
        (Expands-append (o ∷ []) (o ∷ []) _ _ (Expands-plain o (infix-plain op))
          (Expands-place (prec_of op + 1) r _ _ (source-Expands r)))

  length-place : (q : ℕ) (e : Expr) (ts : List (Token F)) → length ts ≤ length (place spell q e ts)
  length-place q e ts = elim (Bool-cases (ltb (level e) q)) [
    | inl parenthesised ↦ rw parenthesised (omega (arith, length-append {0} ts))
    | inr bare ↦ rw bare (omega arith)
  ]

  weight-le-length : (e : Expr) → weight e ≤ length (resolved spell d e)
  unfolding tokens_of
  weight-le-length (literal p n) = omega arith
  weight-le-length (defined p name) = omega arith
  weight-le-length (prefix p op e) =
      omega (arith, weight-le-length e, length-place 30 e (resolved spell d e))
  weight-le-length (binary p op l r) = omega (
    arith,
    weight-le-length l,
    weight-le-length r,
    length-place (prec_of op) l (resolved spell d l),
    length-place (prec_of op + 1) r (resolved spell d r),
    length-append {0} (place spell (prec_of op) l (resolved spell d l)),
  )

  eval_expanded-walk :
      (ts : List (Token F)) (p : Position)
      → 0 < length ts
      → eval_expanded ts d p ≡ (expr (walk_fuel ts) d 0 (cursor ts p) >>= λ (v, c). finish v c)
  unfolding eval_expanded
  eval_expanded-walk [] p h = absurd (omega arith)
  eval_expanded-walk (t ∷ ts) p h = refl

  climb_end :
      (k p : ℕ) (v : ℤ) (lp : Position)
      → 0 < k
      → climb k d p v (cursor [] lp) ≡ ok (v, cursor [] lp)
  unfolding climb next_infix
  climb_end zero p v lp h = absurd (omega arith)
  climb_end (suc k) p v lp h = refl

  eval_expanded-resolved :
      (e : Expr) (p : Position) → eval_expanded (resolved spell d e) d p ≡ value d e
  unfolding finish
  eval_expanded-resolved e p =
      let ts = resolved spell d e in
      let k = walk_fuel ts - rounds e in
      let enough : 5 * weight e ≤ walk_fuel ts = omega (arith, weight-le-length e) in
      let walk =
        (reads spell d e).0 (walk_fuel ts) k 0 [] p (omega arith) tt
          (omega (arith, rounds-le-weight e, weight-le-length e)) enough in
      let whole = rw append-nil at walk in
      eval_expanded-walk ts p (omega (arith, weight_pos e, weight-le-length e))
      ∙ rw whole (
          >>=-assoc (value d e) _ _
          ∙ >>=-ext (value d e) _ _
              (λ v. rw (climb_end k 0 v _ (omega (arith, rounds-le-weight e, weight-le-length e))))
          ∙ >>=-ok (value d e))

  -- Evaluating the tokens of an expression, written with the fewest parentheses that the
  -- precedences allow, gives the expression's value or its first error from the left.
  pub eval_if_expr-source :
      (e : Expr) (p : Position) → eval_if_expr (source spell e) d p ≡ value d e
  unfolding eval_if_expr expand_operands expand_from
  eval_if_expr-source e p =
      let expands = rw append-nil at (source-Expands e []) in
      rw expands (rw append-nil (eval_expanded-resolved e p))
