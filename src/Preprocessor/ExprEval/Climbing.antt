-- ===== src/Preprocessor/ExprEval/Climbing.antt =====
-- How the walk of src/preprocessor/expr_eval.rs reads the tokens of an expression in front of others.
use aspect.Prelude.{
  ℕ, zero, suc, ◌+◌, ◌-◌, ◌*◌, ◌≤◌, ◌<◌, ◌≡◌, refl, sym, subst, ◌∙◌, inl, inr, some, List, [], ◌∷◌,
  ◌++◌, arith, Str, ltb, ok, ◌>>=◌, >>=-ext, >>=-assoc, Bool-cases, le→ltb_false, ltb_false→le,
}
use mathlib.Core.List.{append_assoc}
use aspect.Prelude.Int.{ℤ}
use aspect.Lexer.Position.{Position}
use aspect.Lexer.Token.{Token, TokenKind, new}
use aspect.Preprocessor.Defines.Scoped.{ScopedDefines}
use aspect.Preprocessor.ExprEval.Operators.{infix_prec, apply}
use aspect.Preprocessor.ExprEval.Operands.{definedness}
use aspect.Preprocessor.ExprEval.Eval.{
  UnaryOp, logical_not, minus, next_infix, next_unary, close_paren, expr, climb, unary,
}
use aspect.Preprocessor.ExprEval.Grammar.{
  InfixOp, infix_kind, prec_of, infix_prec-infix_kind, Expr, literal, defined, prefix, binary,
  position, level, value, token, paren, place, tokens_of,
}
use aspect.Preprocessor.ExprEval.Weight.{
  weight, rounds, placed_rounds, prec_of-le, level-le, weight_pos, rounds-le-weight,
  placed_rounds-le, last_of, last_of-append, cursor, Stops, Stops-mono, climb-Stops,
}

module _ {F : Type 0} (spell : TokenKind F → Str) (d : ScopedDefines F) where
  -- The tokens of an expression once `defined(NAME)` is resolved.
  abbrev pub resolved : Expr → List (Token F)
  resolved = tokens_of spell λ p name. definedness d name p ∷ []

  abbrev placed : ℕ → Expr → List (Token F)
  placed q e = place spell q e (resolved e)

  climb_close :
      (k p : ℕ) (v : ℤ) (at : Position) (rest : List (Token F)) (lp : Position)
      → 0 < k
      → climb k d p v (cursor (token spell TokenKind.close_paren at ∷ rest) lp)
        ≡ ok (v, cursor (token spell TokenKind.close_paren at ∷ rest) lp)
  unfolding climb next_infix infix_prec
  climb_close zero p v at rest lp h = absurd (omega arith)
  climb_close (suc k) p v at rest lp h = refl

  abbrev ReadsBody : Expr → Type 0
  ReadsBody e =
      (f k p : ℕ) (rest : List (Token F)) (lp : Position)
      → p ≤ level e
      → Stops (level e) rest
      → f ≡ rounds e + k
      → 5 * weight e ≤ f
      → expr f d p (cursor (resolved e ++ rest) lp)
        ≡ (value d e >>= λ v. climb k d p v (cursor rest (last_of (resolved e) lp)))

  -- `unary` reads these tokens, and their value is that of `e`.
  abbrev ReadsUnary : ℕ → Expr → List (Token F) → Type 0
  ReadsUnary f e ts =
      (rest : List (Token F)) (lp : Position)
      → unary f d (cursor (ts ++ rest) lp)
        ≡ (value d e >>= λ v. ok (v, cursor rest (last_of ts lp)))

  -- Inside the parentheses the walk is back at precedence 0.
  unary-paren :
      (e : Expr) (f : ℕ)
      → ReadsBody e
      → 5 * weight e ≤ f
      → ReadsUnary (suc (suc (suc f))) e (paren spell (position e) (resolved e))
  unfolding unary next_unary close_paren infix_prec
  unary-paren e f ih h rest lp =
      let at = position e in
      let close = token spell TokenKind.close_paren at in
      let k = f - rounds e in
      rw
        (
          append_assoc,
          ih f k 0 (close ∷ rest) at (omega arith) tt (omega (arith, rounds-le-weight e)) h,
          last_of-append,
        )
        (>>=-assoc (value d e) _ _
          ∙ >>=-ext (value d e) _ _ λ v.
            rw (climb_close k 0 v at rest _ (omega (arith, rounds-le-weight e, weight_pos e))))

  -- The tokens of `e` as an operand of level `q`, read by `expr` at a lower or equal precedence.
  abbrev ReadsPlaced : ℕ → Expr → Type 0
  ReadsPlaced q e =
      (f k p : ℕ) (rest : List (Token F)) (lp : Position)
      → p ≤ q
      → Stops q rest
      → f ≡ placed_rounds q e + k
      → 5 * weight e + 4 ≤ f
      → expr f d p (cursor (placed q e ++ rest) lp)
        ≡ (value d e >>= λ v. climb k d p v (cursor rest (last_of (placed q e) lp)))

  -- An operand that `unary` reads takes one round of fuel.
  expr-unary :
      (e : Expr) (ts : List (Token F)) (k p : ℕ) (rest : List (Token F)) (lp : Position)
      → ReadsUnary k e ts
      → expr (suc k) d p (cursor (ts ++ rest) lp)
        ≡ (value d e >>= λ v. climb k d p v (cursor rest (last_of ts lp)))
  unfolding expr
  expr-unary e ts k p rest lp h = rw h (>>=-assoc (value d e) _ _)

  fuel_split : (n f : ℕ) → n ≤ f → f ≡ n + (f - n)
  fuel_split n f h = omega arith

  place-ReadsPlaced : (q : ℕ) (e : Expr) → ReadsBody e → ReadsPlaced q e
  place-ReadsPlaced q e ih f k p rest lp pq s fk h = elim (Bool-cases (ltb (level e) q)) [
    | inl parenthesised ↦
        let ts = paren spell (position e) (resolved e) in
        let f' = k - 3 in
        let rounds_one : f ≡ 1 + k = rw parenthesised at fk in
        let k_eq : k ≡ suc (suc (suc f')) = omega arith in
        let f_eq : f ≡ suc k = omega arith in
        let reads : ReadsUnary k e ts =
          subst (λ n. ReadsUnary n e ts) (sym k_eq) (unary-paren e f' ih (omega arith)) in
        rw (parenthesised, f_eq) (expr-unary e ts k p rest lp reads)
    | inr bare ↦
        let enough : q ≤ level e = ltb_false→le (level e) q bare in
        rw bare (
          ih f k p rest lp (omega arith) (Stops-mono q (level e) rest enough s) (rw bare at fk)
            (omega arith))
  ]

  -- The operand of a unary operator: only a binary expression is parenthesised.
  place-ReadsUnary :
      (e : Expr) (f : ℕ)
      → ReadsBody e
      → (level e ≡ 30 → ReadsUnary f e (resolved e))
      → 5 * weight e + 3 ≤ f
      → ReadsUnary f e (placed 30 e)
  place-ReadsUnary e f ih direct h = elim (Bool-cases (ltb (level e) 30)) [
    | inl parenthesised ↦
        let ts = paren spell (position e) (resolved e) in
        let f_eq : f ≡ suc (suc (suc (f - 3))) = omega arith in
        let reads : ReadsUnary f e ts =
          subst (λ n. ReadsUnary n e ts) (sym f_eq) (unary-paren e (f - 3) ih (omega arith)) in
        rw parenthesised reads
    | inr bare ↦ rw bare (direct (omega (arith, ltb_false→le (level e) 30 bare, level-le e)))
  ]

  -- What `unary` reads by itself is a body of one round.
  unary-ReadsBody :
      (e : Expr)
      → rounds e ≡ 1
      → ((f : ℕ) → 5 * weight e ≤ f + 1 → ReadsUnary f e (resolved e))
      → ReadsBody e
  unary-ReadsBody e one direct f k p rest lp pl s fk h =
      let f_eq : f ≡ suc k = omega arith in
      rw f_eq (expr-unary e (resolved e) k p rest lp (direct k (omega arith)))

  next_infix-op :
      (p : ℕ) (op : InfixOp) (at : Position) (rest : List (Token F)) (lp : Position)
      → p ≤ prec_of op
      → next_infix p (cursor (token spell (infix_kind op) at ∷ rest) lp)
        ≡ some (prec_of op, token spell (infix_kind op) at, cursor rest at)
  unfolding next_infix
  next_infix-op p op at rest lp h =
      rw (infix_prec-infix_kind F op, next_infix) (rw (le→ltb_false (prec_of op) p h))

  -- One round of the loop: an operator and its right operand.
  climb-op :
      (k p : ℕ) (op : InfixOp) (at : Position) (a : ℤ) (r : Expr) (rest : List (Token F))
      (lp : Position)
      → ReadsPlaced (prec_of op + 1) r
      → p ≤ prec_of op
      → Stops (prec_of op) rest
      → 5 * weight r + 4 ≤ k
      → climb
          (suc k)
          d
          p
          a
          (cursor (token spell (infix_kind op) at ∷ placed (prec_of op + 1) r ++ rest) lp)
        ≡ (value d r >>= λ b. apply {F = F} (infix_kind op) a b at >>= λ v.
            climb k d p v (cursor rest (last_of (placed (prec_of op + 1) r) at)))
  unfolding climb
  climb-op k p op at a r rest lp ih h s fuel =
      let q = prec_of op in
      let j = k - placed_rounds (q + 1) r in
      let spare : placed_rounds (q + 1) r ≤ weight r = placed_rounds-le (q + 1) r in
      rw (next_infix-op p op at (placed (q + 1) r ++ rest) lp h, climb)
        (rw
          (ih k j (q + 1) rest at (omega arith) (Stops-mono q (q + 1) rest (omega arith) s)
            (omega arith) fuel)
          (>>=-assoc (value d r) _ _
            ∙ >>=-ext (value d r) _ _
                λ b. rw (climb-Stops j d (q + 1) q b rest _ s (omega arith) (omega arith))))

  binary-ReadsBody :
      (at : Position) (op : InfixOp) (l r : Expr)
      → ReadsPlaced (prec_of op) l
      → ReadsPlaced (prec_of op + 1) r
      → ReadsBody (binary at op l r)
  unfolding tokens_of value
  binary-ReadsBody at op l r ihl ihr f k p rest lp h s fk fuel =
      let q = prec_of op in
      let pl = placed q l in
      let pr = placed (q + 1) r in
      let o = token spell (infix_kind op) at in
      let spare : placed_rounds q l ≤ weight l = placed_rounds-le q l in
      let here : Stops q (o ∷ (pr ++ rest)) =
        rw (infix_prec-infix_kind F op, Stops) (omega arith) in
      rw
        (
          append_assoc,
          ihl f (suc k) p (o ∷ (pr ++ rest)) lp h here (omega arith) (omega arith),
          last_of-append,
        )
        (>>=-ext (value d l) _ _ (λ a.
            climb-op k p op at a r rest (last_of pl lp) ihr h s (omega arith)
            ∙ sym (>>=-assoc (value d r) _ _))
          ∙ sym (>>=-assoc (value d l) _ _))

  unary-integer :
      (f : ℕ) (n : ℤ) (at : Position) (lexeme : Str) (rest : List (Token F)) (lp : Position)
      → 4 ≤ f
      → unary f d (cursor (new (TokenKind.integer n) at lexeme ∷ rest) lp) ≡ ok (n, cursor rest at)
  unfolding unary next_unary
  unary-integer zero n at lexeme rest lp h = absurd (omega arith)
  unary-integer (suc zero) n at lexeme rest lp h = absurd (omega arith)
  unary-integer (suc (suc zero)) n at lexeme rest lp h = absurd (omega arith)
  unary-integer (suc (suc (suc f))) n at lexeme rest lp h = refl

  unary-op :
      (f : ℕ) (op : UnaryOp) (at : Position) (e : Expr)
      → ReadsUnary f e (placed 30 e)
      → ReadsUnary (suc f) (prefix at op e) (resolved (prefix at op e))
  unfolding unary next_unary tokens_of value
  unary-op f logical_not at e h rest lp =
      rw (h rest at) (>>=-assoc (value d e) _ _ ∙ sym (>>=-assoc (value d e) _ _))
  unary-op f minus at e h rest lp =
      rw (h rest at) (>>=-assoc (value d e) _ _ ∙ sym (>>=-assoc (value d e) _ _))

  prefix-ReadsUnary :
      (at : Position) (op : UnaryOp) (e : Expr)
      → ReadsBody e
      → (level e ≡ 30 → (f : ℕ) → 5 * weight e ≤ f + 1 → ReadsUnary f e (resolved e))
      → (f : ℕ) → 5 * (weight e + 1) ≤ f + 1
      → ReadsUnary f (prefix at op e) (resolved (prefix at op e))
  prefix-ReadsUnary at op e body direct zero h = absurd (omega arith)
  prefix-ReadsUnary at op e body direct (suc f) h =
      unary-op f op at e
        (place-ReadsUnary e f body (λ full. direct full f (omega arith)) (omega arith))

  -- By induction on the expression, both ways in which the walk comes upon it.
  pub reads :
      (e : Expr)
      → ReadsBody e × (level e ≡ 30 → (f : ℕ) → 5 * weight e ≤ f + 1 → ReadsUnary f e (resolved e))
  unfolding tokens_of value definedness
  reads (literal at n) =
      let direct = λ (f : ℕ) (h : 5 ≤ f + 1) (rest : List (Token F)) (lp : Position).
        unary-integer f n at (spell (TokenKind.integer n)) rest lp (omega arith) in
      (unary-ReadsBody (literal at n) refl direct, λ _. direct)
  reads (defined at name) =
      let direct = λ (f : ℕ) (h : 5 ≤ f + 1) (rest : List (Token F)) (lp : Position).
        unary-integer f _ at _ rest lp (omega arith) in
      (unary-ReadsBody (defined at name) refl direct, λ _. direct)
  reads (prefix at op e) =
      let direct = prefix-ReadsUnary at op e (reads e).0 (reads e).1 in
      (unary-ReadsBody (prefix at op e) refl direct, λ _. direct)
  reads (binary at op l r) = (
    binary-ReadsBody at op l r (place-ReadsPlaced (prec_of op) l (reads l).0)
        (place-ReadsPlaced (prec_of op + 1) r (reads r).0),
    λ full. absurd (omega (arith, prec_of-le op)),
  )
