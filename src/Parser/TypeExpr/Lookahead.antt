-- ===== src/Parser/TypeExpr/Lookahead.antt =====
-- Telling a declaration from an expression: the `starts_*` lookaheads of src/parser/type_expr.rs.
-- The index that a loop moves over the tokens is the list of the tokens from there on.
use aspect.Prelude.{
  ℕ, zero, suc, ◌≡◌, refl, ap, some-inj, Bool, true, false, Option, none, some, List, [], ◌∷◌, map,
  drop, get_elem?,
}
use aspect.Prelude.Checked.{Checked, returns, panics, ◌>>!◌, expect-eq}
use aspect.Lexer.Token.{Token, TokenKind, Keyword}
use aspect.Symbol.Module.Registry.{type_id}
use aspect.Parser.State.{Parser, peek}

module _ {F : Type 0} where
  unfoldable pub kinds_from : List (Token F) → ℕ → List (TokenKind F)
  kinds_from tokens i = map (λ t. t.kind) (drop i tokens)

  unfoldable pub stars_then_ident : List (TokenKind F) → Bool
  stars_then_ident (TokenKind.asterisk ∷ rest) = stars_then_ident rest
  stars_then_ident (TokenKind.identifier name ∷ rest) = true
  stars_then_ident _ = false

  unfoldable pub suffix_then_ident : List (TokenKind F) → Bool
  unfolding stars_then_ident
  suffix_then_ident
        (TokenKind.open_bracket ∷ TokenKind.integer n ∷ TokenKind.close_bracket ∷ rest) =
      stars_then_ident rest
  suffix_then_ident rest = stars_then_ident rest

  unfoldable pub type_suffix_then_ident : Parser F → ℕ → Bool
  unfolding suffix_then_ident kinds_from
  type_suffix_then_ident p i = suffix_then_ident (kinds_from p.tokens i)

  unfoldable pub starts_with_ident : List (TokenKind F) → Bool
  starts_with_ident (TokenKind.identifier name ∷ rest) = true
  starts_with_ident _ = false

  unfoldable pub named_decl : Parser F → Option ℕ → Bool
  unfolding type_suffix_then_ident starts_with_ident
  named_decl p (some id) = type_suffix_then_ident p (suc p.current)
  named_decl p none = starts_with_ident (kinds_from p.tokens (suc p.current))

  unfoldable pub named_decl_at : Parser F → TokenKind F → Bool
  unfolding named_decl
  named_decl_at p (TokenKind.identifier name) = named_decl p (type_id p.module_symbols name)
  named_decl_at p _ = false

  unfoldable pub starts_named_var_decl : Parser F → Checked Bool
  unfolding peek named_decl_at
  starts_named_var_decl p = peek p >>! λ t. returns (named_decl_at p t.kind)

  unfoldable pub starts_with_paren : List (TokenKind F) → Bool
  starts_with_paren (TokenKind.open_paren ∷ rest) = true
  starts_with_paren _ = false

  unfoldable pub fnptr_decl_at : Parser F → TokenKind F → Bool
  unfolding starts_with_paren
  fnptr_decl_at p (TokenKind.keyword Keyword.fn) =
      starts_with_paren (kinds_from p.tokens (suc p.current))
  fnptr_decl_at p _ = false

  unfoldable pub starts_fnptr_var_decl : Parser F → Checked Bool
  unfolding peek fnptr_decl_at
  starts_fnptr_var_decl p = peek p >>! λ t. returns (fnptr_decl_at p t.kind)

  -- What stands behind the balanced group; `)` at depth 0 is a subtraction that overflows.
  unfoldable pub behind_group : List (TokenKind F) → ℕ → Checked (Option (List (TokenKind F)))
  behind_group [] depth = returns none
  behind_group (TokenKind.open_paren ∷ rest) depth = behind_group rest (suc depth)
  behind_group (TokenKind.close_paren ∷ rest) zero = panics
  behind_group (TokenKind.close_paren ∷ rest) (suc zero) = returns (some rest)
  behind_group (TokenKind.close_paren ∷ rest) (suc (suc depth)) = behind_group rest (suc depth)
  behind_group (TokenKind.eof ∷ rest) depth = returns none
  behind_group (_ ∷ rest) depth = behind_group rest depth

  unfoldable pub suffix_behind : Option (List (TokenKind F)) → Bool
  unfolding suffix_then_ident
  suffix_behind none = false
  suffix_behind (some rest) = suffix_then_ident rest

  unfoldable pub grouped_decl_at : Parser F → TokenKind F → Checked Bool
  unfolding behind_group suffix_behind
  grouped_decl_at p TokenKind.open_paren =
      behind_group (kinds_from p.tokens p.current) 0 >>! λ rest. returns (suffix_behind rest)
  grouped_decl_at p _ = returns false

  unfoldable pub starts_grouped_var_decl : Parser F → Checked Bool
  unfolding peek grouped_decl_at
  starts_grouped_var_decl p = peek p >>! λ t. grouped_decl_at p t.kind

  -- Behind an opening parenthesis the depth never falls below one.
  behind_group-returns :
      (kinds : List (TokenKind F)) (depth : ℕ)
      → (o : Option (List (TokenKind F))) × (behind_group kinds (suc depth) ≡ returns o)
  unfolding behind_group
  behind_group-returns [] depth = (none, refl)
  behind_group-returns (TokenKind.open_paren ∷ rest) depth = behind_group-returns rest (suc depth)
  behind_group-returns (TokenKind.close_paren ∷ rest) zero = (some rest, refl)
  behind_group-returns (TokenKind.close_paren ∷ rest) (suc depth) = behind_group-returns rest depth
  behind_group-returns (TokenKind.eof ∷ rest) depth = (none, refl)
  behind_group-returns (_ ∷ rest) depth = behind_group-returns rest depth

  kinds_from-head :
      (tokens : List (Token F)) (i : ℕ) (t : Token F)
      → get_elem? tokens i ≡ some t
      → (rest : List (TokenKind F)) × (kinds_from tokens i ≡ t.kind ∷ rest)
  unfolding kinds_from
  kinds_from-head [] i t h = cc
  kinds_from-head (u ∷ tokens) zero t h =
      (map (λ u. u.kind) tokens, ap (λ u. u.kind ∷ map (λ u. u.kind) tokens) (some-inj h))
  kinds_from-head (u ∷ tokens) (suc i) t h = kinds_from-head tokens i t h

  grouped_at-returns :
      (p : Parser F) (kind : TokenKind F) (rest : List (TokenKind F))
      → kinds_from p.tokens p.current ≡ kind ∷ rest
      → (b : Bool) × (grouped_decl_at p kind ≡ returns b)
  unfolding grouped_decl_at behind_group
  grouped_at-returns p TokenKind.open_paren rest h =
      let (o, e) = behind_group-returns rest 0 in (suffix_behind o, rw (h, e) refl)
  grouped_at-returns p _ rest h = (false, refl)

  -- With the cursor inside the tokens the lookahead past a group never panics: its depth does not
  -- fall below zero.
  starts_grouped_var_decl-returns :
      (p : Parser F) (t : Token F)
      → peek p ≡ returns t
      → (b : Bool) × (starts_grouped_var_decl p ≡ returns b)
  unfolding starts_grouped_var_decl peek
  starts_grouped_var_decl-returns p t h =
      let (rest, e) =
        kinds_from-head p.tokens p.current t (expect-eq (get_elem? p.tokens p.current) h) in
      let (b, found) = grouped_at-returns p t.kind rest e in (b, rw h found)
