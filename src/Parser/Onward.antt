-- ===== src/Parser/Onward.antt =====
-- Parsing functions that keep the tokens, only move the cursor on, and do not run out of fuel.
pub mod Items
use aspect.Prelude.{
  ℕ, zero, suc, ◌+◌, ◌≤◌, ◌<◌, ◌≡◌, refl, sym, ap, subst, ◌∙◌, inl, inr, Bool, true, false, List,
  [], ◌∷◌, arith, length, Str, get_elem?, get_elem?-lt, Bool-cases, if◌then◌else◌,
}
use aspect.Prelude.Checked.{Checked, returns, panics, expect-eq, >>!-eq-returns}
use aspect.Lexer.Token.{Token, TokenKind}
use aspect.Parser.State.{
  Parser, Parsed, parsed, failed, panicked, out_of_fuel, ◌>>-◌, reading, moved, peek, is_eof,
  is_at_end, previous, advance,
}
use aspect.Parser.Cursor.{
  token_is, check, advance_if, match_token, advance_or_fail, expect_kind, items_from, items_unless,
  parse_comma_separated, closing_text,
}

module _ {F : Type 0} where
  pub record After (p q : Parser F) : Type 0 where
    pub tokens : q.tokens ≡ p.tokens
    pub onward : p.current ≤ q.current
    pub inside : p.current ≤ length p.tokens → q.current ≤ length q.tokens

  -- The run has not used up its fuel, leaves a cursor that is not before `p`'s, and what it returns
  -- has `Q`.
  abbrev pub Yields : {A : Type 0} → (A → Parser F → Type 0) → Parser F → Parsed F A → Type 0
  Yields Q p (parsed a q) = After p q × Q a q
  Yields Q p (failed e q) = After p q
  Yields Q p panicked = Unit
  Yields Q p out_of_fuel = ⊥

  abbrev pub Goes : {A : Type 0} → Parser F → Parsed F A → Type 0
  Goes p r = Yields (λ a q. Unit) p r

  pub here : (p : Parser F) → After p p
  here p = record { tokens = refl; onward = omega arith; inside = λ h. h }

  pub After_trans : (p q r : Parser F) → After p q → After q r → After p r
  After_trans p q r a b = record {
    tokens = b.tokens ∙ a.tokens;
    onward = omega (arith, a.onward, b.onward);
    inside = λ h. b.inside (a.inside h);
  }

  pub Yields-After :
      {A : Type 0} (Q : A → Parser F → Type 0) (p q : Parser F) (r : Parsed F A)
      → After p q
      → Yields Q q r
      → Yields Q p r
  Yields-After Q p q (parsed a s) h (later, holds) = (After_trans p q s h later, holds)
  Yields-After Q p q (failed e s) h later = After_trans p q s h later
  Yields-After Q p q panicked h later = tt
  Yields-After Q p q out_of_fuel h later = later

  pub Yields-bind :
      {A B : Type 0} (Q : A → Parser F → Type 0) (R : B → Parser F → Type 0) (p : Parser F)
      (r : Parsed F A) (k : A → Parser F → Parsed F B)
      → Yields Q p r
      → ((a : A) (q : Parser F) → After p q → Q a q → Yields R q (k a q))
      → Yields R p (r >>- k)
  Yields-bind Q R p (parsed a q) k (later, holds) h =
      Yields-After R p q (k a q) later (h a q later holds)
  Yields-bind Q R p (failed e q) k later h = later
  Yields-bind Q R p panicked k later h = tt
  Yields-bind Q R p out_of_fuel k later h = absurd later

  -- A run from further on that may come back to `p`.
  pub Yields-bind_from :
      {A B : Type 0} (Q : A → Parser F → Type 0) (R : B → Parser F → Type 0) (p q : Parser F)
      (r : Parsed F A) (k : A → Parser F → Parsed F B)
      → After p q
      → Yields Q q r
      → ((a : A) (u : Parser F) → After p u → Q a u → Yields R p (k a u))
      → Yields R p (r >>- k)
  Yields-bind_from Q R p q (parsed a u) k start (later, holds) h =
      h a u (After_trans p q u start later) holds
  Yields-bind_from Q R p q (failed e u) k start later h = After_trans p q u start later
  Yields-bind_from Q R p q panicked k start later h = tt
  Yields-bind_from Q R p q out_of_fuel k start later h = absurd later

  -- A read leaves the state, and what it returns is what it read.
  pub reading-Yields :
      {A : Type 0} (p : Parser F) (c : Checked A)
      → Yields (λ a q. (q ≡ p) × (c ≡ returns a)) p (reading p c)
  reading-Yields p panics = tt
  reading-Yields p (returns a) = (here p, (refl, refl))

  -- The cursor stands before the end, as it does where `peek` returns.
  pub peek-lt : (p : Parser F) (t : Token F) → peek p ≡ returns t → p.current < length p.tokens
  unfolding peek
  peek-lt p t h = get_elem?-lt p.tokens p.current (expect-eq (get_elem? p.tokens p.current) h)

  at_end-lt :
      (p : Parser F) (at_end : Bool) → is_at_end p ≡ returns at_end → p.current < length p.tokens
  unfolding is_at_end
  at_end-lt p at_end h =
      let (t, at_p, e) = >>!-eq-returns (peek p) (λ t. returns (is_eof t.kind)) h in
      peek-lt p t at_p

  moved-After :
      (p : Parser F) (at_end : Bool) → is_at_end p ≡ returns at_end → After p (moved p at_end)
  moved-After p true h = here p
  moved-After p false h = record {
    tokens = refl;
    onward = omega arith;
    inside = λ i. omega (arith, at_end-lt p false h);
  }

  reading-After :
      {A : Type 0} (R : A → Parser F → Type 0) (p q : Parser F) (c : Checked A)
      → After p q
      → ((a : A) → R a q)
      → Yields R p (reading q c)
  reading-After R p q panics later holds = tt
  reading-After R p q (returns a) later holds = (later, holds a)

  moved-onward :
      (p q : Parser F) (at_end : Bool)
      → q ≡ p
      → is_at_end p ≡ returns at_end
      → is_at_end p ≡ returns false
      → p.current < (moved q at_end).current
  moved-onward p q true same at_end h = cc
  moved-onward p q false same at_end h =
      subst (λ x. p.current < suc x.current) (sym same) (omega arith)

  -- `advance` at anything but the end moves the cursor.
  pub advance-Yields :
      (p : Parser F)
      → Yields (λ t q. is_at_end p ≡ returns false → p.current < q.current) p (advance p)
  unfolding advance
  advance-Yields p =
      Yields-bind (λ at_end q. (q ≡ p) × (is_at_end p ≡ returns at_end))
        (λ t q. is_at_end p ≡ returns false → p.current < q.current) p (reading p (is_at_end p))
        (λ at_end q. reading (moved q at_end) (previous (moved q at_end)))
        (reading-Yields p (is_at_end p))
        (λ at_end q later (same, known).
          reading-After (λ t r. is_at_end p ≡ returns false → p.current < r.current) q
            (moved q at_end) (previous (moved q at_end))
            (moved-After q at_end (subst (λ x. is_at_end x ≡ returns at_end) (sym same) known))
            (λ t h. moved-onward p q at_end same known h))

  -- What is returned does not matter.
  pub Yields-Goes :
      {A : Type 0} (Q : A → Parser F → Type 0) (p : Parser F) (r : Parsed F A)
      → Yields Q p r
      → Goes p r
  Yields-Goes Q p (parsed a q) (later, holds) = (later, tt)
  Yields-Goes Q p (failed e q) later = later
  Yields-Goes Q p panicked later = tt
  Yields-Goes Q p out_of_fuel later = later

  pub advance-Goes : (p : Parser F) → Goes p (advance p)
  advance-Goes p =
      Yields-Goes (λ t q. is_at_end p ≡ returns false → p.current < q.current) p (advance p)
        (advance-Yields p)

  pub not_at_end :
      (p : Parser F) (t : Token F)
      → peek p ≡ returns t
      → is_eof t.kind ≡ false
      → is_at_end p ≡ returns false
  unfolding is_at_end
  not_at_end p t h e = rw (h, e) refl

  -- Finding a kind means that the cursor is not at the end.
  check-not_at_end :
      (kind : TokenKind F) (p : Parser F)
      → check kind p ≡ returns true
      → is_at_end p ≡ returns false
  unfolding check is_at_end token_is
  check-not_at_end kind p h =
      let (t, at_p, e) = >>!-eq-returns (peek p) (λ t. returns (token_is kind t)) h in
      elim (Bool-cases (is_eof t.kind)) [
        | inl end ↦ absurd (ground (arith, end, e))
        | inr go ↦ rw (at_p, go) refl
      ]

  found_Goes :
      (kind : TokenKind F) (p : Parser F) (found : Bool)
      → check kind p ≡ returns found
      → Yields (λ f q. f ≡ true → p.current < q.current) p (advance_if p found)
  unfolding advance_if
  found_Goes kind p false h = (here p, λ e. cc)
  found_Goes kind p true h =
      Yields-bind (λ t q. is_at_end p ≡ returns false → p.current < q.current)
        (λ f q. f ≡ true → p.current < q.current) p (advance p) (λ t q. parsed true q)
        (advance-Yields p) (λ t q later strict. (here q, λ e. strict (check-not_at_end kind p h)))

  pub match_token-Yields :
      (kind : TokenKind F) (p : Parser F)
      → Yields (λ found q. found ≡ true → p.current < q.current) p (match_token kind p)
  unfolding match_token
  match_token-Yields kind p =
      Yields-bind (λ found q. (q ≡ p) × (check kind p ≡ returns found))
        (λ found q. found ≡ true → p.current < q.current) p (reading p (check kind p))
        (λ found q. advance_if q found) (reading-Yields p (check kind p))
        (λ found q later (same, known).
          subst (λ x. Yields (λ f r. f ≡ true → p.current < r.current) x (advance_if x found))
            (sym same) (found_Goes kind p found known))

  or_fail-Goes :
      (p : Parser F) (message : Str) (t : Token F) (found : Bool)
      → Goes p (advance_or_fail p message t found)
  unfolding advance_or_fail
  or_fail-Goes p message t true = advance-Goes p
  or_fail-Goes p message t false = here p

  pub expect_kind-Goes :
      (kind : TokenKind F) (message : Str) (p : Parser F) → Goes p (expect_kind kind message p)
  unfolding expect_kind
  expect_kind-Goes kind message p =
      Yields-bind (λ t q. (q ≡ p) × (peek p ≡ returns t)) (λ t q. Unit) p (reading p (peek p))
        (λ t q. advance_or_fail q message t (token_is kind t)) (reading-Yields p (peek p))
        (λ t q later known. or_fail-Goes q message t (token_is kind t))
