-- ===== src/Parser/Recovery/Places.antt =====
-- Where the parser goes on after an error, src/parser/expressions.rs.
use aspect.Prelude.{
  ℕ, zero, suc, ◌+◌, ◌≤◌, ◌<◌, ◌≡◌, ◌↔◌, ◌⊎◌, inl, inr, refl, true, false, some, arith, length,
  get_elem?, Bool-cases, ◌==◌, get_elem?-some,
}
use aspect.Lexer.Token.{Token, TokenKind}
use aspect.Parser.State.{
  Parser, Parsed, parsed, peek, is_eof, is_at_end, previous, token_before, advance,
}
use aspect.Parser.Recovery.Classes.{StopsAt, Terminates, stops_iff, past_iff}
use aspect.Parser.Recovery.{
  Recovery, stops, past, skips, recovery, recover_as, synchronize_within, synchronize,
}

module _ {F : Type 0} where
  -- Behind a token that is not the end there is another, and the cursor is inside.
  pub record HasEnd (p : Parser F) : Type 0 where
    pub inside : p.current < length p.tokens
    pub more :
        (i : ℕ) (t : Token F)
        → get_elem? p.tokens i ≡ some t
        → is_eof t.kind ≡ false
        → suc i < length p.tokens

  -- The parser goes on at the first token that it does not skip, or behind it.
  pub record Recovered (p q : Parser F) : Type 0 where
    pub last : ℕ
    pub onward : p.current ≤ last
    pub skipped :
        (i : ℕ) (t : Token F)
        → p.current ≤ i
        → i < last
        → get_elem? p.tokens i ≡ some t
        → recovery t.kind ≡ skips
    pub token : Token F
    pub found : get_elem? p.tokens last ≡ some token
    pub place :
        (recovery token.kind ≡ stops) × (q ≡ record p { current = last })
        ⊎ (recovery token.kind ≡ past) × (q ≡ record p { current = suc last })

  advance-past :
      (p : Parser F) (t : Token F)
      → get_elem? p.tokens p.current ≡ some t
      → is_eof t.kind ≡ false
      → advance p ≡ parsed t (record p { current = suc p.current })
  unfolding advance is_at_end peek previous token_before
  advance-past p t h e = rw (h, e) rw h refl

  eof-stops : (kind : TokenKind F) → is_eof kind ≡ true → recovery kind ≡ stops
  unfolding is_eof recovery
  eof-stops TokenKind.eof e = refl
  eof-stops _ e = cc

  not_eof : (kind : TokenKind F) → (recovery kind ≡ stops → ⊥) → is_eof kind ≡ false
  not_eof kind n = elim (Bool-cases (is_eof kind)) [
    | inl e ↦ absurd (n (eof-stops kind e))
    | inr e ↦ e
  ]

  -- Passing over a token that is skipped.
  before :
      (p q : Parser F) (t : Token F)
      → get_elem? p.tokens p.current ≡ some t
      → recovery t.kind ≡ skips
      → Recovered (record p { current = suc p.current }) q
      → Recovered p q
  before p q t h e rest = record {
    last = rest.last;
    onward = omega (arith, rest.onward);
    skipped = λ i u from to at_i. elim (Bool-cases (i == p.current)) [
      | inl same ↦ same_token i u (ground (arith, same)) at_i
      | inr other ↦ rest.skipped i u (ground (arith, other, from)) to at_i
    ];
    token = rest.token;
    found = rest.found;
    place = rest.place;
  }
    where
      same_token :
          (i : ℕ) (u : Token F)
          → i ≡ p.current
          → get_elem? p.tokens i ≡ some u
          → recovery u.kind ≡ skips
      same_token i u same at_i = cc

  recover_as-Finds :
      (again : Parser F → Parsed F (Unit {0})) (step : Recovery) (p : Parser F) (t : Token F)
      → get_elem? p.tokens p.current ≡ some t
      → recovery t.kind ≡ step
      → HasEnd p
      → (HasEnd (record p { current = suc p.current })
          → (q : Parser F) × (again (record p { current = suc p.current }) ≡ parsed tt q)
            × Recovered (record p { current = suc p.current }) q)
      → (q : Parser F) × (recover_as again step p ≡ parsed tt q) × Recovered p q
  unfolding recover_as
  recover_as-Finds again stops p t h e has_end rest = (
    p,
    refl,
    record {
      last = p.current;
      onward = omega arith;
      skipped = λ i u from to at_i. absurd (omega arith);
      token = t;
      found = h;
      place = inl (e, refl);
    },
  )
  recover_as-Finds again past p t h e has_end rest = (
    record p { current = suc p.current },
    rw (advance-past p t h (not_eof t.kind (λ f. cc))) refl,
    record {
      last = p.current;
      onward = omega arith;
      skipped = λ i u from to at_i. absurd (omega arith);
      token = t;
      found = h;
      place = inr (e, refl);
    },
  )
  recover_as-Finds again skips p t h e has_end rest =
      let go = not_eof t.kind (λ f. cc) in
      let (q, runs, recovered) =
        rest (record { inside = has_end.more p.current t h go; more = has_end.more }) in
      (q, rw (advance-past p t h go) runs, before p q t h e recovered)

  within-Finds :
      (rounds : ℕ) (p : Parser F)
      → HasEnd p
      → length p.tokens < rounds + p.current
      → (q : Parser F) × (synchronize_within rounds p ≡ parsed tt q) × Recovered p q
  unfolding synchronize_within peek
  within-Finds zero p has_end room = absurd (omega (arith, has_end.inside))
  within-Finds (suc rounds) p has_end room =
      let (t, h) = get_elem?-some p.tokens p.current has_end.inside in
      let (q, runs, recovered) =
        recover_as-Finds (synchronize_within rounds) (recovery t.kind) p t h refl has_end (λ later.
          within-Finds rounds (record p { current = suc p.current }) later (omega arith)) in
      (q, rw h runs, recovered)

  -- After an error, in tokens that have an end, the parser always comes to a place to go on,
  -- and neither fails nor panics nor runs out of its fuel. It is the first token that is not skipped,
  -- where that is the end, a closing brace or a keyword that starts a statement; where it is a newline
  -- or a semicolon, the token behind it. Only the cursor changes.
  pub synchronize-Recovered :
      (p : Parser F)
      → HasEnd p
      → ((q : Parser F) × (synchronize p ≡ parsed tt q) × Recovered p q)
        × ((kind : TokenKind F) → (recovery kind ≡ stops) ↔ StopsAt kind)
        × ((kind : TokenKind F) → (recovery kind ≡ past) ↔ Terminates kind)
  unfolding synchronize
  synchronize-Recovered p has_end =
      (within-Finds (suc (length p.tokens)) p has_end (omega arith), stops_iff, past_iff)
