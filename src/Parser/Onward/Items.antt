-- ===== src/Parser/Onward/Items.antt =====
-- Lists of items (`parse_comma_separated` of src/parser/expressions.rs) within their fuel.
use aspect.Prelude.{
  ℕ, zero, suc, ◌+◌, ◌≤◌, ◌<◌, ◌≡◌, refl, ap, Bool, true, false, List, [], ◌∷◌, arith, length,
  if◌then◌else◌,
}
use aspect.Prelude.Checked.{returns}
use aspect.Lexer.Token.{TokenKind}
use aspect.Parser.State.{Parser, Parsed, parsed, ◌>>-◌, reading}
use aspect.Parser.Cursor.{
  check, match_token, expect_kind, items_from, items_unless, parse_comma_separated, closing_text,
}
use aspect.Parser.Onward.{
  After, here, Yields-bind, reading-Yields, match_token-Yields, expect_kind-Goes, Goes,
}

module _ {F : Type 0} where
  -- The cursor is inside, and the fuel covers the tokens that are left.
  pub record Covers (fuel : ℕ) (p : Parser F) : Type 0 where
    pub room : length p.tokens < fuel + p.current
    pub inside : p.current ≤ length p.tokens

  pub Covers-After : (fuel : ℕ) (p q : Parser F) → Covers fuel p → After p q → Covers fuel q
  Covers-After fuel p q h later = record {
    room = omega (arith, h.room, ap length later.tokens, later.onward);
    inside = later.inside h.inside;
  }

  -- Fuel for one step less, where the cursor has moved.
  pub Covers-less :
      (fuel : ℕ) (p q : Parser F)
      → Covers (suc fuel) p
      → After p q
      → p.current < q.current
      → Covers fuel q
  Covers-less fuel p q h later strict = record {
    room = omega (arith, h.room, ap length later.tokens);
    inside = later.inside h.inside;
  }

  -- An item that goes on wherever the fuel covers what is left.
  abbrev pub Steady : {A : Type 0} → ℕ → (Parser F → Parsed F A) → Type 0
  Steady fuel item = (q : Parser F) → Covers fuel q → Goes q (item q)

  more-Goes :
      {A : Type 0} (rest : Parser F → Parsed F (List A)) (x : A) (r : Parser F) (more : Bool)
      → (more ≡ true → Goes r (rest r))
      → Goes r (if more then (rest r >>- λ xs r. parsed (x ∷ xs) r) else parsed (x ∷ []) r)
  more-Goes rest x r true h =
      Yields-bind (λ xs q. Unit) (λ xs q. Unit) r (rest r) (λ xs q. parsed (x ∷ xs) q) (h refl)
        (λ xs q later done. (here q, tt))
  more-Goes rest x r false h = (here r, tt)

  items_from-Goes :
      {A : Type 0} (rounds fuel : ℕ) (item : Parser F → Parsed F A) (p : Parser F)
      → Steady fuel item
      → Covers fuel p
      → Covers rounds p
      → Goes p (items_from rounds item p)
  unfolding items_from
  items_from-Goes zero fuel item p steady enough room =
      absurd (omega (arith, room.room, room.inside))
  items_from-Goes (suc rounds) fuel item p steady enough room =
      Yields-bind (λ x q. Unit) (λ xs q. Unit) p (item p)
        (λ x q. match_token TokenKind.comma q >>- λ more r.
          if more
          then (items_from rounds item r >>- λ xs r. parsed (x ∷ xs) r)
          else parsed (x ∷ []) r)
        (steady p enough)
        (λ x q later done.
          Yields-bind (λ found r. found ≡ true → q.current < r.current) (λ xs r. Unit) q
            (match_token TokenKind.comma q)
            (λ more r.
              if more
              then (items_from rounds item r >>- λ xs r. parsed (x ∷ xs) r)
              else parsed (x ∷ []) r)
            (match_token-Yields TokenKind.comma q)
            (λ more r beyond strict. more-Goes (items_from rounds item) x r more (λ e.
              items_from-Goes rounds fuel item r steady
                (Covers-After fuel q r (Covers-After fuel p q enough later) beyond)
                (Covers-less rounds q r (Covers-After (suc rounds) p q room later) beyond
                  (strict e)))))

  unless-Goes :
      {A : Type 0} (closed : Bool) (fuel : ℕ) (item : Parser F → Parsed F A) (p : Parser F)
      → Steady fuel item
      → Covers fuel p
      → Goes p (items_unless closed item p)
  unfolding items_unless
  unless-Goes true fuel item p steady enough = (here p, tt)
  unless-Goes false fuel item p steady enough =
      items_from-Goes (suc (length p.tokens)) fuel item p steady enough
        (record { room = omega arith; inside = enough.inside })

  -- A list of items ends where the items do.
  pub comma_separated-Goes :
      {A : Type 0} (fuel : ℕ) (close : TokenKind F) (item : Parser F → Parsed F A) (p : Parser F)
      → Steady fuel item
      → Covers fuel p
      → Goes p (parse_comma_separated close item p)
  unfolding parse_comma_separated
  comma_separated-Goes fuel close item p steady enough =
      Yields-bind (λ closed q. (q ≡ p) × (check close p ≡ returns closed)) (λ items q. Unit) p
        (reading p (check close p))
        (λ closed q. items_unless closed item q >>- λ items q.
          expect_kind close (closing_text close) q >>- λ t q. parsed items q)
        (reading-Yields p (check close p))
        (λ closed q later known.
          Yields-bind (λ items r. Unit) (λ items r. Unit) q (items_unless closed item q)
            (λ items r. expect_kind close (closing_text close) r >>- λ t r. parsed items r)
            (unless-Goes closed fuel item q steady (Covers-After fuel p q enough later))
            (λ items r beyond done.
              Yields-bind (λ t u. Unit) (λ items u. Unit) r
                (expect_kind close (closing_text close) r) (λ t u. parsed items u)
                (expect_kind-Goes close (closing_text close) r) (λ t u last done. (here u, tt))))
