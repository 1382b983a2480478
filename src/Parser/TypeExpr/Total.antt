-- ===== src/Parser/TypeExpr/Total.antt =====
-- Parsing a whole type, src/parser/type_expr.rs: the nesting of types is bounded by the tokens.
use aspect.Prelude.{
  ℕ, zero, suc, ◌≤◌, ◌<◌, ◌≡◌, refl, sym, subst, Bool, true, false, List, arith, length, codes,
}
use aspect.Prelude.Checked.{returns}
use aspect.Lexer.Position.{Position}
use aspect.Lexer.LangType
use aspect.Lexer.LangType.{TypeBase, LangType, plain}
use aspect.Lexer.Token.{Token, TokenKind, Keyword}
use aspect.Symbol.Module.{ModuleSymbols}
use aspect.Symbol.Module.Signatures.{intern_fnptr}
use aspect.Parser.State.{Parser, Parsed, parsed, ◌>>-◌, reading, peek, is_eof, is_at_end, advance}
use aspect.Parser.Cursor.{match_token, expect_kind, parse_comma_separated}
use aspect.Parser.Onward.{
  Yields-After, Goes, here, Yields-bind, reading-Yields, advance-Yields, not_at_end,
  match_token-Yields, Yields-Goes, expect_kind-Goes,
}
use aspect.Parser.Onward.Items.{Covers, Covers-After, Covers-less, Steady, comma_separated-Goes}
use aspect.Parser.TypeExpr.{
  with_const, apply_type_modifiers, return_type_if, fnptr_type, parse_fnptr_type, parse_group,
  type_at, parse_type,
}
use aspect.Parser.TypeExpr.Ends.{read-Goes, modifiers-Goes}
use aspect.Parser.TypeExpr.Names.{then_Goes, named-Goes}

module _ {F : Type 0} where
  return_if-Goes :
      (inner : Parser F → Parsed F LangType) (found : Bool) (p : Parser F)
      → Goes p (inner p)
      → Goes p (return_type_if inner found p)
  unfolding return_type_if
  return_if-Goes inner true p h = h
  return_if-Goes inner false p h = (here p, tt)

  with_symbols :
      (p : Parser F) (symbols : ModuleSymbols) (r : Parsed F LangType)
      → Goes (record p { module_symbols = symbols }) r
      → Goes p r
  with_symbols p symbols r h =
      Yields-After (λ ty q. Unit) p (record p { module_symbols = symbols }) r
        (record { tokens = refl; onward = omega arith; inside = λ i. i }) h

  fnptr-Goes :
      (params : List LangType) (return_type : LangType) (p : Parser F)
      → p.current ≤ length p.tokens
      → Goes p (fnptr_type params return_type p)
  unfolding fnptr_type
  fnptr-Goes params return_type p i =
      then_Goes p (reading p (intern_fnptr p.module_symbols params return_type)) _
        (read-Goes p (intern_fnptr p.module_symbols params return_type))
        (λ (symbols, id) q later.
          with_symbols q symbols
            (apply_type_modifiers (plain (LangType.fn_ptr id) 0 0)
              (record q { module_symbols = symbols }))
            (modifiers-Goes (record q { module_symbols = symbols }) (plain (LangType.fn_ptr id) 0 0)
              (later.inside i)))

  parse_fnptr-Goes :
      (fuel : ℕ) (inner : Parser F → Parsed F LangType) (p : Parser F)
      → Steady fuel inner
      → Covers fuel p
      → Goes p (parse_fnptr_type inner p)
  unfolding parse_fnptr_type
  parse_fnptr-Goes fuel inner p steady enough =
      then_Goes p (expect_kind TokenKind.open_paren (codes "(") p) _
        (expect_kind-Goes TokenKind.open_paren (codes "(") p)
        (λ t q on1.
          let at_q = Covers-After fuel p q enough on1 in
          then_Goes q (parse_comma_separated TokenKind.close_paren inner q) _
            (comma_separated-Goes fuel TokenKind.close_paren inner q steady at_q)
            (λ params r on2.
              let at_r = Covers-After fuel q r at_q on2 in
              then_Goes r (match_token TokenKind.arrow r) _
                (Yields-Goes (λ found s. found ≡ true → r.current < s.current) r
                  (match_token TokenKind.arrow r) (match_token-Yields TokenKind.arrow r))
                (λ found s on3.
                  let at_s = Covers-After fuel r s at_r on3 in
                  then_Goes s (return_type_if inner found s) _
                    (return_if-Goes inner found s (steady s at_s))
                    (λ return_type u on4.
                      fnptr-Goes params return_type u (on4.inside at_s.inside)))))

  group-Goes :
      (fuel : ℕ) (inner : Parser F → Parsed F LangType) (p : Parser F)
      → Steady fuel inner
      → Covers fuel p
      → Goes p (parse_group inner p)
  unfolding parse_group
  group-Goes fuel inner p steady enough = then_Goes p (inner p) _ (steady p enough) (λ ty q on1.
      then_Goes q (expect_kind TokenKind.close_paren (codes ")") q) _
        (expect_kind-Goes TokenKind.close_paren (codes ")") q)
        (λ t r on2. modifiers-Goes r ty (on2.inside (on1.inside enough.inside))))

  const-Goes :
      (fuel : ℕ) (inner : Parser F → Parsed F LangType) (p : Parser F)
      → Steady fuel inner
      → Covers fuel p
      → Goes p (inner p >>- λ ty q. parsed (with_const ty true) q)
  const-Goes fuel inner p steady enough =
      then_Goes p (inner p) (λ ty q. parsed (with_const ty true) q) (steady p enough)
        (λ ty q later. (here q, tt))

  -- A type that starts with a token before the end: what follows it has one token less.
  behind-Goes :
      (fuel : ℕ) (p : Parser F) (k : Token F → Parser F → Parsed F LangType)
      → Covers (suc fuel) p
      → is_at_end p ≡ returns false
      → ((t : Token F) (q : Parser F) → Covers fuel q → Goes q (k t q))
      → Goes p (advance p >>- k)
  behind-Goes fuel p k enough inside h =
      Yields-bind (λ t q. is_at_end p ≡ returns false → p.current < q.current) (λ ty q. Unit) p
        (advance p) k (advance-Yields p)
        (λ t q later strict. h t q (Covers-less fuel p q enough later (strict inside)))

  type_at-Goes :
      (fuel : ℕ) (inner : Parser F → Parsed F LangType) (kind : TokenKind F) (at : Position)
      (p : Parser F)
      → Steady fuel inner
      → Covers (suc fuel) p
      → (is_eof kind ≡ false → is_at_end p ≡ returns false)
      → Goes p (type_at inner kind at p)
  unfolding type_at is_eof
  type_at-Goes fuel inner (TokenKind.keyword Keyword.const) at p steady enough inside =
      behind-Goes fuel p _ enough (inside refl) (λ t q room. const-Goes fuel inner q steady room)
  type_at-Goes fuel inner (TokenKind.lang_type ty) at p steady enough inside =
      behind-Goes fuel p _ enough (inside refl) (λ t q room. modifiers-Goes q ty room.inside)
  type_at-Goes fuel inner (TokenKind.identifier name) at p steady enough inside =
      behind-Goes fuel p _ enough (inside refl) (λ t q room. named-Goes name at q room.inside)
  type_at-Goes fuel inner TokenKind.open_paren at p steady enough inside =
      behind-Goes fuel p _ enough (inside refl) (λ t q room. group-Goes fuel inner q steady room)
  type_at-Goes fuel inner (TokenKind.keyword Keyword.fn) at p steady enough inside =
      behind-Goes fuel p _ enough (inside refl)
        (λ t q room. parse_fnptr-Goes fuel inner q steady room)
  type_at-Goes fuel inner _ at p steady enough inside = here p

  parse_type-Steady : (fuel : ℕ) → Steady {F = F} fuel (parse_type fuel)
  unfolding parse_type
  parse_type-Steady zero p enough = absurd (omega (arith, enough.room, enough.inside))
  parse_type-Steady (suc fuel) p enough =
      Yields-bind (λ t q. (q ≡ p) × (peek p ≡ returns t)) (λ ty q. Unit) p (reading p (peek p))
        (λ t q. type_at (parse_type fuel) t.kind t.pos q) (reading-Yields p (peek p))
        (λ t q later (same, known).
          type_at-Goes fuel (parse_type fuel) t.kind t.pos q (parse_type-Steady fuel)
            (Covers-After (suc fuel) p q enough later)
            (λ e. subst (λ x. is_at_end x ≡ returns false) (sym same) (not_at_end p t known e)))

  -- The parser of a type that starts at a cursor inside the tokens never runs out of its fuel, the
  -- number of tokens and one more, however deep types nest. Where it returns a type or fails, the
  -- tokens are as they were and the cursor is not before where it was, nor behind the end.
  pub parse_type_total :
      (p : Parser F) → p.current ≤ length p.tokens → Goes p (parse_type (suc (length p.tokens)) p)
  parse_type_total p i =
      parse_type-Steady (suc (length p.tokens)) p (record { room = omega arith; inside = i })
