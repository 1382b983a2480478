-- ===== src/Parser/TypeExpr/Ends.antt =====
-- The parser of type expressions, src/parser/type_expr.rs, within its fuel.
use aspect.Prelude.{
  ℕ, zero, suc, ◌≤◌, ◌<◌, ◌≡◌, refl, ap, Bool, true, false, Option, none, some, arith,
  if◌then◌else◌, length,
}
use aspect.Prelude.Int.{ℤ}
use aspect.Prelude.Checked.{Checked, returns}
use aspect.Lexer.LangType.{LangType, is_array}
use aspect.Lexer.Token.{TokenKind}
use aspect.Parser.State.{Parser, parsed, ◌>>-◌, reading, peek, advance}
use aspect.Parser.Cursor.{check, match_token}
use aspect.Parser.Onward.{
  After, Goes, here, Yields-bind, Yields-bind_from, reading-Yields, advance-Goes, Yields-Goes,
  match_token-Yields,
}
use aspect.Parser.Onward.Items.{Covers, Covers-less}
use aspect.Parser.TypeExpr.{
  with_pointer_depth, array_len, sized, close_array, array_suffix, open_array, array_modifier,
  star_rounds, apply_type_modifiers,
}

module _ {F : Type 0} where
  -- The cursor put back.
  back : (p q : Parser F) → After p q → After p (record q { current = p.current })
  back p q h = record {
    tokens = h.tokens;
    onward = omega arith;
    inside = λ i. omega (arith, ap length h.tokens);
  }

  sized-Goes :
      (p q : Parser F) (ty : LangType) (size : Option ℕ)
      → After p q
      → Goes p (sized ty p.current size q)
  unfolding sized
  sized-Goes p q ty none h = (back p q h, tt)
  sized-Goes p q ty (some size) h = (h, tt)

  close_array-Goes :
      (p q : Parser F) (ty : LangType) (n : ℤ) (closed : Bool)
      → After p q
      → Goes p (close_array ty p.current n q closed)
  unfolding close_array
  close_array-Goes p q ty n false h = (back p q h, tt)
  close_array-Goes p q ty n true h =
      Yields-bind_from (λ t u. Unit) (λ t u. Unit) p q (advance q)
        (λ t u. sized ty p.current (array_len n) u) h (advance-Goes q)
        (λ t u later done. sized-Goes p u ty (array_len n) later)

  pub read-Goes : {A : Type 0} (p : Parser F) (c : Checked A) → Goes p (reading p c)
  read-Goes p c =
      Yields-Goes (λ a q. (q ≡ p) × (c ≡ returns a)) p (reading p c) (reading-Yields p c)

  array_suffix-Goes :
      (p q : Parser F) (ty : LangType) (kind : TokenKind F)
      → After p q
      → Goes p (array_suffix ty p.current kind q)
  unfolding array_suffix
  array_suffix-Goes p q ty (TokenKind.integer n) h =
      Yields-bind_from (λ t u. Unit) (λ t u. Unit) p q (advance q)
        (λ t u. reading u (check TokenKind.close_bracket u) >>- λ closed u.
          close_array ty p.current n u closed)
        h (advance-Goes q)
        (λ t u later done.
          Yields-bind_from (λ closed v. Unit) (λ ty v. Unit) p u
            (reading u (check TokenKind.close_bracket u))
            (λ closed v. close_array ty p.current n v closed) later
            (read-Goes u (check TokenKind.close_bracket u))
            (λ closed v last done. close_array-Goes p v ty n closed last))
  array_suffix-Goes p q ty _ h = (back p q h, tt)

  open_array-Goes : (p : Parser F) (ty : LangType) (found : Bool) → Goes p (open_array ty p found)
  unfolding open_array
  open_array-Goes p ty false = (here p, tt)
  open_array-Goes p ty true =
      Yields-bind_from (λ t u. Unit) (λ t u. Unit) p p (advance p)
        (λ t u. reading u (peek u) >>- λ t u. array_suffix ty p.current t.kind u) (here p)
        (advance-Goes p)
        (λ t u later done.
          Yields-bind_from (λ t v. Unit) (λ ty v. Unit) p u (reading u (peek u))
            (λ t v. array_suffix ty p.current t.kind v) later (read-Goes u (peek u))
            (λ t v last done. array_suffix-Goes p v ty t.kind last))

  array_modifier-Goes : (p : Parser F) (ty : LangType) → Goes p (array_modifier ty p)
  unfolding array_modifier
  array_modifier-Goes p ty = unless_array (is_array ty)
    where
      found_Goes : (found : Bool) (q : Parser F) → Goes q (open_array ty q found)
      found_Goes found q = open_array-Goes q ty found

      unless_array :
          (b : Bool)
          → Goes p (
              if b
              then parsed ty p
              else (reading p (check TokenKind.open_bracket p) >>- λ found p.
                  open_array ty p found))
      unless_array true = (here p, tt)
      unless_array false =
          Yields-bind (λ found q. Unit) (λ ty q. Unit) p
            (reading p (check TokenKind.open_bracket p)) (λ found q. open_array ty q found)
            (read-Goes p (check TokenKind.open_bracket p))
            (λ found q later done. found_Goes found q)

  more_stars :
      (rounds depth : ℕ) (q : Parser F) (found : Bool)
      → (found ≡ true → Goes q (star_rounds rounds (suc depth) q))
      → Goes q (if found then star_rounds rounds (suc depth) q else parsed depth q)
  more_stars rounds depth q true h = h refl
  more_stars rounds depth q false h = (here q, tt)

  star_rounds-Goes :
      (rounds depth : ℕ) (p : Parser F) → Covers rounds p → Goes p (star_rounds rounds depth p)
  unfolding star_rounds
  star_rounds-Goes zero depth p room = absurd (omega (arith, room.room, room.inside))
  star_rounds-Goes (suc rounds) depth p room =
      Yields-bind (λ found q. found ≡ true → p.current < q.current) (λ depth q. Unit) p
        (match_token TokenKind.asterisk p)
        (λ found q. if found then star_rounds rounds (suc depth) q else parsed depth q)
        (match_token-Yields TokenKind.asterisk p)
        (λ found q later strict. more_stars rounds depth q found (λ e.
          star_rounds-Goes rounds (suc depth) q (Covers-less rounds p q room later (strict e))))

  -- The modifiers end where they start inside the tokens.
  pub modifiers-Goes :
      (p : Parser F) (ty : LangType)
      → p.current ≤ length p.tokens
      → Goes p (apply_type_modifiers ty p)
  unfolding apply_type_modifiers
  modifiers-Goes p ty i =
      Yields-bind (λ ty q. Unit) (λ ty q. Unit) p (array_modifier ty p)
        (λ ty q. star_rounds (suc (length q.tokens)) ty.pointer_depth q >>- λ depth q.
          parsed (with_pointer_depth ty depth) q)
        (array_modifier-Goes p ty)
        (λ ty q later done.
          Yields-bind (λ depth r. Unit) (λ ty r. Unit) q
            (star_rounds (suc (length q.tokens)) ty.pointer_depth q)
            (λ depth r. parsed (with_pointer_depth ty depth) r)
            (star_rounds-Goes (suc (length q.tokens)) ty.pointer_depth q
              (record { room = omega arith; inside = later.inside i }))
            (λ depth r beyond done. (here r, tt)))
