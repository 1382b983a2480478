-- ===== src/Parser/TypeExpr/Names.antt =====
-- Resolving a named type, src/parser/type_expr.rs: it ends, with the cursor moved on.
use aspect.Prelude.{
  ℕ, ◌≤◌, ◌≡◌, ◌≢◌, refl, Bool, true, false, Option, none, some, length, Str, Result, inl, inr,
}
use aspect.Prelude.Checked.{returns, >>!-eq-returns}
use aspect.Lexer.Position.{Position}
use aspect.Lexer.LangType
use aspect.Lexer.LangType.{TypeBase, LangType, plain}
use aspect.Symbol.Module.{TypeDef}
use aspect.Symbol.Module.Registry.{lookup_type, named_type}
use aspect.Parser.Error.{ParserError}
use aspect.Parser.State.{Parser, Parsed, ◌>>-◌, reading}
use aspect.Parser.Visibility.{is_alias, check_type_visibility, check_def_visibility}
use aspect.Parser.Visibility.Types.{check_type_visibility-cases}
use aspect.Symbol.Module.Registry.{type_def}
use aspect.Parser.Onward.{After, Goes, here, Yields-bind, reading-Yields}
use aspect.Parser.TypeExpr.{
  require, require_visible, require_target_visible, require_alias_target, resolve_known,
  resolve_found, resolve_named_type,
}
use aspect.Parser.TypeExpr.Ends.{read-Goes, modifiers-Goes}

module _ {F : Type 0} where
  -- One step after another, where what is returned does not matter.
  pub then_Goes :
      {A B : Type 0} (p : Parser F) (r : Parsed F A) (k : A → Parser F → Parsed F B)
      → Goes p r
      → ((a : A) (q : Parser F) → After p q → Goes q (k a q))
      → Goes p (r >>- k)
  then_Goes p r k g h =
      Yields-bind (λ a q. Unit) (λ b q. Unit) p r k g (λ a q later done. h a q later)

  -- The gate's verdicts do not run out of fuel.
  require-Goes :
      (p : Parser F) (verdict : Result (ParserError F) (Unit {0}))
      → verdict ≢ Result.out_of_fuel
      → Goes p (require p verdict)
  unfolding require
  require-Goes p (Result.ok done) h = (here p, tt)
  require-Goes p (Result.err error) h = here p
  require-Goes p Result.out_of_fuel h = h refl

  verdict_total :
      (p : Parser F) (id : ℕ) (at : Position) (verdict : Result (ParserError F) (Unit {0}))
      → check_type_visibility p id at ≡ returns verdict
      → verdict ≢ Result.out_of_fuel
  unfolding check_type_visibility
  verdict_total p id at verdict h e =
      let (def, known, rest) =
        >>!-eq-returns (type_def p.module_symbols id)
          (λ def. returns (check_def_visibility p def at)) h in
      elim (check_type_visibility-cases p id def at known) [
        | inl (seen, open_, f) ↦ cc
        | inr (inl (unseen, f)) ↦ cc
        | inr (inr (seen, closed, f)) ↦ cc
      ]

  visible-Goes : (id : ℕ) (at : Position) (p : Parser F) → Goes p (require_visible id at p)
  unfolding require_visible
  visible-Goes id at p =
      Yields-bind (λ verdict q. (q ≡ p) × (check_type_visibility p id at ≡ returns verdict))
        (λ u q. Unit) p (reading p (check_type_visibility p id at)) (λ verdict q. require q verdict)
        (reading-Yields p (check_type_visibility p id at))
        (λ verdict q later (same, known).
          require-Goes q verdict (verdict_total p id at verdict known))

  target-Goes :
      (base : TypeBase) (at : Position) (p : Parser F) → Goes p (require_target_visible base at p)
  unfolding require_target_visible
  target-Goes (LangType.struct id) at p = visible-Goes id at p
  target-Goes (LangType.enum id) at p = visible-Goes id at p
  target-Goes (LangType.sum id) at p = visible-Goes id at p
  target-Goes _ at p = (here p, tt)

  alias-Goes :
      (b : Bool) (base : TypeBase) (at : Position) (p : Parser F)
      → Goes p (require_alias_target b base at p)
  unfolding require_alias_target
  alias-Goes true base at p = target-Goes base at p
  alias-Goes false base at p = (here p, tt)

  found-Goes :
      (name : Str) (at : Position) (p : Parser F) (o : Option TypeDef)
      → p.current ≤ length p.tokens
      → Goes p (resolve_found name at p o)
  unfolding resolve_found resolve_known
  found-Goes name at p none i = here p
  found-Goes name at p (some def) i =
      then_Goes p (reading p (named_type p.module_symbols def.id)) _
        (read-Goes p (named_type p.module_symbols def.id))
        (λ base q later.
          then_Goes q (require_visible def.id at q) _ (visible-Goes def.id at q) (λ u r on1.
            then_Goes r (require_alias_target (is_alias def.kind) base.base at r) _
              (alias-Goes (is_alias def.kind) base.base at r)
              (λ u s on2. modifiers-Goes s base (on2.inside (on1.inside (later.inside i))))))

  pub named-Goes :
      (name : Str) (at : Position) (p : Parser F)
      → p.current ≤ length p.tokens
      → Goes p (resolve_named_type name at p)
  unfolding resolve_named_type
  named-Goes name at p i =
      then_Goes p (reading p (lookup_type p.module_symbols name)) _
        (read-Goes p (lookup_type p.module_symbols name))
        (λ o q later. found-Goes name at q o (later.inside i))
