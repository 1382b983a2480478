-- ===== src/Parser/TypeExpr.antt =====
-- Type expressions, src/parser/type_expr.rs. The recursion over nested types and the loop over `*`
-- run on fuel.
pub mod Ends
pub mod Names
pub mod Total
pub mod Lookahead
use aspect.Prelude.{
  ℕ, zero, suc, ◌+◌, ◌≡◌, Bool, true, false, not, ◌&&◌, Option, none, some, List, [], ◌∷◌,
  if◌then◌else◌, leb, Str, codes, length, get_elem?, Result,
}
use aspect.Prelude.Int.{ℤ}
use aspect.Prelude.Checked.{Checked, returns, panics, ◌>>!◌}
use aspect.Lexer.Position.{Position}
use aspect.Lexer.LangType
use aspect.Lexer.LangType.{TypeBase, LangType, plain, void_type, is_array}
use aspect.Lexer.Token.{
  Token, TokenKind, Keyword, open_paren, close_paren, open_bracket, close_bracket, asterisk, arrow,
  integer, identifier, keyword, lang_type, const, fn,
}
use aspect.Symbol.Module.{TypeDef}
use aspect.Symbol.Module.Registry.{lookup_type, named_type, type_id}
use aspect.Symbol.Module.Signatures.{intern_fnptr}
use aspect.Parser.Error.{ParserError, expected_token, undefined_type}
use aspect.Parser.State.{
  Parser, Parsed, parsed, failed, panicked, out_of_fuel, ◌>>-◌, reading, peek, advance,
}
use aspect.Parser.Cursor.{check, match_token, expect_kind, parse_comma_separated}
use aspect.Parser.Visibility.{is_alias, check_type_visibility}

-- `LangType::with_const`, `with_pointer_depth` and `with_array_size`.
unfoldable pub with_const : LangType → Bool → LangType
with_const ty is_const = record ty { is_const = is_const }

unfoldable pub with_pointer_depth : LangType → ℕ → LangType
with_pointer_depth ty depth = record ty { pointer_depth = depth }

unfoldable pub with_array_size : LangType → ℕ → LangType
with_array_size ty size = record ty { array_size = some size }

-- `u32::try_from` on an `i64`.
unfoldable pub array_len : ℤ → Option ℕ
array_len (ℤ.pos n) = if leb n 4294967295 then some n else none
array_len (ℤ.negsuc n) = none

module _ {F : Type 0} where
  -- The size where the `]` was read, or the cursor back where it was.
  unfoldable pub sized : LangType → ℕ → Option ℕ → Parser F → Parsed F LangType
  unfolding with_array_size
  sized ty saved none p = parsed ty (record p { current = saved })
  sized ty saved (some size) p = parsed (with_array_size ty size) p

  unfoldable pub close_array : LangType → ℕ → ℤ → Parser F → Bool → Parsed F LangType
  unfolding sized array_len advance
  close_array ty saved n p false = parsed ty (record p { current = saved })
  close_array ty saved n p true = advance p >>- λ t p. sized ty saved (array_len n) p

  -- From the token behind the `[`.
  unfoldable pub array_suffix : LangType → ℕ → TokenKind F → Parser F → Parsed F LangType
  unfolding advance check close_array
  array_suffix ty saved (integer n) p = advance p >>- λ t p.
      reading p (check close_bracket p) >>- λ closed p. close_array ty saved n p closed
  array_suffix ty saved _ p = parsed ty (record p { current = saved })

  unfoldable pub open_array : LangType → Parser F → Bool → Parsed F LangType
  unfolding array_suffix advance peek
  open_array ty p false = parsed ty p
  open_array ty p true = advance p >>- λ t after.
      reading after (peek after) >>- λ t after. array_suffix ty p.current t.kind after

  unfoldable pub array_modifier : LangType → Parser F → Parsed F LangType
  unfolding open_array check is_array
  array_modifier ty p =
      if is_array ty
      then parsed ty p
      else reading p (check open_bracket p) >>- λ found p. open_array ty p found

  -- The `while` loop over the `*`s.
  unfoldable pub star_rounds : ℕ → ℕ → Parser F → Parsed F ℕ
  unfolding match_token
  star_rounds zero depth p = out_of_fuel
  star_rounds (suc rounds) depth p = match_token asterisk p >>- λ found p.
      if found then star_rounds rounds (suc depth) p else parsed depth p

  unfoldable pub apply_type_modifiers : LangType → Parser F → Parsed F LangType
  unfolding array_modifier star_rounds with_pointer_depth
  apply_type_modifiers ty p = array_modifier ty p >>- λ ty p.
      star_rounds (suc (length p.tokens)) ty.pointer_depth p >>- λ depth p.
      parsed (with_pointer_depth ty depth) p

  -- A check that either lets the parser go on or fails.
  unfoldable pub require : Parser F → Result (ParserError F) (Unit {0}) → Parsed F (Unit {0})
  require p (Result.ok done) = parsed done p
  require p (Result.err error) = failed error p
  require p Result.out_of_fuel = out_of_fuel

  unfoldable pub require_visible : ℕ → Position → Parser F → Parsed F (Unit {0})
  unfolding require check_type_visibility
  require_visible id pos p =
      reading p (check_type_visibility p id pos) >>- λ verdict p. require p verdict

  -- The named type that an alias stands for is checked too.
  unfoldable pub require_target_visible : TypeBase → Position → Parser F → Parsed F (Unit {0})
  unfolding require_visible
  require_target_visible (LangType.struct id) pos p = require_visible id pos p
  require_target_visible (LangType.enum id) pos p = require_visible id pos p
  require_target_visible (LangType.sum id) pos p = require_visible id pos p
  require_target_visible _ pos p = parsed tt p

  unfoldable pub require_alias_target : Bool → TypeBase → Position → Parser F → Parsed F (Unit {0})
  unfolding require_target_visible
  require_alias_target true base pos p = require_target_visible base pos p
  require_alias_target false base pos p = parsed tt p

  unfoldable pub resolve_known : TypeDef → Position → Parser F → Parsed F LangType
  unfolding named_type require_visible require_alias_target apply_type_modifiers is_alias
  resolve_known def pos p = reading p (named_type p.module_symbols def.id) >>- λ base p.
      require_visible def.id pos p >>- λ done p.
      require_alias_target (is_alias def.kind) base.base pos p >>- λ done p.
      apply_type_modifiers base p

  unfoldable pub resolve_found : Str → Position → Parser F → Option TypeDef → Parsed F LangType
  unfolding resolve_known
  resolve_found name pos p none = failed (undefined_type name pos) p
  resolve_found name pos p (some def) = resolve_known def pos p

  unfoldable pub resolve_named_type : Str → Position → Parser F → Parsed F LangType
  unfolding resolve_found lookup_type
  resolve_named_type name pos p =
      reading p (lookup_type p.module_symbols name) >>- λ def p. resolve_found name pos p def

  unfoldable pub return_type_if :
      (Parser F → Parsed F LangType) → Bool → Parser F → Parsed F LangType
  return_type_if inner true p = inner p
  return_type_if inner false p = parsed void_type p

  unfoldable pub fnptr_type : List LangType → LangType → Parser F → Parsed F LangType
  unfolding intern_fnptr apply_type_modifiers plain
  fnptr_type params return_type p =
      reading p (intern_fnptr p.module_symbols params return_type) >>- λ (symbols, id) p.
      apply_type_modifiers (plain (LangType.fn_ptr id) 0 0) (record p { module_symbols = symbols })

  -- `inner` stands for the recursive `parse_type`.
  unfoldable pub parse_fnptr_type : (Parser F → Parsed F LangType) → Parser F → Parsed F LangType
  unfolding expect_kind parse_comma_separated match_token return_type_if fnptr_type
  parse_fnptr_type inner p = expect_kind open_paren (codes "(") p >>- λ t p.
      parse_comma_separated close_paren inner p >>- λ params p. match_token arrow p >>- λ found p.
      return_type_if inner found p >>- λ return_type p. fnptr_type params return_type p

  unfoldable pub parse_group : (Parser F → Parsed F LangType) → Parser F → Parsed F LangType
  unfolding expect_kind apply_type_modifiers
  parse_group inner p =
      inner p >>- λ ty p. expect_kind close_paren (codes ")") p >>- λ t p. apply_type_modifiers ty p

  unfoldable pub type_at :
      (Parser F → Parsed F LangType) → TokenKind F → Position → Parser F → Parsed F LangType
  unfolding advance with_const apply_type_modifiers resolve_named_type parse_group parse_fnptr_type
  type_at inner (keyword const) pos p =
      advance p >>- λ t p. inner p >>- λ ty p. parsed (with_const ty true) p
  type_at inner (lang_type ty) pos p = advance p >>- λ t p. apply_type_modifiers ty p
  type_at inner (identifier name) pos p = advance p >>- λ t p. resolve_named_type name pos p
  type_at inner open_paren pos p = advance p >>- λ t p. parse_group inner p
  type_at inner (keyword fn) pos p = advance p >>- λ t p. parse_fnptr_type inner p
  type_at inner kind pos p = failed (expected_token (codes "type") kind pos) p

  unfoldable pub parse_type : ℕ → Parser F → Parsed F LangType
  unfolding peek type_at
  parse_type zero p = out_of_fuel
  parse_type (suc fuel) p = reading p (peek p) >>- λ t p. type_at (parse_type fuel) t.kind t.pos p
