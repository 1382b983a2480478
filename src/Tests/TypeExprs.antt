-- ===== src/Tests/TypeExprs.antt =====
-- Type expressions at concrete inputs.
use aspect.Prelude.{◌≡◌, refl, true, some, List, [], ◌∷◌, codes, arith, str_eq}
use aspect.Prelude.Int.{ℤ}
use aspect.Lexer.LangType
use aspect.Lexer.LangType.{LangType}
use aspect.Lexer.Token
use aspect.Lexer.Token.{Token, TokenKind, Keyword}
use aspect.Scope.{get}
use aspect.Lexer.LangType.{is_array}
use aspect.Symbol.Module.Registry.{lookup_type, def_at, named_type, type_def, type_id}
use aspect.Parser.State.{Parser, parsed, advance, peek, is_at_end, is_eof, previous, token_before}
use aspect.Parser.Cursor.{
  expect_kind, advance_or_fail, token_is, discriminant, check, match_token, advance_if,
}
use aspect.Parser.Visibility.{
  check_type_visibility, check_def_visibility, check_import_visibility, check_type_privacy,
  module_of_file, or_root, lists, is_alias, is_private,
}
use aspect.Parser.Onward.{Goes}
use aspect.Parser.TypeExpr.{
  parse_type, type_at, parse_group, resolve_named_type, resolve_found, resolve_known,
  require_visible, require, require_alias_target, apply_type_modifiers, array_modifier, open_array,
  array_suffix, close_array, array_len, sized, with_array_size, star_rounds, with_pointer_depth,
  with_const,
}
use aspect.Prelude.{take, ◌++◌, false}
use aspect.Prelude.Checked.{returns}
use aspect.Parser.TypeExpr.Lookahead.{
  starts_grouped_var_decl, grouped_decl_at, behind_group, suffix_behind, suffix_then_ident,
  stars_then_ident, kinds_from, starts_named_var_decl, named_decl_at, named_decl,
  type_suffix_then_ident, starts_fnptr_var_decl, fnptr_decl_at,
}
use aspect.Parser.TypeExpr.Total.{parse_type_total}
use aspect.Tests.Layouts.{gate, site}

abbrev tokens : List (Token (Unit {0}))
tokens =
    Token.new (TokenKind.keyword Keyword.const) site (codes "const")
    ∷ Token.new TokenKind.open_paren site (codes "(")
    ∷ Token.new (TokenKind.identifier (codes "Node")) site (codes "Node")
    ∷ Token.new TokenKind.asterisk site (codes "*")
    ∷ Token.new TokenKind.close_paren site (codes ")")
    ∷ Token.new TokenKind.open_bracket site (codes "[")
    ∷ Token.new (TokenKind.integer (ℤ.pos 3)) site (codes "3")
    ∷ Token.new TokenKind.close_bracket site (codes "]")
    ∷ Token.new TokenKind.eof site []
    ∷ []

abbrev at_type : Parser (Unit {0})
at_type = record gate { tokens = tokens }

-- `const (Node*)[3]`.
node_pointers :
    parse_type 10 at_type
    ≡ parsed
        (record {
          base = LangType.struct 0;
          size_bits = 0;
          pointer_depth = 1;
          is_const = true;
          array_size = some 3;
        })
        (record at_type { current = 8 })
unfolding parse_type type_at advance peek is_at_end is_eof previous token_before parse_group
    expect_kind advance_or_fail token_is discriminant resolve_named_type resolve_found resolve_known
    lookup_type def_at named_type require_visible require require_alias_target check_type_visibility
    type_def check_def_visibility check_import_visibility check_type_privacy module_of_file or_root
    lists is_alias is_private apply_type_modifiers array_modifier is_array open_array check
    array_suffix close_array array_len sized with_array_size star_rounds match_token advance_if
    with_pointer_depth with_const get str_eq type_id
node_pointers = refl

parse_type_total_example : Goes at_type (parse_type 10 at_type)
parse_type_total_example = parse_type_total at_type (omega arith)

-- `(Node*)[3] x`, and the same without a name.
abbrev declared : Parser (Unit {0})
declared = record at_type {
  tokens = take 8 tokens ++ Token.new (TokenKind.identifier (codes "x")) site (codes "x") ∷ [];
  current = 1;
}

grouped_decl :
    (starts_grouped_var_decl declared ≡ returns true)
    × (starts_grouped_var_decl (record at_type { current = 1 }) ≡ returns false)
unfolding starts_grouped_var_decl grouped_decl_at peek behind_group suffix_behind suffix_then_ident
    stars_then_ident kinds_from
grouped_decl = (refl, refl)

named_decl_first :
    (starts_named_var_decl (record declared { current = 2 }) ≡ returns false)
    × (starts_fnptr_var_decl declared ≡ returns false)
unfolding starts_named_var_decl named_decl_at named_decl peek type_suffix_then_ident kinds_from
    suffix_then_ident stars_then_ident starts_fnptr_var_decl fnptr_decl_at type_id get str_eq
named_decl_first = (refl, refl)
