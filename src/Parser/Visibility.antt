-- ===== src/Parser/Visibility.antt =====
-- The visibility gate of src/parser/visibility.rs.
pub mod Gate
pub mod Types
use aspect.Prelude.{
  ℕ, ◌≡◌, Bool, true, false, not, ◌&&◌, ◌||◌, Option, none, some, List, [], ◌∷◌, if◌then◌else◌, Str,
  codes, str_eq, get_elem?, any, ◌==◌, Result, ok, err, ◌>>◌,
}
use aspect.Prelude.Checked.{Checked, returns, ◌>>!◌}
use aspect.Lexer.Position.{Position}
use aspect.Scope.{get}
use aspect.Symbol.Module.{Visibility, private, public, TypeKind, TypeDef, noun}
use aspect.Symbol.Module.Registry.{type_def}
use aspect.Parser.Error.{ParserError, not_imported, private_named_type, private_symbol}
use aspect.Parser.State.{Parser}

unfoldable pub is_alias : TypeKind → Bool
is_alias (TypeKind.alias ty) = true
is_alias _ = false

unfoldable pub is_private : Visibility → Bool
is_private private = true
is_private public = false

-- `imports.get(module).is_some_and(...)`.
unfoldable pub lists : Option (List Str) → Str → Bool
lists none name = false
lists (some imports) name = any (λ import_. str_eq import_ name) imports

-- `name.contains('$')`.
unfoldable pub is_mangled : Str → Bool
is_mangled name = any (λ c. c == 36) name

unfoldable pub or_root : Option Str → Str
or_root none = []
or_root (some name) = name

module _ {F : Type 0} where
  unfoldable pub module_of_file : Parser F → ℕ → Str
  unfolding or_root
  module_of_file p file_id = or_root (get_elem? p.file_modules file_id)

  unfoldable pub check_import_visibility :
      Parser F → Str → Str → ℕ → Position → Result (ParserError F) (Unit {0})
  unfolding lists module_of_file not_imported
  check_import_visibility p kind name def_file_id use_pos =
      let def_module = module_of_file p def_file_id in
      let use_module = module_of_file p use_pos.file_id in
      if str_eq def_module use_module || lists (get p.module_imports use_module) def_module
      then ok tt
      else err (not_imported kind name def_module use_module use_pos)

  unfoldable pub private_type_error : Parser F → TypeDef → Position → ParserError F
  unfolding module_of_file private_named_type
  private_type_error p def use_pos =
      private_named_type def.kind def.name (module_of_file p def.file_id)
        (module_of_file p use_pos.file_id) use_pos

  unfoldable pub check_type_privacy :
      Parser F → TypeDef → Position → Result (ParserError F) (Unit {0})
  unfolding is_alias is_private module_of_file private_type_error
  check_type_privacy p def use_pos =
      if is_alias def.kind
      then ok tt
      else if is_private def.vis
          && not (str_eq (module_of_file p def.file_id) (module_of_file p use_pos.file_id))
      then err (private_type_error p def use_pos)
      else ok tt

  unfoldable pub check_def_visibility :
      Parser F → TypeDef → Position → Result (ParserError F) (Unit {0})
  unfolding check_import_visibility check_type_privacy noun
  check_def_visibility p def use_pos =
      check_import_visibility p (noun def.kind) def.name def.file_id use_pos
      >> check_type_privacy p def use_pos

  unfoldable pub check_type_visibility :
      Parser F → ℕ → Position → Checked (Result (ParserError F) (Unit {0}))
  unfolding check_def_visibility type_def
  check_type_visibility p id use_pos =
      type_def p.module_symbols id >>! λ def. returns (check_def_visibility p def use_pos)

  unfoldable pub check_name_privacy :
      Parser F → Str → Str → ℕ → Visibility → Position → Result (ParserError F) (Unit {0})
  unfolding is_mangled is_private module_of_file private_symbol
  check_name_privacy p kind name def_file_id vis use_pos =
      let def_module = module_of_file p def_file_id in
      let use_module = module_of_file p use_pos.file_id in
      if is_mangled name
      then ok tt
      else if is_private vis && not (str_eq def_module use_module)
      then err (private_symbol kind name def_module use_module use_pos)
      else ok tt

  unfoldable pub check_name_visibility :
      Parser F → Str → Str → ℕ → Visibility → Position → Result (ParserError F) (Unit {0})
  unfolding check_import_visibility check_name_privacy
  check_name_visibility p kind name def_file_id vis use_pos =
      check_import_visibility p kind name def_file_id use_pos
      >> check_name_privacy p kind name def_file_id vis use_pos
