-- ===== src/Symbol/Module/Registry.antt =====
-- The named types of src/symbol/module.rs: interning a name, and the lookups by name and by id.
use aspect.Prelude.{
  ℕ, Bool, true, false, Option, none, some, List, [], ◌∷◌, ◌++◌, if◌then◌else◌, Str, length,
  get_elem?,
}
use aspect.Prelude.Checked.{Checked, returns, ◌>>!◌, index, modify_at, expect_u32}
use aspect.Lexer.Position.{Position}
use aspect.Lexer.LangType
use aspect.Lexer.LangType.{LangType, plain}
use aspect.Scope.{get}
use aspect.Symbol.Module.{Visibility, private, TypeKind, TypeDef, ModuleSymbols, as_alias_target}

unfoldable pub is_struct_kind : TypeKind → Bool
is_struct_kind (TypeKind.struct body) = true
is_struct_kind _ = false

unfoldable pub is_enum_kind : TypeKind → Bool
is_enum_kind (TypeKind.enum body) = true
is_enum_kind _ = false

unfoldable pub is_sum_kind : TypeKind → Bool
is_sum_kind (TypeKind.sum body) = true
is_sum_kind _ = false

unfoldable pub with_def : ModuleSymbols → TypeDef → ModuleSymbols
with_def m def = record m {
  types = m.types ++ def ∷ [];
  types_by_name = (def.name, def.id) ∷ m.types_by_name;
}

unfoldable pub interned :
    ModuleSymbols
    → Str
    → ℕ
    → Visibility
    → Position
    → TypeKind
    → Option ℕ
    → Checked (ModuleSymbols × ℕ)
unfolding with_def expect_u32
interned m name file_id vis pos kind (some id) = returns (m, id)
interned m name file_id vis pos kind none = expect_u32 (length m.types) >>! λ id. returns (
  with_def m (record {
    id = id;
    name = name;
    file_id = file_id;
    vis = vis;
    pos = pos;
    defined = false;
    kind = kind;
  }),
  id,
)

unfoldable pub intern_type :
    ModuleSymbols → Str → ℕ → Visibility → Position → TypeKind → Checked (ModuleSymbols × ℕ)
unfolding interned
intern_type m name file_id vis pos kind =
    interned m name file_id vis pos kind (get m.types_by_name name)

unfoldable pub type_id : ModuleSymbols → Str → Option ℕ
type_id m name = get m.types_by_name name

unfoldable pub def_at : ModuleSymbols → Option ℕ → Checked (Option TypeDef)
def_at m none = returns none
def_at m (some id) = index m.types id >>! λ def. returns (some def)

unfoldable pub lookup_type : ModuleSymbols → Str → Checked (Option TypeDef)
unfolding def_at
lookup_type m name = def_at m (get m.types_by_name name)

unfoldable pub type_def : ModuleSymbols → ℕ → Checked TypeDef
type_def m id = index m.types id

unfoldable pub type_of_kind : TypeKind → ℕ → LangType
unfolding plain
type_of_kind (TypeKind.struct body) id = plain (LangType.struct id) 0 0
type_of_kind (TypeKind.enum body) id = plain (LangType.enum id) 32 0
type_of_kind (TypeKind.sum body) id = plain (LangType.sum id) 0 0
type_of_kind (TypeKind.alias target) id = target

unfoldable pub named_type : ModuleSymbols → ℕ → Checked LangType
unfolding type_of_kind
named_type m id = index m.types id >>! λ def. returns (type_of_kind def.kind id)

-- `then_some`.
unfoldable pub id_if : (TypeKind → Bool) → Option TypeDef → Option ℕ
id_if want none = none
id_if want (some def) = if want def.kind then some def.id else none

unfoldable pub id_of_kind : ModuleSymbols → Str → (TypeKind → Bool) → Checked (Option ℕ)
unfolding id_if lookup_type
id_of_kind m name want = lookup_type m name >>! λ def. returns (id_if want def)

unfoldable pub struct_id : ModuleSymbols → Str → Checked (Option ℕ)
unfolding id_of_kind is_struct_kind
struct_id m name = id_of_kind m name is_struct_kind

unfoldable pub enum_id : ModuleSymbols → Str → Checked (Option ℕ)
unfolding id_of_kind is_enum_kind
enum_id m name = id_of_kind m name is_enum_kind

unfoldable pub sum_id : ModuleSymbols → Str → Checked (Option ℕ)
unfolding id_of_kind is_sum_kind
sum_id m name = id_of_kind m name is_sum_kind

-- `types.get(id)?` with `matches!`: `as_struct`, `as_enum` and `as_sum`.
unfoldable pub proven : (TypeKind → Bool) → ℕ → Option TypeDef → Option ℕ
proven want id none = none
proven want id (some def) = if want def.kind then some id else none

unfoldable pub as_struct : ModuleSymbols → ℕ → Option ℕ
unfolding proven is_struct_kind
as_struct m id = proven is_struct_kind id (get_elem? m.types id)

unfoldable pub as_enum : ModuleSymbols → ℕ → Option ℕ
unfolding proven is_enum_kind
as_enum m id = proven is_enum_kind id (get_elem? m.types id)

unfoldable pub as_sum : ModuleSymbols → ℕ → Option ℕ
unfolding proven is_sum_kind
as_sum m id = proven is_sum_kind id (get_elem? m.types id)

-- The definitions of one kind, with their ids: `structs`, `enums` and `sums`.
unfoldable pub of_kind : (TypeKind → Bool) → List TypeDef → List (ℕ × TypeDef)
of_kind want [] = []
of_kind want (def ∷ defs) =
    let rest = of_kind want defs in if want def.kind then (def.id, def) ∷ rest else rest

unfoldable pub structs : ModuleSymbols → List (ℕ × TypeDef)
unfolding of_kind is_struct_kind
structs m = of_kind is_struct_kind m.types

unfoldable pub enums : ModuleSymbols → List (ℕ × TypeDef)
unfolding of_kind is_enum_kind
enums m = of_kind is_enum_kind m.types

unfoldable pub sums : ModuleSymbols → List (ℕ × TypeDef)
unfolding of_kind is_sum_kind
sums m = of_kind is_sum_kind m.types

unfoldable pub mark_defined : TypeDef → Checked TypeDef
mark_defined def = returns (record def { defined = true })

unfoldable pub define_alias :
    ModuleSymbols → Str → LangType → ℕ → Position → Checked (ModuleSymbols × ℕ)
unfolding intern_type mark_defined modify_at
define_alias m name ty file_id pos =
    intern_type m name file_id private pos (TypeKind.alias ty) >>! λ (after, id).
    modify_at after.types id mark_defined >>! λ types. returns (record after { types = types }, id)

unfoldable pub target_of : Option TypeDef → Option LangType
unfolding as_alias_target
target_of none = none
target_of (some def) = as_alias_target def.kind

unfoldable pub resolve_alias : ModuleSymbols → Str → Checked (Option LangType)
unfolding target_of lookup_type
resolve_alias m name = lookup_type m name >>! λ def. returns (target_of def)
