-- ===== src/Symbol/Module/Bodies.antt =====
-- The bodies of the named types of src/symbol/module.rs: what the parser fills in, and the lookups
-- of fields and variants. They panic on an id of another kind or of no type.
use aspect.Prelude.{ℕ, suc, Bool, true, false, Option, none, some, List, [], ◌∷◌, Str, str_eq}
use aspect.Prelude.Checked.{Checked, returns, panics, ◌>>!◌, expect, index, modify_at}
use aspect.Scope.{get}
use aspect.Symbol.Module.{
  FieldInfo, MethodSig, SumVariant, StructBody, EnumBody, SumBody, TypeKind, TypeDef, ModuleSymbols,
  as_struct_body, as_enum_body, as_sum_body,
}
use aspect.Symbol.Module.TypeKind.{struct, enum, sum}

-- `fields.iter().enumerate()` collected into a map: of two fields of one name the later stays.
unfoldable pub index_fields : ℕ → List FieldInfo → List (Str × ℕ) → List (Str × ℕ)
index_fields i [] indexed = indexed
index_fields i (field ∷ fields) indexed = index_fields (suc i) fields ((field.name, i) ∷ indexed)

unfoldable pub kind_with_fields : List FieldInfo → TypeKind → Checked TypeKind
unfolding index_fields
kind_with_fields fields (struct body) =
    returns (struct (record body { fields = fields; field_index = index_fields 0 fields [] }))
kind_with_fields fields _ = panics

unfoldable pub kind_with_enum_variants : List Str → TypeKind → Checked TypeKind
kind_with_enum_variants variants (enum body) = returns (enum (record { variants = variants }))
kind_with_enum_variants variants _ = panics

unfoldable pub kind_with_sum_variants : List SumVariant → TypeKind → Checked TypeKind
kind_with_sum_variants variants (sum body) = returns (sum (record { variants = variants }))
kind_with_sum_variants variants _ = panics

unfoldable pub kind_with_method : Str → MethodSig → TypeKind → Checked TypeKind
kind_with_method name sig (struct body) =
    returns (struct (record body { methods = (name, sig) ∷ body.methods }))
kind_with_method name sig _ = panics

-- `defined = true`, and the new kind.
unfoldable pub define_body : (TypeKind → Checked TypeKind) → TypeDef → Checked TypeDef
define_body fill def =
    fill def.kind >>! λ kind. returns (record def { defined = true; kind = kind })

unfoldable pub change_body : (TypeKind → Checked TypeKind) → TypeDef → Checked TypeDef
change_body fill def = fill def.kind >>! λ kind. returns (record def { kind = kind })

unfoldable pub on_type : (TypeDef → Checked TypeDef) → ModuleSymbols → ℕ → Checked ModuleSymbols
unfolding modify_at
on_type change m id = modify_at m.types id change >>! λ types. returns (record m { types = types })

unfoldable pub set_fields : ModuleSymbols → ℕ → List FieldInfo → Checked ModuleSymbols
unfolding on_type define_body kind_with_fields
set_fields m id fields = on_type (define_body (kind_with_fields fields)) m id

unfoldable pub set_enum_variants : ModuleSymbols → ℕ → List Str → Checked ModuleSymbols
unfolding on_type define_body kind_with_enum_variants
set_enum_variants m id variants = on_type (define_body (kind_with_enum_variants variants)) m id

unfoldable pub set_sum_variants : ModuleSymbols → ℕ → List SumVariant → Checked ModuleSymbols
unfolding on_type define_body kind_with_sum_variants
set_sum_variants m id variants = on_type (define_body (kind_with_sum_variants variants)) m id

unfoldable pub add_method : ModuleSymbols → ℕ → Str → MethodSig → Checked ModuleSymbols
unfolding on_type change_body kind_with_method
add_method m id name sig = on_type (change_body (kind_with_method name sig)) m id

-- `module[id]`, for each kind of id.
unfoldable pub struct_at : ModuleSymbols → ℕ → Checked StructBody
unfolding as_struct_body
struct_at m id = index m.types id >>! λ def. expect (as_struct_body def.kind)

unfoldable pub enum_at : ModuleSymbols → ℕ → Checked EnumBody
unfolding as_enum_body
enum_at m id = index m.types id >>! λ def. expect (as_enum_body def.kind)

unfoldable pub sum_at : ModuleSymbols → ℕ → Checked SumBody
unfolding as_sum_body
sum_at m id = index m.types id >>! λ def. expect (as_sum_body def.kind)

unfoldable pub field_at : List FieldInfo → Option ℕ → Checked (Option (ℕ × FieldInfo))
field_at fields none = returns none
field_at fields (some i) = index fields i >>! λ field. returns (some (i, field))

unfoldable pub field_in : StructBody → Str → Checked (Option (ℕ × FieldInfo))
unfolding field_at
field_in body name = field_at body.fields (get body.field_index name)

unfoldable pub field : ModuleSymbols → ℕ → Str → Checked (Option (ℕ × FieldInfo))
unfolding field_in struct_at
field m id name = struct_at m id >>! λ body. field_in body name

unfoldable pub or_next : Bool → Option ℕ → Option ℕ
or_next true rest = some 0
or_next false none = none
or_next false (some i) = some (suc i)

-- `iter().position`.
unfoldable pub position {ℓ} : {A : Type ℓ} → (A → Bool) → List A → Option ℕ
unfolding or_next
position p [] = none
position p (x ∷ xs) = or_next (p x) (position p xs)

unfoldable pub enum_variant_index : ModuleSymbols → ℕ → Str → Checked (Option ℕ)
unfolding enum_at position
enum_variant_index m id variant =
    enum_at m id >>! λ body. returns (position (λ v. str_eq v variant) body.variants)

unfoldable pub sum_variant_index : ModuleSymbols → ℕ → Str → Checked (Option ℕ)
unfolding sum_at position
sum_variant_index m id variant =
    sum_at m id >>! λ body. returns (position (λ v. str_eq v.name variant) body.variants)
