-- ===== src/Symbol/Module/FieldLookup.antt =====
-- `set_fields` and `field` of src/symbol/module.rs.
use aspect.Prelude.{ℕ, ◌≡◌, ◌⊎◌, refl, ap, inl, inr, none, some, List, [], Str, get_elem?, true}
use aspect.Prelude.Checked.{returns, expect, >>!-eq-returns, expect-eq, modify_at-returns}
use aspect.Symbol.Module.{FieldInfo, StructBody, TypeKind, TypeDef, ModuleSymbols, as_struct_body}
use aspect.Symbol.Module.Bodies.{
  index_fields, kind_with_fields, define_body, on_type, set_fields, struct_at, field_at, field_in,
  field,
}
use aspect.Symbol.Module.Fields.{LastNamed, NoneNamed, index_fields-lookup}

-- The body that `set_fields` leaves.
abbrev body_with : List FieldInfo → StructBody → StructBody
body_with fields body = record body { fields = fields; field_index = index_fields 0 fields [] }

as_struct_body-eq :
    (k : TypeKind) (body : StructBody) → as_struct_body k ≡ some body → k ≡ TypeKind.struct body
unfolding as_struct_body
as_struct_body-eq (TypeKind.struct b) body h = ap TypeKind.struct (cc)
as_struct_body-eq _ body h = cc

fills :
    (fields : List FieldInfo) (d : TypeDef) (body : StructBody)
    → d.kind ≡ TypeKind.struct body
    → define_body (kind_with_fields fields) d
      ≡ returns (record d { defined = true; kind = TypeKind.struct (body_with fields body) })
unfolding define_body kind_with_fields
fills fields d body e = rw e refl

set_fields-struct_at :
    (m : ModuleSymbols) (id : ℕ) (fields : List FieldInfo) (body : StructBody)
    → struct_at m id ≡ returns body
    → (after : ModuleSymbols) × (set_fields m id fields ≡ returns after)
      × (struct_at after id ≡ returns (body_with fields body))
unfolding struct_at set_fields on_type as_struct_body
set_fields-struct_at m id fields body h =
    let (d, at_id, e) =
      >>!-eq-returns (expect (get_elem? m.types id)) (λ d. expect (as_struct_body d.kind)) h in
    let kind = as_struct_body-eq d.kind body (expect-eq (as_struct_body d.kind) e) in
    let was = expect-eq (get_elem? m.types id) at_id in
    let fill = define_body (kind_with_fields fields) in
    let (types, r, now) =
      modify_at-returns m.types id fill d
        (record d { defined = true; kind = TypeKind.struct (body_with fields body) }) was
        (fills fields d body kind) in
    (record m { types = types }, rw r refl, rw now refl)

field_in-lookup :
    (fields : List FieldInfo) (body : StructBody) (name : Str)
    → (NoneNamed fields name × (field_in (body_with fields body) name ≡ returns none))
      ⊎ ((i : ℕ) × (l : LastNamed fields name i) × (field_in (body_with fields body) name
            ≡ returns (some (i, l.field))))
unfolding field_in field_at
field_in-lookup fields body name = elim (index_fields-lookup fields name) [
  | inl (n, e) ↦ inl (n, rw e refl)
  | inr (i, l, e) ↦ inr (i, l, rw (e, l.at_i) refl)
]

-- On an id that indexes a type-struct `set_fields` never panics, and afterwards `field` finds under a
-- name the last of the fields that has it, with its index, and nothing where none has it.
pub set_fields-field :
    (m : ModuleSymbols) (id : ℕ) (fields : List FieldInfo) (body : StructBody)
    → struct_at m id ≡ returns body
    → (after : ModuleSymbols) × (set_fields m id fields ≡ returns after)
      × ((name : Str)
          → (NoneNamed fields name × (field after id name ≡ returns none))
            ⊎ ((i : ℕ) × (l : LastNamed fields name i) × (field after id name
                  ≡ returns (some (i, l.field)))))
unfolding field
set_fields-field m id fields body h =
    let (after, done, now) = set_fields-struct_at m id fields body h in
    (after, done, λ name. rw now (field_in-lookup fields body name))
