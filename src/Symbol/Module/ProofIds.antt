-- ===== src/Symbol/Module/ProofIds.antt =====
-- The ids that src/symbol/ids.rs calls proofs (`StructId`, `EnumId`, `SumId`): where
-- src/symbol/module.rs hands them out, and what they index ever after.
use aspect.Prelude.{
  ℕ, ◌≡◌, refl, subst, inl, inr, Bool, true, some, arith, Str, get_elem?, Option-cases,
}
use aspect.Prelude.Checked.{returns, expect-eq}
use aspect.Lexer.LangType
use aspect.Lexer.LangType.{LangType, plain}
use aspect.Symbol.Module.{
  StructBody, EnumBody, SumBody, TypeKind, TypeDef, ModuleSymbols, as_struct_body, as_enum_body,
  as_sum_body,
}
use aspect.Symbol.Module.Registry.{
  type_def, named_type, type_of_kind, id_if, id_of_kind, struct_id, enum_id, sum_id, proven,
  as_struct, as_enum, as_sum, is_struct_kind, is_enum_kind, is_sum_kind,
}
use aspect.Symbol.Module.Bodies.{struct_at, enum_at, sum_at}
use aspect.Symbol.Module.Reached.{Steps, none_yet, then_step, Reached}
use aspect.Symbol.Module.Lookups.{lookup_type-returns}
use aspect.Symbol.Module.Kinds.{
  Shape, struct_shape, enum_shape, sum_shape, alias_shape, shape, HasShape, Step-HasShape,
}

-- The places where a proof id is handed out.
pub data Minted (m : ModuleSymbols) : Shape → ℕ → Type 0 where
  struct_named :
      {id : ℕ} (name : Str) → struct_id m name ≡ returns (some id) → Minted m struct_shape id
  enum_named : {id : ℕ} (name : Str) → enum_id m name ≡ returns (some id) → Minted m enum_shape id
  sum_named : {id : ℕ} (name : Str) → sum_id m name ≡ returns (some id) → Minted m sum_shape id
  struct_proven : {id : ℕ} (raw : ℕ) → as_struct m raw ≡ some id → Minted m struct_shape id
  enum_proven : {id : ℕ} (raw : ℕ) → as_enum m raw ≡ some id → Minted m enum_shape id
  sum_proven : {id : ℕ} (raw : ℕ) → as_sum m raw ≡ some id → Minted m sum_shape id

-- Indexing with the id gives a body of that kind, and the id spells its own nominal type.
unfoldable pub HasBody : ModuleSymbols → Shape → ℕ → Type 0
unfolding plain
HasBody m struct_shape id =
    (body : StructBody) × (struct_at m id ≡ returns body)
    × (named_type m id ≡ returns (plain (LangType.struct id) 0 0))
HasBody m enum_shape id =
    (body : EnumBody) × (enum_at m id ≡ returns body)
    × (named_type m id ≡ returns (plain (LangType.enum id) 32 0))
HasBody m sum_shape id =
    (body : SumBody) × (sum_at m id ≡ returns body)
    × (named_type m id ≡ returns (plain (LangType.sum id) 0 0))
HasBody m alias_shape id = (target : LangType) × (named_type m id ≡ returns target)

module _ (m : ModuleSymbols) (want : TypeKind → Bool) (s : Shape)
    (fits : (k : TypeKind) → want k ≡ true → shape k ≡ s) where
  HasShape-of :
      (d : TypeDef) (id id' : ℕ)
      → type_def m id ≡ returns d
      → (want d.kind ≡ true) × (id ≡ id')
      → HasShape m.types id' s
  unfolding type_def
  HasShape-of d id id' h (wanted, same) = record {
    def = d;
    at_id = subst (λ i. get_elem? m.types i ≡ some d) same (expect-eq (get_elem? m.types id) h);
    has_shape = fits d.kind wanted;
  }

  id_of_kind-HasShape :
      (name : Str) (id : ℕ)
      → Reached m
      → id_of_kind m name want ≡ returns (some id)
      → HasShape m.types id s
  unfolding id_of_kind id_if
  id_of_kind-HasShape name id r h = elim (lookup_type-returns m name r) [
    | inl (unknown, e) ↦ absurd (ground (arith, e, h))
    | inr (d, named, known, e, at_id) ↦ HasShape-of d d.id id at_id (ground (arith, e, h))
  ]

  proven-HasShape :
      (raw id : ℕ) → proven want raw (get_elem? m.types raw) ≡ some id → HasShape m.types id s
  unfolding proven type_def
  proven-HasShape raw id h = elim (Option-cases (get_elem? m.types raw)) [
    | inl e ↦ absurd (ground (arith, e, h))
    | inr (d, e) ↦ HasShape-of d raw id (rw e refl) (ground (arith, e, h))
  ]

struct-shape : (k : TypeKind) → is_struct_kind k ≡ true → shape k ≡ struct_shape
unfolding is_struct_kind shape
struct-shape (TypeKind.struct body) h = refl
struct-shape _ h = cc

enum-shape : (k : TypeKind) → is_enum_kind k ≡ true → shape k ≡ enum_shape
unfolding is_enum_kind shape
enum-shape (TypeKind.enum body) h = refl
enum-shape _ h = cc

sum-shape : (k : TypeKind) → is_sum_kind k ≡ true → shape k ≡ sum_shape
unfolding is_sum_kind shape
sum-shape (TypeKind.sum body) h = refl
sum-shape _ h = cc

Minted-HasShape :
    (m : ModuleSymbols) (s : Shape) (id : ℕ) → Reached m → Minted m s id → HasShape m.types id s
unfolding struct_id enum_id sum_id as_struct as_enum as_sum
Minted-HasShape m s id r (struct_named name h) =
    id_of_kind-HasShape m is_struct_kind struct_shape struct-shape name id r h
Minted-HasShape m s id r (enum_named name h) =
    id_of_kind-HasShape m is_enum_kind enum_shape enum-shape name id r h
Minted-HasShape m s id r (sum_named name h) =
    id_of_kind-HasShape m is_sum_kind sum_shape sum-shape name id r h
Minted-HasShape m s id r (struct_proven raw h) =
    proven-HasShape m is_struct_kind struct_shape struct-shape raw id h
Minted-HasShape m s id r (enum_proven raw h) =
    proven-HasShape m is_enum_kind enum_shape enum-shape raw id h
Minted-HasShape m s id r (sum_proven raw h) =
    proven-HasShape m is_sum_kind sum_shape sum-shape raw id h

Steps-HasShape :
    (m after : ModuleSymbols) (s : Shape) (id : ℕ)
    → Steps m after
    → HasShape m.types id s
    → HasShape after.types id s
Steps-HasShape m after s id (none_yet) h = h
Steps-HasShape m after s id (then_step {middle = middle} steps step) h =
    Step-HasShape middle after id s step (Steps-HasShape m middle s id steps h)

HasBody-of_kind :
    (m : ModuleSymbols) (id : ℕ) (d : TypeDef) (k : TypeKind)
    → get_elem? m.types id ≡ some d
    → d.kind ≡ k
    → HasBody m (shape k) id
unfolding HasBody struct_at enum_at sum_at named_type type_of_kind shape as_struct_body as_enum_body
    as_sum_body plain
HasBody-of_kind m id d (TypeKind.struct body) h e =
    (body, ground (arith, h, e), ground (arith, h, e))
HasBody-of_kind m id d (TypeKind.enum body) h e = (body, ground (arith, h, e), ground (arith, h, e))
HasBody-of_kind m id d (TypeKind.sum body) h e = (body, ground (arith, h, e), ground (arith, h, e))
HasBody-of_kind m id d (TypeKind.alias target) h e = (target, ground (arith, h, e))

-- An id that `struct_id`, `enum_id` or `sum_id` gives for a name, or `as_struct`, `as_enum` or
-- `as_sum` for a raw id, in a table that the operations build, indexes a body of its kind and is
-- spelled as its own nominal type, in that table and in every table that operations make of it.
pub Minted-HasBody :
    (m after : ModuleSymbols) (s : Shape) (id : ℕ)
    → Reached m
    → Minted m s id
    → Steps m after
    → HasBody after s id
Minted-HasBody m after s id r minted steps =
    let h = Steps-HasShape m after s id steps (Minted-HasShape m s id r minted) in
    subst (λ t. HasBody after t id) h.has_shape
      (HasBody-of_kind after id h.def h.def.kind h.at_id refl)
