-- ===== src/Symbol/Module/Fields.antt =====
-- The field index that `set_fields` of src/symbol/module.rs builds.
use aspect.Prelude.{
  ℕ, zero, suc, ◌+◌, ◌≤◌, ◌≡◌, ◌≢◌, refl, sym, ap, subst, ◌⊎◌, inl, inr, none, some, true, List, [],
  ◌∷◌, arith, Str, get_elem?, Option-cases,
}
use aspect.Prelude.Checked.{Checked, returns, >>!-eq-returns, returns-inj}
use aspect.Scope.{get}
use aspect.Scope.Bindings.{get-cases, get-none}
use aspect.Symbol.Module.{
  FieldInfo, MethodSig, SumVariant, StructBody, TypeKind, TypeDef, as_struct_body,
}
use aspect.Symbol.Module.Bodies.{
  index_fields, kind_with_fields, kind_with_enum_variants, kind_with_sum_variants, kind_with_method,
  define_body, change_body,
}
use aspect.Symbol.Module.Registry.{mark_defined}
use aspect.Symbol.Module.WellFormed.{IsIndexed, IsIndexedKind, Keeps}

-- `i` is the last field of that name.
pub record LastNamed (fields : List FieldInfo) (name : Str) (i : ℕ) : Type 0 where
  pub field : FieldInfo
  pub at_i : get_elem? fields i ≡ some field
  pub has_name : field.name ≡ name
  pub is_last : (j : ℕ) (f : FieldInfo) → get_elem? fields j ≡ some f → f.name ≡ name → j ≤ i

-- No field has that name.
unfoldable pub NoneNamed : List FieldInfo → Str → Type 0
NoneNamed fields name = (j : ℕ) (f : FieldInfo) → get_elem? fields j ≡ some f → f.name ≢ name

NoneNamed-nil : (name : Str) → NoneNamed [] name
unfolding NoneNamed
NoneNamed-nil name j f h e = cc

NoneNamed-cons :
    (field : FieldInfo) (fields : List FieldInfo) (name : Str)
    → field.name ≢ name
    → NoneNamed fields name
    → NoneNamed (field ∷ fields) name
unfolding NoneNamed
NoneNamed-cons field fields name n rest zero f h e = ground (arith, n)
NoneNamed-cons field fields name n rest (suc j) f h e = rest j f h e

is_last_cons :
    (field : FieldInfo) (fields : List FieldInfo) (name : Str) (i : ℕ)
    → ((j : ℕ) (f : FieldInfo) → get_elem? fields j ≡ some f → f.name ≡ name → j ≤ i)
    → (j : ℕ) (f : FieldInfo) → get_elem? (field ∷ fields) j ≡ some f
    → f.name ≡ name
    → j ≤ suc i
is_last_cons field fields name i l zero f h e = omega arith
is_last_cons field fields name i l (suc j) f h e = omega (arith, l j f h e)

is_last_here :
    (field : FieldInfo) (fields : List FieldInfo) (name : Str)
    → NoneNamed fields name
    → (j : ℕ) (f : FieldInfo) → get_elem? (field ∷ fields) j ≡ some f
    → f.name ≡ name
    → j ≤ 0
unfolding NoneNamed
is_last_here field fields name n zero f h e = omega arith
is_last_here field fields name n (suc j) f h e = absurd (n j f h e)

LastNamed-here :
    (field : FieldInfo) (fields : List FieldInfo) (name : Str)
    → field.name ≡ name
    → NoneNamed fields name
    → LastNamed (field ∷ fields) name 0
LastNamed-here field fields name e n = record {
  field = field;
  at_i = refl;
  has_name = e;
  is_last = is_last_here field fields name n;
}

LastNamed-cons :
    (field : FieldInfo) (fields : List FieldInfo) (name : Str) (i : ℕ)
    → LastNamed fields name i
    → LastNamed (field ∷ fields) name (suc i)
LastNamed-cons field fields name i l = record {
  field = l.field;
  at_i = l.at_i;
  has_name = l.has_name;
  is_last = is_last_cons field fields name i l.is_last;
}

-- A name in the index is that of the field it leads to, the last such one, or it was there before.
index_fields-cases :
    (k : ℕ) (fields : List FieldInfo) (indexed : List (Str × ℕ)) (name : Str) (i : ℕ)
    → get (index_fields k fields indexed) name ≡ some i
    → ((t : ℕ) × (i ≡ k + t) × LastNamed fields name t)
      ⊎ NoneNamed fields name × (get indexed name ≡ some i)
unfolding index_fields
index_fields-cases k [] indexed name i h = inr (NoneNamed-nil name, h)
index_fields-cases k (field ∷ fields) indexed name i h =
    elim (index_fields-cases (suc k) fields ((field.name, k) ∷ indexed) name i h) [
      | inl (t, e, l) ↦ inl (suc t, omega arith, LastNamed-cons field fields name t l)
      | inr (n, found) ↦ elim (get-cases indexed field.name name k i found) [
        | inl (e, same) ↦ inl (0, omega arith, LastNamed-here field fields name e n)
        | inr (other, old) ↦ inr (NoneNamed-cons field fields name other n, old)
      ]
    ]

index_fields-none :
    (k : ℕ) (fields : List FieldInfo) (indexed : List (Str × ℕ)) (name : Str)
    → get (index_fields k fields indexed) name ≡ none
    → NoneNamed fields name × (get indexed name ≡ none)
unfolding index_fields
index_fields-none k [] indexed name h = (NoneNamed-nil name, h)
index_fields-none k (field ∷ fields) indexed name h =
    let (n, found) = index_fields-none (suc k) fields ((field.name, k) ∷ indexed) name h in
    let (other, old) = get-none indexed field.name name k found in
    (NoneNamed-cons field fields name other n, old)

not_in_nil : (name : Str) (i : ℕ) → get {T = ℕ} [] name ≢ some i
unfolding get
not_in_nil name i h = cc

-- What a lookup in the index of all fields finds.
pub index_fields-lookup :
    (fields : List FieldInfo) (name : Str)
    → (NoneNamed fields name × (get (index_fields 0 fields []) name ≡ none))
      ⊎ ((i : ℕ) × LastNamed fields name i × (get (index_fields 0 fields []) name ≡ some i))
index_fields-lookup fields name = elim (Option-cases (get (index_fields 0 fields []) name)) [
  | inl e ↦ inl ((index_fields-none 0 fields [] name e).0, e)
  | inr (i, e) ↦ elim (index_fields-cases 0 fields [] name i e) [
    | inl (t, same, l) ↦ inr (t, l, ground (arith, e, same))
    | inr (n, old) ↦ absurd (not_in_nil name i old)
  ]
]

-- Filling in a body by `fill` leaves an index that fits.
unfoldable pub Fits : (TypeKind → Checked TypeKind) → Type 0
Fits fill = (k k' : TypeKind) → fill k ≡ returns k' → IsIndexedKind k → IsIndexedKind k'

struct-IsIndexedKind : (body : StructBody) → IsIndexed body → IsIndexedKind (TypeKind.struct body)
unfolding IsIndexedKind as_struct_body
struct-IsIndexedKind body fits body' e = subst IsIndexed (same e) fits
  where
    same : some body ≡ some body' → body ≡ body'
    same e = cc

field_index-IsIndexed :
    (fields : List FieldInfo) (body : StructBody)
    → IsIndexed (record body { fields = fields; field_index = index_fields 0 fields [] })
unfolding IsIndexed
field_index-IsIndexed fields body name i h = elim (index_fields-lookup fields name) [
  | inl (n, e) ↦ cc
  | inr (t, l, e) ↦ (l.field, ground (arith, l.at_i, e, h), l.has_name)
]

pub kind_with_fields-Fits : (fields : List FieldInfo) → Fits (kind_with_fields fields)
unfolding Fits kind_with_fields
kind_with_fields-Fits fields (TypeKind.struct body) k' h fits =
    subst IsIndexedKind (returns-inj h) (
      struct-IsIndexedKind (record body { fields = fields; field_index = index_fields 0 fields [] })
        (field_index-IsIndexed fields body))
kind_with_fields-Fits fields _ k' h fits = cc

pub kind_with_enum_variants-Fits : (variants : List Str) → Fits (kind_with_enum_variants variants)
unfolding Fits kind_with_enum_variants IsIndexedKind as_struct_body
kind_with_enum_variants-Fits variants (TypeKind.enum body) k' h fits body' e = cc
kind_with_enum_variants-Fits variants _ k' h fits body' e = cc

pub kind_with_sum_variants-Fits :
    (variants : List SumVariant) → Fits (kind_with_sum_variants variants)
unfolding Fits kind_with_sum_variants IsIndexedKind as_struct_body
kind_with_sum_variants-Fits variants (TypeKind.sum body) k' h fits body' e = cc
kind_with_sum_variants-Fits variants _ k' h fits body' e = cc

pub kind_with_method-Fits : (name : Str) (sig : MethodSig) → Fits (kind_with_method name sig)
unfolding Fits kind_with_method IsIndexedKind IsIndexed as_struct_body
kind_with_method-Fits name sig (TypeKind.struct body) k' h fits =
    subst IsIndexedKind (returns-inj h)
      (struct-IsIndexedKind (record body { methods = (name, sig) ∷ body.methods }) (fits body refl))
kind_with_method-Fits name sig _ k' h fits = cc

abbrev pub filled : TypeDef → TypeKind → Checked TypeDef
filled d kind = returns (record d { defined = true; kind = kind })

abbrev pub changed : TypeDef → TypeKind → Checked TypeDef
changed d kind = returns (record d { kind = kind })

pub define_body-Keeps : (fill : TypeKind → Checked TypeKind) → Fits fill → Keeps (define_body fill)
unfolding define_body Fits
define_body-Keeps fill fits = record {
  id = λ d d' h.
      let (k, r, e) = >>!-eq-returns (fill d.kind) (filled d) h in
      ap (λ x. x.id) (sym (returns-inj e));
  name = λ d d' h.
      let (k, r, e) = >>!-eq-returns (fill d.kind) (filled d) h in
      ap (λ x. x.name) (sym (returns-inj e));
  fits = λ d d' h f.
      let (k, r, e) = >>!-eq-returns (fill d.kind) (filled d) h in
      subst (λ x. IsIndexedKind x.kind) (returns-inj e) (fits d.kind k r f);
}

pub change_body-Keeps : (fill : TypeKind → Checked TypeKind) → Fits fill → Keeps (change_body fill)
unfolding change_body Fits
change_body-Keeps fill fits = record {
  id = λ d d' h.
      let (k, r, e) = >>!-eq-returns (fill d.kind) (changed d) h in
      ap (λ x. x.id) (sym (returns-inj e));
  name = λ d d' h.
      let (k, r, e) = >>!-eq-returns (fill d.kind) (changed d) h in
      ap (λ x. x.name) (sym (returns-inj e));
  fits = λ d d' h f.
      let (k, r, e) = >>!-eq-returns (fill d.kind) (changed d) h in
      subst (λ x. IsIndexedKind x.kind) (returns-inj e) (fits d.kind k r f);
}

pub mark_defined-Keeps : Keeps mark_defined
unfolding mark_defined
mark_defined-Keeps = record {
  id = λ d d' h. cc;
  name = λ d d' h. cc;
  fits = λ d d' h fits. subst (λ x. IsIndexedKind x.kind) (returns-inj h) fits;
}
