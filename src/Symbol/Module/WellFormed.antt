-- ===== src/Symbol/Module/WellFormed.antt =====
-- What holds of the registry of src/symbol/module.rs between any two operations, and the lemmas
-- on its two ways of changing: a definition added, and a definition changed in place.
use aspect.Prelude.{
  ℕ, ◌≡◌, refl, sym, ap, subst, ◌∙◌, ◌⊎◌, inl, inr, none, some, List, [], ◌∷◌, ◌++◌, arith, ◌==◌,
  Str, Bool-cases, length, get_elem?, get_elem?-lt, get_elem?-snoc,
}
use aspect.Prelude.Checked.{
  Checked, returns, >>!-eq-returns, returns-inj, modify_at, Changed, modify_at-Changed,
}
use aspect.Scope.{get}
use aspect.Scope.Bindings.{get-here, get-fresh, get-cases}
use aspect.Symbol.Module.{FieldInfo, StructBody, TypeKind, TypeDef, ModuleSymbols, as_struct_body}
use aspect.Symbol.Module.Registry.{with_def}
use aspect.Symbol.Module.Bodies.{on_type}

-- The index of a body leads to the fields of those names.
unfoldable pub IsIndexed : StructBody → Type 0
IsIndexed body =
    (name : Str) (i : ℕ)
    → get body.field_index name ≡ some i
    → (f : FieldInfo) × (get_elem? body.fields i ≡ some f) × (f.name ≡ name)

unfoldable pub IsIndexedKind : TypeKind → Type 0
unfolding IsIndexed
IsIndexedKind kind = (body : StructBody) → as_struct_body kind ≡ some body → IsIndexed body

-- A definition stands at its id and its name leads to it; a name leads to a definition of that
-- name; and every type-struct's index fits its fields.
pub record WellFormed (types : List TypeDef) (names : List (Str × ℕ)) : Type 0 where
  pub ids : (i : ℕ) (d : TypeDef) → get_elem? types i ≡ some d → d.id ≡ i
  pub named : (i : ℕ) (d : TypeDef) → get_elem? types i ≡ some d → get names d.name ≡ some i
  pub known :
      (name : Str) (i : ℕ)
      → get names name ≡ some i
      → (d : TypeDef) × (get_elem? types i ≡ some d) × (d.name ≡ name)
  pub indexed : (i : ℕ) (d : TypeDef) → get_elem? types i ≡ some d → IsIndexedKind d.kind

unfoldable pub IsWellFormed : ModuleSymbols → Type 0
IsWellFormed m = WellFormed m.types m.types_by_name

-- What a definition reads after another one is put behind the last.
snoc-cases :
    (types : List TypeDef) (def d : TypeDef) (i : ℕ)
    → get_elem? (types ++ def ∷ []) i ≡ some d
    → ((length types ≡ i) × (def ≡ d)) ⊎ (get_elem? types i ≡ some d)
snoc-cases types def d i h = ground (arith, get_elem?-snoc types def i)

pub snoc-last :
    (types : List TypeDef) (def : TypeDef) (i : ℕ)
    → length types ≡ i
    → get_elem? (types ++ def ∷ []) i ≡ some def
snoc-last types def i h = ground (arith, get_elem?-snoc types def i)

pub snoc-keeps :
    (types : List TypeDef) (def d : TypeDef) (i : ℕ)
    → get_elem? types i ≡ some d
    → get_elem? (types ++ def ∷ []) i ≡ some d
snoc-keeps types def d i h = ground (arith, get_elem?-snoc types def i, get_elem?-lt types i h)

pub with_def-WellFormed :
    (m : ModuleSymbols) (def : TypeDef)
    → IsWellFormed m
    → def.id ≡ length m.types
    → get m.types_by_name def.name ≡ none
    → IsIndexedKind def.kind
    → IsWellFormed (with_def m def)
unfolding IsWellFormed with_def
with_def-WellFormed m def w at_end fresh fits = record {
  ids = λ i d h. elim (snoc-cases m.types def d i h) [
    | inl (e, same) ↦ ap (λ x. x.id) (sym same) ∙ at_end ∙ e
    | inr old ↦ w.ids i d old
  ];
  named = λ i d h. elim (snoc-cases m.types def d i h) [
    | inl (e, same) ↦
        subst (λ x. get ((def.name, def.id) ∷ m.types_by_name) x.name ≡ some i) same
          (get-here m.types_by_name def.name def.id ∙ ap some (at_end ∙ e))
    | inr old ↦ get-fresh m.types_by_name def.name d.name def.id i fresh (w.named i d old)
  ];
  known = λ name i h. elim (get-cases m.types_by_name def.name name def.id i h) [
    | inl (e, same) ↦ (def, snoc-last m.types def i (sym at_end ∙ same), e)
    | inr (other, old) ↦
        let (d, at_i, e) = w.known name i old in (d, snoc-keeps m.types def d i at_i, e)
  ];
  indexed = λ i d h. elim (snoc-cases m.types def d i h) [
    | inl (e, same) ↦ subst (λ x. IsIndexedKind x.kind) same fits
    | inr old ↦ w.indexed i d old
  ];
}

-- A change of one definition that leaves its id and its name, and an index that fits.
pub record Keeps (f : TypeDef → Checked TypeDef) : Type 0 where
  pub id : (d d' : TypeDef) → f d ≡ returns d' → d'.id ≡ d.id
  pub name : (d d' : TypeDef) → f d ≡ returns d' → d'.name ≡ d.name
  pub fits : (d d' : TypeDef) → f d ≡ returns d' → IsIndexedKind d.kind → IsIndexedKind d'.kind

module _ (f : TypeDef → Checked TypeDef) {xs ys : List TypeDef} {i : ℕ}
    (c : Changed f xs i ys) where
  Changed-cases :
      (j : ℕ) (d : TypeDef)
      → get_elem? ys j ≡ some d
      → ((i ≡ j) × (c.now ≡ d)) ⊎ (get_elem? xs j ≡ some d)
  Changed-cases j d h = ground (arith, c.reads j)

  pub Changed-reads :
      (j : ℕ) (d : TypeDef)
      → get_elem? xs j ≡ some d
      → ((c.old ≡ d) × (get_elem? ys j ≡ some c.now)) ⊎ (get_elem? ys j ≡ some d)
  Changed-reads j d h = elim (Bool-cases (i == j)) [
    | inl e ↦ inl (ground (arith, c.was, c.reads j))
    | inr e ↦ inr (ground (arith, c.reads j))
  ]

  pub Changed-WellFormed :
      (names : List (Str × ℕ)) → Keeps f → WellFormed xs names → WellFormed ys names
  Changed-WellFormed names k w = record {
    ids = λ j d h. elim (Changed-cases j d h) [
      | inl (e, same) ↦
          ap (λ x. x.id) (sym same) ∙ k.id c.old c.now c.made ∙ w.ids i c.old c.was ∙ e
      | inr old ↦ w.ids j d old
    ];
    named = λ j d h. elim (Changed-cases j d h) [
      | inl (e, same) ↦
          ap (λ x. get names x.name) (sym same)
          ∙ ap (get names) (k.name c.old c.now c.made)
          ∙ w.named i c.old c.was
          ∙ ap some e
      | inr old ↦ w.named j d old
    ];
    known = λ name j h.
        let (d, at_j, e) = w.known name j h in
        elim (Changed-reads j d at_j) [
          | inl (same, now) ↦ (c.now, now, k.name c.old c.now c.made ∙ ap (λ x. x.name) same ∙ e)
          | inr kept ↦ (d, kept, e)
        ];
    indexed = λ j d h. elim (Changed-cases j d h) [
      | inl (e, same) ↦
          subst (λ x. IsIndexedKind x.kind) same
            (k.fits c.old c.now c.made (w.indexed i c.old c.was))
      | inr old ↦ w.indexed j d old
    ];
  }

-- An operation on one definition changes nothing but the list of definitions.
pub on_type-eq :
    (f : TypeDef → Checked TypeDef) (m after : ModuleSymbols) (id : ℕ)
    → on_type f m id ≡ returns after
    → Changed f m.types id after.types × (after ≡ record m { types = after.types })
unfolding on_type
on_type-eq f m after id h =
    let (types, r, e) =
      >>!-eq-returns (modify_at m.types id f) (λ types. returns (record m { types = types })) h in
    subst (λ a. Changed f m.types id a.types × (a ≡ record m { types = a.types })) (returns-inj e)
      (modify_at-Changed m.types id f types r, refl)

pub on_type-WellFormed :
    (f : TypeDef → Checked TypeDef) (m after : ModuleSymbols) (id : ℕ)
    → Keeps f
    → IsWellFormed m
    → on_type f m id ≡ returns after
    → IsWellFormed after
unfolding IsWellFormed
on_type-WellFormed f m after id k w h =
    let (c, e) = on_type-eq f m after id h in
    subst (λ names. WellFormed after.types names) (sym (ap (λ a. a.types_by_name) e))
      (Changed-WellFormed f c m.types_by_name k w)
