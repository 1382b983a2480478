-- ===== src/Symbol/Module/Interning.antt =====
-- What `intern_type` of src/symbol/module.rs gives back.
use aspect.Prelude.{ℕ, ◌≡◌, refl, sym, ap, subst, Option, none, some, Str, length, false}
use aspect.Prelude.Checked.{
  returns, ◌>>!◌, >>!-eq-returns, returns-inj, expect_u32, expect_u32-eq, modify_at, Changed,
  modify_at-Changed,
}
use aspect.Lexer.Position.{Position}
use aspect.Lexer.LangType.{LangType}
use aspect.Scope.{get}
use aspect.Symbol.Module.{Visibility, private, TypeKind, TypeDef, ModuleSymbols}
use aspect.Symbol.Module.Registry.{with_def, interned, intern_type, define_alias, mark_defined}
use aspect.Symbol.Module.WellFormed.{IsWellFormed, IsIndexedKind, with_def-WellFormed}

abbrev pub fresh_def : ModuleSymbols → Str → ℕ → Visibility → Position → TypeKind → TypeDef
fresh_def m name file_id vis pos kind = record {
  id = length m.types;
  name = name;
  file_id = file_id;
  vis = vis;
  pos = pos;
  defined = false;
  kind = kind;
}

-- The table as it was, for a name it knows; else one more definition.
pub data Interned (m : ModuleSymbols) (name : Str) (file_id : ℕ) (vis : Visibility) (pos : Position)
    (kind : TypeKind) : ModuleSymbols → ℕ → Type 0 where
  known : {id : ℕ} → get m.types_by_name name ≡ some id → Interned m name file_id vis pos kind m id
  added :
      get m.types_by_name name ≡ none
      → Interned m name file_id vis pos kind
          (with_def m (fresh_def m name file_id vis pos kind))
          (length m.types)

module _ (m : ModuleSymbols) (name : Str) (file_id : ℕ) (vis : Visibility) (pos : Position)
    (kind : TypeKind) where
  interned-Interned :
      (o : Option ℕ) (after : ModuleSymbols) (id : ℕ)
      → get m.types_by_name name ≡ o
      → interned m name file_id vis pos kind o ≡ returns (after, id)
      → Interned m name file_id vis pos kind after id
  unfolding interned
  interned-Interned (some old) after id e h =
      subst (λ r. Interned m name file_id vis pos kind r.0 r.1) (returns-inj h) (Interned.known e)
  interned-Interned none after id e h =
      let (n, r, made) =
        >>!-eq-returns (expect_u32 (length m.types))
          (λ n. returns (with_def m (record (fresh_def m name file_id vis pos kind) { id = n }), n))
          h in
      let start =
        subst
          (λ n.
            Interned m name file_id vis pos kind
              (with_def m (record (fresh_def m name file_id vis pos kind) { id = n })) n)
          (expect_u32-eq (length m.types) r) (Interned.added e) in
      subst (λ r. Interned m name file_id vis pos kind r.0 r.1) (returns-inj made) start

  pub intern_type-Interned :
      (after : ModuleSymbols) (id : ℕ)
      → intern_type m name file_id vis pos kind ≡ returns (after, id)
      → Interned m name file_id vis pos kind after id
  unfolding intern_type
  intern_type-Interned after id h = interned-Interned (get m.types_by_name name) after id refl h

  pub Interned-WellFormed :
      {after : ModuleSymbols} {id : ℕ}
      → IsWellFormed m
      → IsIndexedKind kind
      → Interned m name file_id vis pos kind after id
      → IsWellFormed after
  Interned-WellFormed w fits (Interned.known e) = w
  Interned-WellFormed w fits (Interned.added e) =
      with_def-WellFormed m (fresh_def m name file_id vis pos kind) w refl e fits

-- `define_alias` interns the name and marks its definition.
pub define_alias-eq :
    (m after : ModuleSymbols) (name : Str) (ty : LangType) (file_id id : ℕ) (pos : Position)
    → define_alias m name ty file_id pos ≡ returns (after, id)
    → (middle : ModuleSymbols) × Interned m name file_id private pos (TypeKind.alias ty) middle id
      × Changed mark_defined middle.types id after.types
      × (after.types_by_name ≡ middle.types_by_name)
unfolding define_alias
define_alias-eq m after name ty file_id id pos h =
    let ((t, i), r, e) =
      >>!-eq-returns (intern_type m name file_id private pos (TypeKind.alias ty))
        (λ (t, i).
          modify_at t.types i mark_defined >>! λ types. returns (record t { types = types }, i))
        h in
    let (types, changed, made) =
      >>!-eq-returns (modify_at t.types i mark_defined)
        (λ types. returns (record t { types = types }, i)) e in
    let same = returns-inj made in
    (
      t,
      subst (Interned m name file_id private pos (TypeKind.alias ty) t) (ap (λ x. x.1) same)
          (intern_type-Interned m name file_id private pos (TypeKind.alias ty) t i r),
      subst (λ x. Changed mark_defined t.types x.1 x.0.types) same
          (modify_at-Changed t.types i mark_defined types changed),
      ap (λ x. x.0.types_by_name) (sym same),
    )
