-- ===== src/Symbol/Module/Lookups.antt =====
-- Lookups of named types in the tables that src/symbol/module.rs builds.
use aspect.Prelude.{◌≡◌, ◌⊎◌, refl, sym, ap, ◌∙◌, inl, inr, none, some, arith, Str, Option-cases}
use aspect.Prelude.Checked.{returns}
use aspect.Lexer.Position.{Position}
use aspect.Scope.{get}
use aspect.Symbol.Module.{TypeDef, ModuleSymbols}
use aspect.Symbol.Module.Registry.{type_id, def_at, lookup_type, type_def}
use aspect.Symbol.Module.WellFormed.{WellFormed, IsWellFormed}
use aspect.Symbol.Module.Reached.{Reached, Reached-IsWellFormed}

-- Looking up a name in a table that the operations build never panics: it finds nothing where the
-- name has no id, and else the one definition of that name, which stands at the name's id.
pub lookup_type-returns :
    (m : ModuleSymbols) (name : Str)
    → Reached m
    → (type_id m name ≡ none) × (lookup_type m name ≡ returns none)
      ⊎ ((d : TypeDef) × (d.name ≡ name)
          × (type_id m name ≡ some d.id)
          × (lookup_type m name ≡ returns (some d))
          × (type_def m d.id ≡ returns d))
unfolding lookup_type type_id type_def def_at IsWellFormed
lookup_type-returns m name r = elim (Option-cases (get m.types_by_name name)) [
  | inl e ↦ inl (e, rw e refl)
  | inr (id, e) ↦
      let w : WellFormed m.types m.types_by_name = Reached-IsWellFormed m r in
      let (d, at_id, named) = w.known name id e in
      let same = w.ids id d at_id in
      inr (d, named, e ∙ ap some (sym same), ground (arith, e, at_id), ground (arith, same, at_id))
]
