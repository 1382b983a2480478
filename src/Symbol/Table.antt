-- ===== src/Symbol/Table.antt =====
-- The parse-time variable scopes of src/symbol/table.rs.
use aspect.Prelude.{
  inl, inr, ◌⊎◌, ◌≡◌, refl, Bool, Option, none, some, if◌then◌else◌, Str, str_eq, Bool-cases,
}
use aspect.Lexer.Position.{Position}
use aspect.Lexer.LangType.{LangType}
use aspect.Scope
use aspect.Scope.{ScopeStack, contains_in_current}
use aspect.Scope.Bindings.{BindsHere, contains-BindsHere, BindsHere-contains, insert-contains}
use aspect.Scope.Lookups.{Reachable, insert-lookup}

pub data SymbolError : Type 0 where
  duplicate_variable function_already_defined signature_mismatch : Str → SymbolError

pub record Symbol : Type 0 where
  pub name : Str
  pub symbol_type : LangType
  pub pos : Position

pub record SymbolTable : Type 0 where
  pub var_scopes : ScopeStack Symbol

-- What `add_variable` does: it adds, it refuses, or the stack panics.
pub data Added : Type 0 where
  added : SymbolTable → Added
  refused : SymbolError → Added
  panic : Added

unfoldable pub new : SymbolTable
new = record { var_scopes = Scope.new }

unfoldable pub enter_scope : SymbolTable → SymbolTable
enter_scope table = record { var_scopes = Scope.enter table.var_scopes }

unfoldable pub exit_scope : SymbolTable → SymbolTable
exit_scope table = record { var_scopes = Scope.exit table.var_scopes }

unfoldable pub added_to : Option (Option Symbol × ScopeStack Symbol) → Added
added_to none = panic
added_to (some (old, scopes)) = added (record { var_scopes = scopes })

unfoldable pub add_variable : SymbolTable → Str → LangType → Position → Added
unfolding added_to
add_variable table name symbol_type pos =
    if contains_in_current table.var_scopes name
    then refused (duplicate_variable name)
    else added_to (
        Scope.insert table.var_scopes name
          (record { name = name; symbol_type = symbol_type; pos = pos }))

unfoldable pub lookup_variable : SymbolTable → Str → Option Symbol
lookup_variable table name = Scope.lookup table.var_scopes name

unfoldable pub lookup_variable_scoped : SymbolTable → Str → Option (Symbol × Bool)
lookup_variable_scoped table name = Scope.lookup_scoped table.var_scopes name

-- On a table the operations can build `add_variable` never panics. It refuses a name that an
-- insertion has bound in the innermost scope. Any other name it adds: afterwards a lookup finds the
-- new symbol under its name, and under every other name what it found before, and the same name once
-- more is refused in that scope.
pub add_variable-lookup :
    (table : SymbolTable) (name : Str) (symbol_type : LangType) (pos : Position)
    → Reachable table.var_scopes
    → (BindsHere name table.var_scopes.scopes
        × (add_variable table name symbol_type pos ≡ refused (duplicate_variable name)))
      ⊎ ((BindsHere name table.var_scopes.scopes → ⊥)
          × ((after : SymbolTable) × (add_variable table name symbol_type pos ≡ added after)
              × ((other : Str)
                  → lookup_variable after other ≡ (
                      if str_eq name other
                      then some (record { name = name; symbol_type = symbol_type; pos = pos })
                      else lookup_variable table other))
              × ((type' : LangType) (pos' : Position)
                  → add_variable after name type' pos' ≡ refused (duplicate_variable name))))
unfolding add_variable lookup_variable
add_variable-lookup table name symbol_type pos r =
    elim (Bool-cases (contains_in_current table.var_scopes name)) [
      | inl e ↦ inl (contains-BindsHere table.var_scopes name e, rw e refl)
      | inr e ↦
          let symbol : Symbol = record { name = name; symbol_type = symbol_type; pos = pos } in
          let (after, (old, h), found) = insert-lookup table.var_scopes name symbol r in
          inr (
            λ b. let bound = BindsHere-contains table.var_scopes name b in cc,
            (
              record { var_scopes = after },
              rw (e, h) refl,
              found,
              λ type' pos'. rw (insert-contains table.var_scopes name symbol old after h) refl,
            ),
          )
    ]
