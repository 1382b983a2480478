-- ===== src/Scope.antt =====
-- The lexical scope stack of src/scope.rs. The stack is the source's `Vec` with the innermost scope
-- first; a `HashMap` is an association list of its insertions, the newest first.
pub mod Bindings
pub mod Blocks
pub mod Lookups
use aspect.Prelude.{
  ℕ, ◌+◌, ◌≡◌, Bool, true, false, Option, none, some, List, [], ◌∷◌, if◌then◌else◌, Str, str_eq,
  length, ltb, ◌==◌,
}
use aspect.Lexer.LangType.{is_some}

-- `HashMap::get`.
unfoldable pub get {ℓ} : {T : Type ℓ} → List (Str × T) → Str → Option T
get [] name = none
get ((key, value) ∷ scope) name =
    let rest = get scope name in if str_eq key name then some value else rest

pub record ScopeStack {ℓ} (T : Type ℓ) : Type ℓ where
  pub scopes : List (List (Str × T))

module _ {ℓ} {T : Type ℓ} where
  unfoldable pub new : ScopeStack T
  new = record { scopes = [] ∷ [] }

  unfoldable pub enter : ScopeStack T → ScopeStack T
  enter s = record { scopes = [] ∷ s.scopes }

  unfoldable pub pop : List (List (Str × T)) → List (List (Str × T))
  pop [] = []
  pop (scope ∷ scopes) = scopes

  unfoldable pub exit : ScopeStack T → ScopeStack T
  unfolding pop
  exit s = if ltb 1 (length s.scopes) then record { scopes = pop s.scopes } else s

  -- `insert` on the scopes: `none` where the source's `expect` panics, and else the previous binding
  -- with the new scopes.
  unfoldable pub insert_in : List (List (Str × T)) → Str → T → Option (Option T × ScopeStack T)
  insert_in [] name value = none
  insert_in (scope ∷ scopes) name value =
      some (get scope name, record { scopes = ((name, value) ∷ scope) ∷ scopes })

  unfoldable pub insert : ScopeStack T → Str → T → Option (Option T × ScopeStack T)
  unfolding insert_in
  insert s name value = insert_in s.scopes name value

  unfoldable pub innermost_contains : List (List (Str × T)) → Str → Bool
  innermost_contains [] name = false
  innermost_contains (scope ∷ scopes) name = is_some (get scope name)

  unfoldable pub contains_in_current : ScopeStack T → Str → Bool
  unfolding innermost_contains
  contains_in_current s name = innermost_contains s.scopes name

  unfoldable pub or_outer : Option T → Option T → Option T
  or_outer (some value) outer = some value
  or_outer none outer = outer

  unfoldable pub find : List (List (Str × T)) → Str → Option T
  unfolding or_outer
  find [] name = none
  find (scope ∷ scopes) name = or_outer (get scope name) (find scopes name)

  unfoldable pub lookup : ScopeStack T → Str → Option T
  unfolding find
  lookup s name = find s.scopes name

  unfoldable pub or_scoped : Option T → Bool → Option (T × Bool) → Option (T × Bool)
  or_scoped (some value) global outer = some (value, global)
  or_scoped none global outer = outer

  -- The depth of a scope is the number of scopes outside it.
  unfoldable pub find_scoped : List (List (Str × T)) → Str → Option (T × Bool)
  unfolding or_scoped
  find_scoped [] name = none
  find_scoped (scope ∷ scopes) name =
      or_scoped (get scope name) (length scopes == 0) (find_scoped scopes name)

  unfoldable pub lookup_scoped : ScopeStack T → Str → Option (T × Bool)
  unfolding find_scoped
  lookup_scoped s name = find_scoped s.scopes name
