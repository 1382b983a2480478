-- ===== src/Scope/Lookups.antt =====
-- The global scope of a stack of src/scope.rs, and what a lookup finds.
use aspect.Prelude.{
  inl, inr, ℕ, suc, ◌<◌, ◌≡◌, refl, ap, subst, Bool, false, not, Option, none, some, List, [], ◌∷◌,
  arith, if◌then◌else◌, Str, str_eq, length, ◌==◌, Option-cases,
}
use aspect.Lexer.LangType.{is_some}
use aspect.Scope.{
  get, ScopeStack, new, enter, pop, exit, insert_in, insert, innermost_contains,
  contains_in_current, or_outer, find, lookup, or_scoped, find_scoped, lookup_scoped,
}

suc_nonzero : (n : ℕ) → (suc n == 0) ≡ false
suc_nonzero n = ground arith

module _ {ℓ} {T : Type ℓ} where
  -- The stacks that the operations can build.
  pub data Reachable : ScopeStack T → Type ℓ where
    start : Reachable new
    entered : {s : ScopeStack T} → Reachable s → Reachable (enter s)
    exited : {s : ScopeStack T} → Reachable s → Reachable (exit s)
    inserted :
        {s t : ScopeStack T} {old : Option T} (name : Str) (value : T)
        → insert s name value ≡ some (old, t)
        → Reachable s
        → Reachable t

  stack_or : ScopeStack T → Option (Option T × ScopeStack T) → ScopeStack T
  stack_or s none = s
  stack_or s (some (old, t)) = t

  insert-global :
      (scopes : List (List (Str × T))) (name : Str) (value : T) (old : Option T) (t : ScopeStack T)
      → insert_in scopes name value ≡ some (old, t)
      → 0 < length t.scopes
  unfolding insert_in stack_or
  insert-global [] name value old t h = absurd (ground arith)
  insert-global (scope ∷ scopes) name value old t h =
      subst (λ u. 0 < length u.scopes) (ap (stack_or new) h) (omega arith)

  exit-global :
      (scopes : List (List (Str × T)))
      → 0 < length scopes
      → 0 < length (exit (record { scopes = scopes })).scopes
  unfolding exit pop
  exit-global [] g = g
  exit-global (a ∷ []) g = g
  exit-global (a ∷ (b ∷ scopes)) g = ground arith

  Reachable-global : (s : ScopeStack T) → Reachable s → 0 < length s.scopes
  unfolding new enter insert
  Reachable-global s start = omega arith
  Reachable-global s (entered r) = omega arith
  Reachable-global s (exited {s = t} r) = exit-global t.scopes (Reachable-global t r)
  Reachable-global s (inserted {s = t} {old = old} name value h r) =
      insert-global t.scopes name value old s h

  insert_in-some :
      (scopes : List (List (Str × T))) (name : Str) (value : T)
      → 0 < length scopes
      → (t : ScopeStack T) × ((old : Option T) × (insert_in scopes name value ≡ some (old, t)))
        × ((other : Str)
            → find t.scopes other ≡ (if str_eq name other then some value else find scopes other))
  unfolding insert_in find get or_outer
  insert_in-some [] name value g = absurd (omega arith)
  insert_in-some (scope ∷ scopes) name value g = (
    record { scopes = ((name, value) ∷ scope) ∷ scopes },
    (get scope name, refl),
    λ other. ground arith,
  )

  -- An insertion into a stack that the operations can build does not panic, and afterwards a
  -- lookup finds the new value under its name and under any other name what it found before.
  pub insert-lookup :
      (s : ScopeStack T) (name : Str) (value : T)
      → Reachable s
      → (t : ScopeStack T) × ((old : Option T) × (insert s name value ≡ some (old, t)))
        × ((other : Str)
            → lookup t other ≡ (if str_eq name other then some value else lookup s other))
  unfolding insert lookup
  insert-lookup s name value r = insert_in-some s.scopes name value (Reachable-global s r)

  -- A new scope binds nothing and hides nothing.
  pub enter-lookup :
      (s : ScopeStack T) (name : Str)
      → (lookup (enter s) name ≡ lookup s name) × (contains_in_current (enter s) name ≡ false)
  unfolding enter lookup contains_in_current find get or_outer innermost_contains
  enter-lookup s name = (refl, refl)

  -- All the scopes but the outermost.
  unfoldable pub locals : List (List (Str × T)) → List (List (Str × T))
  locals [] = []
  locals (scope ∷ []) = []
  locals (scope ∷ (outer ∷ scopes)) = scope ∷ locals (outer ∷ scopes)

  unfoldable pub tag : Bool → Option T → Option (T × Bool)
  tag local none = none
  tag local (some value) = some (value, not local)

  find_scoped-tag :
      (scopes : List (List (Str × T))) (name : Str)
      → find_scoped scopes name ≡ tag (is_some (find (locals scopes) name)) (find scopes name)
  unfolding find_scoped find or_scoped or_outer tag locals
  find_scoped-tag [] name = refl
  find_scoped-tag (scope ∷ []) name = elim (Option-cases (get scope name)) [
    | inl e ↦ rw e refl
    | inr (v, e) ↦ rw e refl
  ]
  find_scoped-tag (scope ∷ (outer ∷ scopes)) name = elim (Option-cases (get scope name)) [
    | inl e ↦ rw e (find_scoped-tag (outer ∷ scopes) name)
    | inr (v, e) ↦ rw (e, suc_nonzero (length scopes)) refl
  ]

  -- `lookup_scoped` finds what `lookup` finds, and calls the binding global exactly when no scope but
  -- the outermost binds the name.
  pub lookup_scoped-lookup :
      (s : ScopeStack T) (name : Str)
      → lookup_scoped s name ≡ tag (is_some (find (locals s.scopes) name)) (lookup s name)
  unfolding lookup_scoped lookup
  lookup_scoped-lookup s name = find_scoped-tag s.scopes name
