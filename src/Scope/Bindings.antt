-- ===== src/Scope/Bindings.antt =====
-- A `HashMap` as the list of its insertions: what a lookup finds after one more, and what it binds.
use aspect.Prelude.{
  ◌≡◌, ◌≢◌, refl, ◌⊎◌, inl, inr, true, Option, none, some, some-inj, List, [], ◌∷◌, ap, subst,
  arith, Str, str_eq, str_eq_iff, str_eq_refl, Bool-cases,
}
use aspect.Lexer.LangType.{is_some}
use aspect.Scope.{get, ScopeStack, insert_in, insert, innermost_contains, contains_in_current}

module _ {ℓ} {T : Type ℓ} where
  pub get-here : (names : List (Str × T)) (key : Str) (a : T) → get ((key, a) ∷ names) key ≡ some a
  unfolding get
  get-here names key a = rw (str_eq_refl key) refl

  pub get-fresh :
      (names : List (Str × T)) (key name : Str) (a b : T)
      → get names key ≡ none
      → get names name ≡ some b
      → get ((key, a) ∷ names) name ≡ some b
  unfolding get
  get-fresh names key name a b fresh h = ground (arith, str_eq_iff key name)

  pub get-other :
      (names : List (Str × T)) (key name : Str) (a : T)
      → key ≢ name
      → get ((key, a) ∷ names) name ≡ get names name
  unfolding get
  get-other names key name a differ = elim (Bool-cases (str_eq key name)) [
    | inl e ↦ absurd (differ ((str_eq_iff key name).0 e))
    | inr e ↦ rw e refl
  ]

  -- A lookup after an insertion finds the new value under its own name, and else an old one.
  pub get-cases :
      (names : List (Str × T)) (key name : Str) (a b : T)
      → get ((key, a) ∷ names) name ≡ some b
      → ((key ≡ name) × (a ≡ b)) ⊎ ((key ≢ name) × (get names name ≡ some b))
  unfolding get
  get-cases names key name a b h = elim (Bool-cases (str_eq key name)) [
    | inl e ↦ inl ((str_eq_iff key name).0 e, ground arith)
    | inr e ↦ inr (λ same. ground (arith, str_eq_iff key name), ground arith)
  ]

  pub get-none :
      (names : List (Str × T)) (key name : Str) (a : T)
      → get ((key, a) ∷ names) name ≡ none
      → (key ≢ name) × (get names name ≡ none)
  unfolding get
  get-none names key name a h = (λ same. ground (arith, str_eq_iff key name), ground arith)

  -- An insertion has bound the name.
  pub data Binds (name : Str) : List (Str × T) → Type ℓ where
    newest :
        {key : Str} {value : T} {scope : List (Str × T)}
        → key ≡ name
        → Binds name ((key, value) ∷ scope)
    older :
        {key : Str} {value : T} {scope : List (Str × T)}
        → Binds name scope
        → Binds name ((key, value) ∷ scope)

  -- The innermost scope binds the name.
  pub data BindsHere (name : Str) : List (List (Str × T)) → Type ℓ where
    innermost :
        {scope : List (Str × T)} {scopes : List (List (Str × T))}
        → Binds name scope
        → BindsHere name (scope ∷ scopes)

  get-Binds :
      (scope : List (Str × T)) (name : Str) → is_some (get scope name) ≡ true → Binds name scope
  unfolding get
  get-Binds [] name h = cc
  get-Binds ((key, value) ∷ scope) name h = elim (Bool-cases (str_eq key name)) [
    | inl e ↦ newest ((str_eq_iff key name).0 e)
    | inr e ↦ older (get-Binds scope name (ground (arith, e, h)))
  ]

  Binds-get :
      (name : Str) (scope : List (Str × T)) → Binds name scope → is_some (get scope name) ≡ true
  unfolding get
  Binds-get name _ (newest {key = key} same) = rw ((str_eq_iff key name).1 same) refl
  Binds-get name _ (older {key = key} {scope = scope} b) = ground (arith, Binds-get name scope b)

  innermost-BindsHere :
      (scopes : List (List (Str × T))) (name : Str)
      → innermost_contains scopes name ≡ true
      → BindsHere name scopes
  unfolding innermost_contains
  innermost-BindsHere [] name h = cc
  innermost-BindsHere (scope ∷ scopes) name h = innermost (get-Binds scope name h)

  pub contains-BindsHere :
      (s : ScopeStack T) (name : Str) → contains_in_current s name ≡ true → BindsHere name s.scopes
  unfolding contains_in_current
  contains-BindsHere s name h = innermost-BindsHere s.scopes name h

  BindsHere-innermost :
      (scopes : List (List (Str × T))) (name : Str)
      → BindsHere name scopes
      → innermost_contains scopes name ≡ true
  unfolding innermost_contains
  BindsHere-innermost _ name (innermost {scope = scope} b) = Binds-get name scope b

  pub BindsHere-contains :
      (s : ScopeStack T) (name : Str) → BindsHere name s.scopes → contains_in_current s name ≡ true
  unfolding contains_in_current
  BindsHere-contains s name b = BindsHere-innermost s.scopes name b

  insert_in-contains :
      (scopes : List (List (Str × T))) (name : Str) (value : T) (old : Option T) (t : ScopeStack T)
      → insert_in scopes name value ≡ some (old, t)
      → innermost_contains t.scopes name ≡ true
  unfolding insert_in innermost_contains
  insert_in-contains [] name value old t h = cc
  insert_in-contains (scope ∷ scopes) name value old t h =
      subst (λ r. innermost_contains r.1.scopes name ≡ true) (some-inj h)
        (ap is_some (get-here scope name value))

  -- What was inserted is bound in the innermost scope.
  pub insert-contains :
      (s : ScopeStack T) (name : Str) (value : T) (old : Option T) (t : ScopeStack T)
      → insert s name value ≡ some (old, t)
      → contains_in_current t name ≡ true
  unfolding insert contains_in_current
  insert-contains s name value old t h = insert_in-contains s.scopes name value old t h
