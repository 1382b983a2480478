-- ===== src/Scope/Blocks.antt =====
-- Scopes of src/scope.rs, opened and closed in pairs.
use aspect.Prelude.{
  suc, ◌<◌, ◌≡◌, refl, sym, ap, subst, ◌∙◌, Option, none, some, List, [], ◌∷◌, arith, Str, length,
}
use aspect.Scope.{ScopeStack, new, enter, pop, exit, insert_in, insert}

module _ {ℓ} {T : Type ℓ} where
  -- The stack holds its global scope.
  unfoldable pub HasGlobal : ScopeStack T → Type 0
  HasGlobal s = 0 < length s.scopes

  -- What runs between an `enter` and its `exit`: insertions, and blocks of the same kind.
  pub data Block : ScopeStack T → ScopeStack T → Type ℓ where
    done : {s : ScopeStack T} → Block s s
    bind :
        {s s' t : ScopeStack T} {old : Option T} (name : Str) (value : T)
        → insert s name value ≡ some (old, s')
        → Block s' t
        → Block s t
    nested : {s t u : ScopeStack T} → Block (enter s) t → Block (exit t) u → Block s u

  -- The scopes outside the innermost one stay, and there is still an innermost one.
  Outside : ScopeStack T → ScopeStack T → Type ℓ
  Outside s t = (pop t.scopes ≡ pop s.scopes) × HasGlobal t

  stack_or : ScopeStack T → Option (Option T × ScopeStack T) → ScopeStack T
  stack_or s none = s
  stack_or s (some (old, t)) = t

  insert-Outside :
      (scopes : List (List (Str × T))) (name : Str) (value : T) (old : Option T) (t : ScopeStack T)
      → insert_in scopes name value ≡ some (old, t)
      → (pop t.scopes ≡ pop scopes) × HasGlobal t
  unfolding insert_in pop HasGlobal stack_or
  insert-Outside [] name value old t h = absurd (ground arith)
  insert-Outside (scope ∷ scopes) name value old t h =
      subst (λ u. (pop u.scopes ≡ scopes) × HasGlobal u) (ap (stack_or new) h) (refl, omega arith)

  -- Popping a stack that holds more than its global scope removes the innermost scope.
  exit-pop : (s : ScopeStack T) → 1 < length s.scopes → (exit s).scopes ≡ pop s.scopes
  unfolding exit
  exit-pop s h = ground arith

  two_scopes :
      (scopes below : List (List (Str × T)))
      → pop scopes ≡ below
      → 0 < length below
      → 1 < length scopes
  unfolding pop
  two_scopes [] below e h = absurd (ground arith)
  two_scopes (scope ∷ scopes) below e h = subst (λ xs. 1 < suc (length xs)) (sym e) (omega arith)

  -- A block opened on `s` leaves the scopes of `s` as they were.
  enter-Outside :
      (s t : ScopeStack T) → HasGlobal s → Outside (enter s) t → (exit t).scopes ≡ s.scopes
  unfolding enter HasGlobal Outside pop
  enter-Outside s t g o = exit-pop t (two_scopes t.scopes s.scopes o.0 g) ∙ o.0

  Block-Outside : (s t : ScopeStack T) → HasGlobal s → Block s t → Outside s t
  unfolding Outside HasGlobal insert enter
  Block-Outside s t g (done) = (refl, g)
  Block-Outside s t g (bind {s' = s'} {old = old} name value h rest) =
      let first = insert-Outside s.scopes name value old s' h in
      let later = Block-Outside s' t first.1 rest in (later.0 ∙ first.0, later.1)
  Block-Outside s u g (nested {t = t} body rest) =
      let inside = Block-Outside (enter s) t (omega arith) body in
      let same = enter-Outside s t g inside in
      let later = Block-Outside (exit t) u (subst (λ xs. 0 < length xs) (sym same) g) rest in
      (later.0 ∙ ap pop same, later.1)

  -- From a stack that holds its global scope, after `enter` and any block, whatever it binds and
  -- however deeply it nests, `exit` gives back the stack.
  pub Block-exit : (s t : ScopeStack T) → HasGlobal s → Block (enter s) t → exit t ≡ s
  unfolding enter HasGlobal
  Block-exit s t g body =
      ap (λ xs. record { scopes = xs })
        (enter-Outside s t g (Block-Outside (enter s) t (omega arith) body))
