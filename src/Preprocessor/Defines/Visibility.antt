-- ===== src/Preprocessor/Defines/Visibility.antt =====
-- The redefinition rule of `define` (src/preprocessor/defines.rs) and the tables it builds.
use aspect.Prelude.{
  ℕ, ◌≡◌, refl, inl, inr, false, Option, none, some, List, [], ◌∷◌, ◌++◌, arith, Str, str_eq,
  str_eq_iff, Bool-cases, Option-cases, All, Ensures, ◌≢◌, ◌⊎◌, ◌↔◌, true, sym, subst,
}
use mathlib.Core.List.{Memᴰ}
use mathlib.Core.List.Memᴰ
use aspect.Lexer.Position.{Position}
use aspect.Lexer.Token.{Token}
use aspect.Preprocessor.Error.{DefineOrigin}
use aspect.Preprocessor.Defines.{
  Define, DefineTable, FileModules, module_of, home_module, collides, lookup, push, collision,
  defs_of, define, survives, retain, keep, undefine,
}

collides_symm : (a b : Option Str) → collides a b ≡ false → collides b a ≡ false
unfolding collides
collides_symm (some a) (some b) h = ground (arith, str_eq_iff a b, str_eq_iff b a)
collides_symm (some a) none h = cc
collides_symm none b h = cc

module _ (file_modules : FileModules) where
  -- An origin that is not a `$define` of a file of the same module as `this_file`.
  pub data Elsewhere (this_file : ℕ) : DefineOrigin → Type 0 where
    by_compiler : Elsewhere this_file DefineOrigin.builtin
    by_command_line : Elsewhere this_file DefineOrigin.cli
    by_module :
        {pos : Position}
        → module_of file_modules pos.file_id ≢ module_of file_modules this_file
        → Elsewhere this_file (DefineOrigin.directive pos)

  survives-cases :
      (this_file : ℕ) (o : DefineOrigin)
      → Elsewhere this_file o × (survives this_file file_modules o ≡ true)
        ⊎ (Elsewhere this_file o → ⊥) × (survives this_file file_modules o ≡ false)
  unfolding survives
  survives-cases this_file DefineOrigin.builtin = inl (by_compiler, refl)
  survives-cases this_file DefineOrigin.cli = inl (by_command_line, refl)
  survives-cases this_file (DefineOrigin.directive pos) =
      elim (Bool-cases
        (str_eq (module_of file_modules pos.file_id) (module_of file_modules this_file))) [
          | inl e ↦ inr (own ((str_eq_iff _ _).0 e), rw e refl)
          | inr e ↦ inl (by_module (λ same. ground (arith, (str_eq_iff _ _).1 same, e)), rw e refl)
        ]
    where
      own :
          module_of file_modules pos.file_id ≡ module_of file_modules this_file
          → Elsewhere this_file (DefineOrigin.directive pos)
          → ⊥
      own same (by_module other) = other same

module _ {F : Type 0} (file_modules : FileModules) where
  abbrev home : Define F → Option Str
  home def = home_module def.origin file_modules

  -- No two of the defines collide.
  abbrev pub Apart : List (Define F) → Type 0
  Apart [] = Unit
  Apart (def ∷ defs) = All (λ other. collides (home def) (home other) ≡ false) defs × Apart defs

  -- A name has one entry, and the defines of every name are apart.
  abbrev pub IsConsistent : DefineTable F → Type 0
  IsConsistent [] = Unit
  IsConsistent ((key, defs) ∷ m) = Apart defs × (lookup key m ≡ none) × IsConsistent m

  collision-none :
      (h : Option Str) (defs : List (Define F))
      → collision h file_modules defs ≡ none
      → All (λ other. collides h (home other) ≡ false) defs
  unfolding collision
  collision-none h [] e = tt
  collision-none h (def ∷ defs) e = elim (Bool-cases (collides h (home def))) [
    | inl hit ↦ cc (rw hit at e)
    | inr miss ↦ (miss, collision-none h defs (rw miss at e))
  ]

  All-concat :
      (h : Option Str) (defs : List (Define F)) (def : Define F)
      → All (λ other. collides h (home other) ≡ false) defs
      → collides h (home def) ≡ false
      → All (λ other. collides h (home other) ≡ false) (defs ++ def ∷ [])
  All-concat h [] def a c = (c, tt)
  All-concat h (d ∷ defs) def a c = (a.0, All-concat h defs def a.1 c)

  Apart-concat :
      (defs : List (Define F)) (def : Define F)
      → Apart defs
      → All (λ other. collides (home def) (home other) ≡ false) defs
      → Apart (defs ++ def ∷ [])
  Apart-concat [] def a c = (tt, tt)
  Apart-concat (d ∷ defs) def a c = (
    All-concat (home d) defs def a.0 (collides_symm (home def) (home d) c.0),
    Apart-concat defs def a.1 c.1,
  )

  lookup-push_ne :
      (key name : Str) (def : Define F) (m : DefineTable F)
      → str_eq key name ≡ false
      → lookup key m ≡ none
      → lookup key (push name def m) ≡ none
  unfolding lookup push
  lookup-push_ne key name def [] ne e = ground (arith, str_eq_iff key name, str_eq_iff name key)
  lookup-push_ne key name def ((k, defs) ∷ m) ne e =
      ground (arith, lookup-push_ne key name def m ne)

  lookup-undefine-none :
      (key name : Str) (this_file : ℕ) (m : DefineTable F)
      → lookup key m ≡ none
      → lookup key (undefine name this_file file_modules m) ≡ none
  unfolding lookup undefine keep
  lookup-undefine-none key name this_file [] e = refl
  lookup-undefine-none key name this_file ((k, defs) ∷ m) e =
      ground (arith, lookup-undefine-none key name this_file m)

  push-IsConsistent :
      (name : Str) (def : Define F) (table : DefineTable F)
      → IsConsistent table
      → All (λ other. collides (home def) (home other) ≡ false) (defs_of name table)
      → IsConsistent (push name def table)
  unfolding push defs_of
  push-IsConsistent name def [] c a = ((tt, tt), refl, tt)
  push-IsConsistent name def ((key, defs) ∷ m) c a = elim (Bool-cases (str_eq key name)) [
    | inl same ↦ rw same (Apart-concat defs def c.0 (rw same at a), c.1, c.2)
    | inr other ↦ rw other (
      c.0,
      lookup-push_ne key name def m other c.1,
      push-IsConsistent name def m c.2 (rw other at a),
    )
  ]

  retain-All :
      (h : Option Str) (this_file : ℕ) (defs : List (Define F))
      → All (λ other. collides h (home other) ≡ false) defs
      → All (λ other. collides h (home other) ≡ false) (retain this_file file_modules defs)
  unfolding retain
  retain-All h this_file [] a = tt
  retain-All h this_file (def ∷ defs) a =
      elim (Bool-cases (survives this_file file_modules def.origin)) [
        | inl e ↦ rw e (a.0, retain-All h this_file defs a.1)
        | inr e ↦ rw e (retain-All h this_file defs a.1)
      ]

  retain-Apart :
      (this_file : ℕ) (defs : List (Define F))
      → Apart defs
      → Apart (retain this_file file_modules defs)
  unfolding retain
  retain-Apart this_file [] a = tt
  retain-Apart this_file (def ∷ defs) a =
      elim (Bool-cases (survives this_file file_modules def.origin)) [
        | inl e ↦ rw e (retain-All (home def) this_file defs a.0, retain-Apart this_file defs a.1)
        | inr e ↦ rw e (retain-Apart this_file defs a.1)
      ]

  keep-IsConsistent :
      (key : Str) (defs : List (Define F)) (m : DefineTable F)
      → Apart defs
      → lookup key m ≡ none
      → IsConsistent m
      → IsConsistent (keep key defs m)
  unfolding keep
  keep-IsConsistent key [] m a n c = c
  keep-IsConsistent key (d ∷ ds) m a n c = (a, n, c)

  -- On a consistent table, in which no two defines of one name collide, `define` returns an error
  -- or a table that is consistent again.
  pub define-IsConsistent :
      (name : Str) (tokens : List (Token F)) (origin : DefineOrigin) (table : DefineTable F)
      → IsConsistent table
      → Ensures IsConsistent (define name tokens origin file_modules table)
  unfolding define
  define-IsConsistent name tokens origin table c =
      elim (Option-cases
        (collision (home_module origin file_modules) file_modules (defs_of name table))) [
          | inl e ↦
              rw (e, define, Ensures)
                (push-IsConsistent name _ table c (collision-none _ (defs_of name table) e))
          | inr (def, e) ↦ rw (e, define, Ensures) tt
        ]

  -- `$undefine` keeps a consistent table consistent: no two defines of one name collide.
  pub undefine-IsConsistent :
      (name : Str) (this_file : ℕ) (table : DefineTable F)
      → IsConsistent table
      → IsConsistent (undefine name this_file file_modules table)
  unfolding undefine
  undefine-IsConsistent name this_file [] c = tt
  undefine-IsConsistent name this_file ((key, defs) ∷ m) c = elim (Bool-cases (str_eq key name)) [
    | inl same ↦ rw same (keep-IsConsistent key _ m (retain-Apart this_file defs c.0) c.1 c.2)
    | inr other ↦ rw other (
      c.0,
      lookup-undefine-none key name this_file m c.1,
      undefine-IsConsistent name this_file m c.2,
    )
  ]

  pub retain_iff :
      (this_file : ℕ) (def : Define F) (defs : List (Define F))
      → Memᴰ def (retain this_file file_modules defs)
        ↔ (Memᴰ def defs × Elsewhere file_modules this_file def.origin)
  unfolding retain
  retain_iff this_file def [] =
      (λ mem. absurd (Memᴰ.not-nil mem), λ (mem, o). absurd (Memᴰ.not-nil mem))
  retain_iff this_file def (d ∷ defs) =
      let rest = retain_iff this_file def defs in
      elim (survives-cases file_modules this_file d.origin) [
        | inl (o, e) ↦ rw e (
          λ mem. elim (Memᴰ.cases_cons mem) [
            | inl same ↦ (
              Memᴰ.head same,
              subst (λ x. Elsewhere file_modules this_file x.origin) (sym same) o,
            )
            | inr later ↦ (Memᴰ.tail (rest.0 later).0, (rest.0 later).1)
          ],
          λ (mem, p). elim (Memᴰ.cases_cons mem) [
            | inl same ↦ Memᴰ.head same
            | inr later ↦ Memᴰ.tail (rest.1 (later, p))
          ],
        )
        | inr (own, e) ↦ rw e (
          λ mem. (Memᴰ.tail (rest.0 mem).0, (rest.0 mem).1),
          λ (mem, p). elim (Memᴰ.cases_cons mem) [
            | inl same ↦
                absurd (own (subst (λ x. Elsewhere file_modules this_file x.origin) same p))
            | inr later ↦ rest.1 (later, p)
          ],
        )
      ]
