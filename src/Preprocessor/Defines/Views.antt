-- ===== src/Preprocessor/Defines/Views.antt =====
-- What one file sees of a define table (src/preprocessor/defines.rs).
use aspect.Prelude.{
  ℕ, ◌+◌, ◌≤◌, ◌≡◌, refl, ◌≢◌, inl, inr, true, false, List, [], ◌∷◌, arith, Str, str_eq, str_eq_iff,
  str_eq_refl, Bool-cases, if◌then◌else◌, All, ok, ◌>>=◌, ◌↔◌,
}
use mathlib.Core.List.{Memᴰ}
use aspect.Lexer.Position.{Position}
use aspect.Lexer.Token.{Token}
use aspect.Preprocessor.Error.{DefineOrigin, directive}
use aspect.Preprocessor.Defines.{
  Define, DefineTable, FileModules, module_of, home_module, collides, lookup, defs_of, define,
  survives, retain, undefine,
}
use aspect.Preprocessor.Defines.Scoped.{ScopedDefines, contains, find, sees, sees_origin, get}
use aspect.Preprocessor.Defines.Visibility.{
  Apart, IsConsistent, Elsewhere, retain_iff, undefine-IsConsistent,
}

module _ {F : Type 0} where
  -- How many of the defines a file sees.
  pub count_seen : ScopedDefines F → List (Define F) → ℕ
  count_seen d [] = 0
  count_seen d (def ∷ defs) = (if sees d def then 1 else 0) + count_seen d defs

  -- Without imports, two origins that a file sees have homes that collide.
  sees_origin-collides :
      (d : ScopedDefines F) (o p : DefineOrigin)
      → d.imports ≡ []
      → sees_origin d o ≡ true
      → sees_origin d p ≡ true
      → collides (home_module o d.file_modules) (home_module p d.file_modules) ≡ true
  unfolding sees_origin collides home_module
  sees_origin-collides d (directive o) (directive p) n so sp =
      let a = module_of d.file_modules o.file_id in
      let b = module_of d.file_modules p.file_id in
      ground (arith, str_eq_iff a d.module_path, str_eq_iff b d.module_path, str_eq_iff a b)
  sees_origin-collides d (directive o) _ n so sp = refl
  sees_origin-collides d _ p n so sp = refl

  sees-collides :
      (d : ScopedDefines F) (x y : Define F)
      → d.imports ≡ []
      → sees d x ≡ true
      → sees d y ≡ true
      → collides (home_module x.origin d.file_modules) (home_module y.origin d.file_modules) ≡ true
  unfolding sees
  sees-collides d x y n sx sy = sees_origin-collides d x.origin y.origin n sx sy

  seen-alone :
      (d : ScopedDefines F) (x : Define F) (defs : List (Define F))
      → d.imports ≡ []
      → sees d x ≡ true
      → All
          (λ other.
            collides (home_module x.origin d.file_modules) (home_module other.origin d.file_modules)
            ≡ false)
          defs
      → count_seen d defs ≡ 0
  unfolding count_seen
  seen-alone d x [] n s a = refl
  seen-alone d x (y ∷ defs) n s a = ground (arith, sees-collides d x y n s, seen-alone d x defs n s)

  count_seen-Apart :
      (d : ScopedDefines F) (defs : List (Define F))
      → d.imports ≡ []
      → Apart d.file_modules defs
      → count_seen d defs ≤ 1
  unfolding count_seen
  count_seen-Apart d [] n a = omega arith
  count_seen-Apart d (x ∷ defs) n a =
      ground (arith, seen-alone d x defs n, count_seen-Apart d defs n)

  defs_of-Apart :
      (name : Str) (file_modules : FileModules) (table : DefineTable F)
      → IsConsistent file_modules table
      → Apart file_modules (defs_of name table)
  unfolding defs_of lookup
  defs_of-Apart name file_modules [] c = tt
  defs_of-Apart name file_modules ((key, defs) ∷ m) c = elim (Bool-cases (str_eq key name)) [
    | inl same ↦ rw same c.0
    | inr other ↦ rw other (defs_of-Apart name file_modules m c.2)
  ]

  -- A file that imports nothing sees at most one define of any name of a consistent table.
  pub at_most_one_seen :
      (d : ScopedDefines F) (name : Str)
      → IsConsistent d.file_modules d.table
      → d.imports ≡ []
      → count_seen d (defs_of name d.table) ≤ 1
  at_most_one_seen d name c n =
      count_seen-Apart d (defs_of name d.table) n (defs_of-Apart name d.file_modules d.table c)

  -- If two files are of different modules, each may define one name, and a file that imports both
  -- modules sees two defines of it.
  pub two_imports_seen :
      (name module_path : Str) (imports : List Str) (file_modules : FileModules)
      (tx ty : List (Token F)) (p q : Position)
      → module_of file_modules p.file_id ≢ module_of file_modules q.file_id
      → contains imports (module_of file_modules p.file_id) ≡ true
      → contains imports (module_of file_modules q.file_id) ≡ true
      → (table : DefineTable F) × ((do
        t ← define name tx (directive p) file_modules []
        define name ty (directive q) file_modules t)
          ≡ ok table)
        × (count_seen
              (record {
                table = table;
                module_path = module_path;
                imports = imports;
                file_modules = file_modules;
              })
              (defs_of name table)
            ≡ 2)
  unfolding count_seen define sees_origin sees home_module collides lookup
  two_imports_seen name module_path imports file_modules tx ty p q ne ip iq =
      let a = module_of file_modules p.file_id in
      let b = module_of file_modules q.file_id in
      (
        (
          name,
          record { tokens = tx; origin = directive p }
              ∷ record { tokens = ty; origin = directive q }
              ∷ [],
        )
            ∷ [],
        ground (arith, str_eq_refl name, str_eq_iff b a),
        ground (arith, str_eq_refl name),
      )

  undefine-defs_of_ne :
      (name other : Str) (this_file : ℕ) (file_modules : FileModules) (table : DefineTable F)
      → str_eq name other ≡ false
      → defs_of other (undefine name this_file file_modules table) ≡ defs_of other table
  unfolding undefine lookup defs_of
  undefine-defs_of_ne name other f fm [] ne = refl
  undefine-defs_of_ne name other f fm ((key, defs) ∷ m) ne = ground (
    arith,
    undefine-defs_of_ne name other f fm m ne,
    str_eq_iff key name,
    str_eq_iff key other,
    str_eq_iff name other,
  )

  undefine-defs_of_self :
      (name : Str) (this_file : ℕ) (file_modules : FileModules) (table : DefineTable F)
      → IsConsistent file_modules table
      → defs_of name (undefine name this_file file_modules table)
        ≡ retain this_file file_modules (defs_of name table)
  unfolding undefine lookup defs_of retain
  undefine-defs_of_self name f fm [] c = refl
  undefine-defs_of_self name f fm ((key, defs) ∷ m) c =
      ground (arith, c.1, str_eq_iff key name, undefine-defs_of_self name f fm m c.2)

  -- On a consistent table a `$undefine` takes away, of the name it names, the defines of its own
  -- module's files, and nothing else: a define of any name is left exactly if it was there and is of
  -- another name, a builtin, of the command line or of another module. The table stays consistent.
  pub undefine_iff :
      (name : Str) (this_file : ℕ) (file_modules : FileModules) (table : DefineTable F)
      → IsConsistent file_modules table
      → IsConsistent file_modules (undefine name this_file file_modules table)
        × ((other : Str) (def : Define F)
            → Memᴰ def (defs_of other (undefine name this_file file_modules table)) ↔ (
                Memᴰ def (defs_of other table)
                × (name ≡ other → Elsewhere file_modules this_file def.origin)))
  undefine_iff name f fm table c = (undefine-IsConsistent fm name f table c, of_name)
    where
      of_name :
          (other : Str) (def : Define F)
          → Memᴰ def (defs_of other (undefine name f fm table))
            ↔ (Memᴰ def (defs_of other table) × (name ≡ other → Elsewhere fm f def.origin))
      of_name other def = elim (Bool-cases (str_eq name other)) [
        | inl same ↦
            let e : name ≡ other = (str_eq_iff name other).0 same in
            let kept = retain_iff fm f def (defs_of name table) in
            rw (← e) (
              rw (undefine-defs_of_self name f fm table c)
                (λ mem. ((kept.0 mem).0, λ _. (kept.0 mem).1), λ (mem, o). kept.1 (mem, o refl)))
        | inr differ ↦ rw (undefine-defs_of_ne name other f fm table differ) (
          λ mem. (mem, λ e. absurd (ground (arith, (str_eq_iff name other).1 e, differ))),
          λ (mem, o). mem,
        )
      ]

  -- What a `$undefine` in another, unimported module takes away was not visible.
  survives-sees :
      (d : ScopedDefines F) (this_file : ℕ) (o : DefineOrigin)
      → d.module_path ≢ module_of d.file_modules this_file
      → contains d.imports (module_of d.file_modules this_file) ≡ false
      → survives this_file d.file_modules o ≡ false
      → sees_origin d o ≡ false
  unfolding survives sees_origin
  survives-sees d f (directive pos) ne ni gone =
      let home = module_of d.file_modules pos.file_id in
      let this = module_of d.file_modules f in
      let same : home ≡ this = (str_eq_iff home this).0 (ground arith) in
      let hidden : contains d.imports home ≡ false = rw same ni in
      ground (arith, str_eq_iff home d.module_path)
  survives-sees d f _ ne ni gone = cc

  find-retain :
      (d : ScopedDefines F) (this_file : ℕ) (defs : List (Define F))
      → d.module_path ≢ module_of d.file_modules this_file
      → contains d.imports (module_of d.file_modules this_file) ≡ false
      → find (sees d) (retain this_file d.file_modules defs) ≡ find (sees d) defs
  unfolding find retain sees
  find-retain d f [] ne ni = refl
  find-retain d f (def ∷ defs) ne ni =
      ground (arith, survives-sees d f def.origin ne ni, find-retain d f defs ne ni)

  -- On a consistent table a `$undefine` changes what a file sees of no name, if the file is
  -- neither of the module of the `$undefine` nor imports it.
  pub undefine-get :
      (d : ScopedDefines F) (name other : Str) (this_file : ℕ)
      → IsConsistent d.file_modules d.table
      → d.module_path ≢ module_of d.file_modules this_file
      → contains d.imports (module_of d.file_modules this_file) ≡ false
      → get (record d { table = undefine name this_file d.file_modules d.table }) other
        ≡ get d other
  unfolding get sees
  undefine-get d name other f c ne ni = elim (Bool-cases (str_eq name other)) [
    | inl same ↦
        let e : name ≡ other = (str_eq_iff name other).0 same in
        rw (← e) (
          rw (undefine-defs_of_self name f d.file_modules d.table c)
            (find-retain d f (defs_of name d.table) ne ni))
    | inr differ ↦ rw (undefine-defs_of_ne name other f d.file_modules d.table differ)
  ]
