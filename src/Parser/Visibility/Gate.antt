-- ===== src/Parser/Visibility/Gate.antt =====
-- Who may name what, by src/parser/visibility.rs.
use aspect.Prelude.{
  ℕ, ◌≡◌, ◌↔◌, ◌⊎◌, refl, sym, inl, inr, Bool, true, false, ◌||◌, some, List, [], ◌∷◌, arith, Str,
  str_eq, str_eq_iff, any, Bool-cases, Option-cases, ok, err,
}
use mathlib.Core.List.{Memᴰ}
use mathlib.Core.List.Memᴰ
use aspect.Lexer.Position.{Position}
use aspect.Scope.{get}
use aspect.Symbol.Module.{Visibility, private, public}
use aspect.Parser.Error.{not_imported, private_symbol}
use aspect.Parser.State.{Parser}
use aspect.Parser.Visibility.{
  is_private, lists, is_mangled, module_of_file, check_import_visibility, check_name_privacy,
  check_name_visibility,
}

any-Memᴰ : (names : List Str) (name : Str) → any (λ n. str_eq n name) names ≡ true → Memᴰ name names
any-Memᴰ [] name h = cc
any-Memᴰ (n ∷ names) name h = elim (Bool-cases (str_eq n name)) [
  | inl e ↦ Memᴰ.head (sym ((str_eq_iff n name).0 e))
  | inr e ↦ Memᴰ.tail (any-Memᴰ names name (ground (arith, e, h)))
]

Memᴰ-any : (names : List Str) (name : Str) → Memᴰ name names → any (λ n. str_eq n name) names ≡ true
Memᴰ-any [] name h = absurd (Memᴰ.not-nil h)
Memᴰ-any (n ∷ names) name h = elim (Memᴰ.cases_cons h) [
  | inl e ↦ ground (arith, str_eq_iff n name, sym e)
  | inr later ↦ ground (arith, Memᴰ-any names name later)
]

module _ {F : Type 0} (p : Parser F) where
  -- The module's own `$import` lines name the other one.
  pub data Imports (importer imported : Str) : Type 0 where
    imports :
        (names : List Str)
        → get p.module_imports importer ≡ some names
        → Memᴰ imported names
        → Imports importer imported

  -- The file of a use may refer to the file of a definition.
  pub data MayRefer (use_file def_file : ℕ) : Type 0 where
    same_module : module_of_file p def_file ≡ module_of_file p use_file → MayRefer use_file def_file
    direct_import :
        Imports (module_of_file p use_file) (module_of_file p def_file) → MayRefer use_file def_file

  lists-Imports :
      (importer imported : Str)
      → (lists (get p.module_imports importer) imported ≡ true) ↔ Imports importer imported
  unfolding lists
  lists-Imports importer imported = (forth, back)
    where
      forth : lists (get p.module_imports importer) imported ≡ true → Imports importer imported
      forth h = elim (Option-cases (get p.module_imports importer)) [
        | inl e ↦ absurd (ground (arith, e, h))
        | inr (names, e) ↦
            let listed : any (λ n. str_eq n imported) names ≡ true = ground (arith, e, h) in
            imports names e (any-Memᴰ names imported listed)
      ]

      back : Imports importer imported → lists (get p.module_imports importer) imported ≡ true
      back (imports names e mem) = rw e (Memᴰ-any names imported mem)

  abbrev refers : (use_file def_file : ℕ) → Bool
  refers use_file def_file =
      str_eq (module_of_file p def_file) (module_of_file p use_file)
      || lists (get p.module_imports (module_of_file p use_file)) (module_of_file p def_file)

  refers_iff :
      (use_file def_file : ℕ) → (refers use_file def_file ≡ true) ↔ MayRefer use_file def_file
  refers_iff use_file def_file = (forth, back)
    where
      forth : refers use_file def_file ≡ true → MayRefer use_file def_file
      forth h = elim (Bool-cases (str_eq (module_of_file p def_file) (module_of_file p use_file))) [
        | inl e ↦ same_module ((str_eq_iff _ _).0 e)
        | inr e ↦ direct_import ((lists-Imports _ _).0 (ground (arith, e, h)))
      ]

      back : MayRefer use_file def_file → refers use_file def_file ≡ true
      back (same_module e) = rw ((str_eq_iff _ _).1 e) refl
      back (direct_import i) = ground (arith, (lists-Imports _ _).1 i)

  -- The definition's module is imported or the use's own, or the use is reported.
  pub check_import-cases :
      (kind name : Str) (def_file : ℕ) (use_pos : Position)
      → MayRefer use_pos.file_id def_file
          × (check_import_visibility p kind name def_file use_pos ≡ ok tt)
        ⊎ (MayRefer use_pos.file_id def_file → ⊥)
          × (check_import_visibility p kind name def_file use_pos
              ≡ err (
                  not_imported kind name
                    (module_of_file p def_file)
                    (module_of_file p use_pos.file_id)
                    use_pos))
  unfolding check_import_visibility
  check_import-cases kind name def_file use_pos =
      elim (Bool-cases (refers use_pos.file_id def_file)) [
        | inl e ↦ inl ((refers_iff use_pos.file_id def_file).0 e, rw e refl)
        | inr e ↦ inr (λ h. ground (arith, e, (refers_iff use_pos.file_id def_file).1 h), rw e refl)
      ]

  -- A name is open to a use that its module allows: it is public, or of the use's own module, or
  -- a method's lowered name.
  pub data Open (name : Str) (vis : Visibility) (use_file def_file : ℕ) : Type 0 where
    exported : vis ≡ public → Open name vis use_file def_file
    own : module_of_file p def_file ≡ module_of_file p use_file → Open name vis use_file def_file
    mangled : is_mangled name ≡ true → Open name vis use_file def_file

  privacy-cases :
      (kind name : Str) (def_file : ℕ) (vis : Visibility) (use_pos : Position)
      → Open name vis use_pos.file_id def_file
          × (check_name_privacy p kind name def_file vis use_pos ≡ ok tt)
        ⊎ (Open name vis use_pos.file_id def_file → ⊥)
          × (check_name_privacy p kind name def_file vis use_pos
              ≡ err (
                  private_symbol kind name
                    (module_of_file p def_file)
                    (module_of_file p use_pos.file_id)
                    use_pos))
  unfolding check_name_privacy is_private
  privacy-cases kind name def_file public use_pos = inl (Open.exported refl, ground arith)
  privacy-cases kind name def_file private use_pos = elim (Bool-cases (is_mangled name)) [
    | inl e ↦ inl (Open.mangled e, rw e refl)
    | inr e ↦
        elim (Bool-cases (str_eq (module_of_file p def_file) (module_of_file p use_pos.file_id))) [
          | inl same ↦ inl (Open.own ((str_eq_iff _ _).0 same), rw (e, same) refl)
          | inr other ↦ inr (closed e other, rw (e, other) refl)
        ]
  ]
    where
      closed :
          is_mangled name ≡ false
          → str_eq (module_of_file p def_file) (module_of_file p use_pos.file_id) ≡ false
          → Open name private use_pos.file_id def_file
          → ⊥
      closed e other (Open.exported h) = cc
      closed e other (Open.own h) = ground (arith, (str_eq_iff _ _).1 h, other)
      closed e other (Open.mangled h) = cc

  -- A use of a function or global is let through where its module is the use's own or one that the
  -- use's module imports itself, and the name is public, of that own module, or a lowered method's.
  -- Where the module is neither, that is reported; where only the name is closed, it is reported as
  -- private.
  pub check_name_visibility-cases :
      (kind name : Str) (def_file : ℕ) (vis : Visibility) (use_pos : Position)
      → MayRefer use_pos.file_id def_file
          × Open name vis use_pos.file_id def_file
          × (check_name_visibility p kind name def_file vis use_pos ≡ ok tt)
        ⊎ (MayRefer use_pos.file_id def_file → ⊥)
          × (check_name_visibility p kind name def_file vis use_pos
              ≡ err (
                  not_imported kind name
                    (module_of_file p def_file)
                    (module_of_file p use_pos.file_id)
                    use_pos))
        ⊎ MayRefer use_pos.file_id def_file
          × (Open name vis use_pos.file_id def_file → ⊥)
          × (check_name_visibility p kind name def_file vis use_pos
              ≡ err (
                  private_symbol kind name
                    (module_of_file p def_file)
                    (module_of_file p use_pos.file_id)
                    use_pos))
  unfolding check_name_visibility
  check_name_visibility-cases kind name def_file vis use_pos =
      elim (check_import-cases kind name def_file use_pos) [
        | inr (unseen, e) ↦ inr (inl (unseen, rw e refl))
        | inl (seen, e) ↦ elim (privacy-cases kind name def_file vis use_pos) [
          | inl (open_, f) ↦ inl (seen, open_, rw (e, f) refl)
          | inr (closed, f) ↦ inr (inr (seen, closed, rw (e, f) refl))
        ]
      ]
