-- ===== src/Parser/Visibility/Types.antt =====
-- Which named types a use may name, by src/parser/visibility.rs.
use aspect.Prelude.{
  ℕ, ◌≡◌, ◌≢◌, ◌⊎◌, refl, inl, inr, true, false, arith, str_eq, str_eq_iff, Bool-cases, ok, err,
}
use aspect.Prelude.Checked.{returns}
use aspect.Lexer.Position.{Position}
use aspect.Symbol.Module.{Visibility, private, public, TypeDef, noun}
use aspect.Symbol.Module.Registry.{type_def}
use aspect.Parser.Error.{not_imported}
use aspect.Parser.State.{Parser}
use aspect.Parser.Visibility.{
  is_alias, is_private, module_of_file, private_type_error, check_type_privacy,
  check_def_visibility, check_type_visibility,
}
use aspect.Parser.Visibility.Gate.{MayRefer, check_import-cases}

module _ {F : Type 0} (p : Parser F) where
  -- A named type is open to a use that its module allows: it is public, or of the use's own module,
  -- or an alias.
  pub data OpenType (def : TypeDef) (use_file : ℕ) : Type 0 where
    exported_type : def.vis ≡ public → OpenType def use_file
    own_type : module_of_file p def.file_id ≡ module_of_file p use_file → OpenType def use_file
    alias_type : is_alias def.kind ≡ true → OpenType def use_file

  private-cases :
      (vis : Visibility)
      → (vis ≡ public) × (is_private vis ≡ false) ⊎ (vis ≢ public) × (is_private vis ≡ true)
  unfolding is_private
  private-cases public = inl (refl, refl)
  private-cases private = inr (λ e. cc, refl)

  type_privacy-cases :
      (def : TypeDef) (use_pos : Position)
      → OpenType def use_pos.file_id × (check_type_privacy p def use_pos ≡ ok tt)
        ⊎ (OpenType def use_pos.file_id → ⊥)
          × (check_type_privacy p def use_pos ≡ err (private_type_error p def use_pos))
  unfolding check_type_privacy
  type_privacy-cases def use_pos = elim (Bool-cases (is_alias def.kind)) [
    | inl e ↦ inl (OpenType.alias_type e, rw e refl)
    | inr e ↦ elim (private-cases def.vis) [
      | inl (vis, v) ↦ inl (OpenType.exported_type vis, rw (e, v) refl)
      | inr (vis, v) ↦
          elim (Bool-cases
            (str_eq (module_of_file p def.file_id) (module_of_file p use_pos.file_id))) [
              | inl same ↦ inl (OpenType.own_type ((str_eq_iff _ _).0 same), rw (e, v, same) refl)
              | inr other ↦ inr (closed e vis other, rw (e, v, other) refl)
            ]
    ]
  ]
    where
      closed :
          is_alias def.kind ≡ false
          → def.vis ≢ public
          → str_eq (module_of_file p def.file_id) (module_of_file p use_pos.file_id) ≡ false
          → OpenType def use_pos.file_id
          → ⊥
      closed e vis other (OpenType.exported_type h) = vis h
      closed e vis other (OpenType.own_type h) = ground (arith, (str_eq_iff _ _).1 h, other)
      closed e vis other (OpenType.alias_type h) = cc

  -- A use of a named type that the table knows never panics. It is let through where the type's
  -- module is the use's own or one that the use's module imports itself, and the type is public, of
  -- that own module, or an alias; the module is reported first, and then a private type.
  pub check_type_visibility-cases :
      (id : ℕ) (def : TypeDef) (use_pos : Position)
      → type_def p.module_symbols id ≡ returns def
      → MayRefer p use_pos.file_id def.file_id
          × OpenType def use_pos.file_id
          × (check_type_visibility p id use_pos ≡ returns (ok tt))
        ⊎ (MayRefer p use_pos.file_id def.file_id → ⊥)
          × (check_type_visibility p id use_pos
              ≡ returns (
                  err (
                    not_imported
                      (noun def.kind)
                      def.name
                      (module_of_file p def.file_id)
                      (module_of_file p use_pos.file_id)
                      use_pos)))
        ⊎ MayRefer p use_pos.file_id def.file_id
          × (OpenType def use_pos.file_id → ⊥)
          × (check_type_visibility p id use_pos ≡ returns (err (private_type_error p def use_pos)))
  unfolding check_type_visibility check_def_visibility
  check_type_visibility-cases id def use_pos h =
      elim (check_import-cases p (noun def.kind) def.name def.file_id use_pos) [
        | inr (unseen, e) ↦ inr (inl (unseen, rw (h, e) refl))
        | inl (seen, e) ↦ elim (type_privacy-cases def use_pos) [
          | inl (open_, f) ↦ inl (seen, open_, rw (h, e, f) refl)
          | inr (closed, f) ↦ inr (inr (seen, closed, rw (h, e, f) refl))
        ]
      ]
