-- ===== src/Typechecker/Asm/Sound.antt =====
-- What the checks of src/typechecker/checker/asm.rs leave of an `asm fn` that they report nothing of.
use aspect.Prelude.{
  ℕ, ◌≤◌, ◌≡◌, ◌≢◌, ◌⊎◌, sym, ap, subst, inl, inr, true, false, Option, none, some, List, [], ◌∷◌,
  arith, Str, All, Bool-cases, Option-cases,
}
use mathlib.Core.List.{Memᴰ}
use aspect.Lexer.Position.{Position}
use aspect.Lexer.LangType.{LangType, is_void_value}
use aspect.Asm.{RegInfo}
use aspect.Typechecker.Asm.{
  FunctionProto, AsmReg, AsmSpec, TargetInfo, resolved, is_modelled, modelled, is_pinnable,
  check_pinnable_type, check_register_class, check_register_fits, check_params,
  check_resolved_return, check_return, check_types, check_return_type, check_on_arch,
  check_if_modelled, check_asm_function,
}
use aspect.Typechecker.Asm.Accepted.{
  append-nil, Usable, Holds, Pinned, Distinct, resolved-Usable, checked-Holds,
  check_params-PinnedFrom,
}
use aspect.Typechecker.Asm.Clobbers.{Clobbered, check_clobbers-ClobberedFrom, not_operand}

-- The register of the return value, and its family.
pub data ReturnPinned (arch : Str) (ty : LangType) : Option AsmReg → Option Str → Type 0 where
  no_return : ReturnPinned arch ty none none
  returned :
      {reg : AsmReg} (info : RegInfo)
      → Usable arch reg info
      → (is_void_value ty ≡ true) ⊎ Holds arch ty info
      → ReturnPinned arch ty (some reg) (some info.family)

-- The whole contract: every operand is of a type and in a register that can hold it, no two
-- parameters share a register, and a clobbered register is neither an operand's nor named twice.
pub record Accepted (target : TargetInfo) (proto : FunctionProto) (asm : AsmSpec) : Type 0 where
  pub arch : Str
  pub is_arch : target.arch_define ≡ some arch
  pub arch_modelled : is_modelled arch ≡ true
  pub param_types : All (λ (ty, name). is_pinnable ty ≡ true) proto.params
  pub return_type :
      (is_void_value proto.return_type ≡ true) ⊎ (is_pinnable proto.return_type ≡ true)
  pub param_families : List Str
  pub params : Pinned arch asm.param_regs proto.params param_families
  pub params_distinct : Distinct param_families
  pub return_family : Option Str
  pub return_ : ReturnPinned arch proto.return_type asm.return_reg return_family
  pub clobbered_families : List Str
  pub memories : ℕ
  pub clobbers : Clobbered arch asm.clobbers clobbered_families memories
  pub clobbers_distinct : Distinct clobbered_families
  pub memory_once : memories ≤ 1
  pub apart : (f : Str) → Memᴰ f clobbered_families → Memᴰ f param_families → ⊥
  pub return_apart : (f : Str) → Memᴰ f clobbered_families → return_family ≢ some f

pinnable-clean :
    (ty : LangType) (pos : Position) → check_pinnable_type ty pos ≡ [] → is_pinnable ty ≡ true
unfolding check_pinnable_type
pinnable-clean ty pos h = ground arith

types-clean :
    (params : List (LangType × Str)) (pos : Position)
    → check_types params pos ≡ []
    → All (λ (ty, name). is_pinnable ty ≡ true) params
unfolding check_types
types-clean [] pos h = tt
types-clean ((ty, name) ∷ params) pos h =
    let (first, rest) = append-nil (check_pinnable_type ty pos) (check_types params pos) h in
    (pinnable-clean ty pos first, types-clean params pos rest)

return_type-clean :
    (ty : LangType) (pos : Position)
    → check_return_type ty pos ≡ []
    → (is_void_value ty ≡ true) ⊎ (is_pinnable ty ≡ true)
unfolding check_return_type
return_type-clean ty pos h = elim (Bool-cases (is_void_value ty)) [
  | inl e ↦ inl e
  | inr e ↦ inr (pinnable-clean ty pos (rw e at h))
]

returned-clean :
    (arch : Str) (ty : LangType) (reg : AsmReg) (info : RegInfo)
    → (check_resolved_return arch ty reg (resolved info)).1 ≡ []
    → (is_void_value ty ≡ true) ⊎ Holds arch ty info
unfolding check_resolved_return
returned-clean arch ty reg info h = elim (Bool-cases (is_void_value ty)) [
  | inl e ↦ inl e
  | inr e ↦
      let (class_ok, fits) =
        append-nil (check_register_class ty info reg) (check_register_fits arch ty info reg)
          (rw e at h) in
      inr (checked-Holds arch ty info reg class_ok fits)
]

return-clean :
    (arch : Str) (ty : LangType) (reg : Option AsmReg)
    → (check_return arch ty reg).1 ≡ []
    → ReturnPinned arch ty reg (check_return arch ty reg).0
unfolding check_return check_resolved_return
return-clean arch ty none h = no_return
return-clean arch ty (some reg) h = elim (resolved-Usable arch reg) [
  | inr (error, e) ↦
      let h' : error ∷ [] ≡ [] = subst (λ r. (check_resolved_return arch ty reg r).1 ≡ []) e h in cc
  | inl (info, usable, e) ↦
      subst (ReturnPinned arch ty (some reg))
        (sym (ap (λ r. (check_resolved_return arch ty reg r).0) e))
        (returned info usable (
          returned-clean arch ty reg info
            (subst (λ r. (check_resolved_return arch ty reg r).1 ≡ []) e h)))
]

modelled-some :
    (o : Option Str) (arch : Str)
    → modelled o ≡ some arch
    → (o ≡ some arch) × (is_modelled arch ≡ true)
unfolding modelled
modelled-some none arch h = cc
modelled-some (some a) arch h = ground arith

on_arch-Accepted :
    (target : TargetInfo) (proto : FunctionProto) (asm : AsmSpec) (arch : Str)
    → modelled target.arch_define ≡ some arch
    → check_on_arch arch proto asm ≡ []
    → Accepted target proto asm
unfolding check_on_arch
on_arch-Accepted target proto asm arch is_arch h =
    let checked = check_params arch [] asm.param_regs proto.params in
    let return_ = check_return arch proto.return_type asm.return_reg in
    let (types, h1) = append-nil (check_types proto.params proto.pos) _ h in
    let (return_type, h2) = append-nil (check_return_type proto.return_type proto.pos) _ h1 in
    let (params, h3) = append-nil checked.1 _ h2 in
    let (returns_, clobbers) = append-nil return_.1 _ h3 in
    let pins = check_params-PinnedFrom arch [] asm.param_regs proto.params params in
    let gone =
      check_clobbers-ClobberedFrom arch checked.0 return_.0 false [] asm.clobbers clobbers in
    record {
      arch = arch;
      is_arch = (modelled-some target.arch_define arch is_arch).0;
      arch_modelled = (modelled-some target.arch_define arch is_arch).1;
      param_types = types-clean proto.params proto.pos types;
      return_type = return_type-clean proto.return_type proto.pos return_type;
      param_families = pins.families;
      params = pins.pins;
      params_distinct = pins.distinct;
      return_family = return_.0;
      return_ = return-clean arch proto.return_type asm.return_reg returns_;
      clobbered_families = gone.destroyed_families;
      memories = gone.memories;
      clobbers = gone.clobbered;
      clobbers_distinct = gone.distinct;
      memory_once = gone.once;
      apart = λ f mem taken.
          (not_operand arch checked.0 return_.0 f (gone.apart f mem)).0
            (subst (Memᴰ f) (sym pins.all_taken) taken);
      return_apart = λ f mem. (not_operand arch checked.0 return_.0 f (gone.apart f mem)).1;
    }

-- Where the checks of an `asm fn` report nothing, the target's architecture has a register table,
-- all operands are of types that fit a register and stand in known, unreserved registers of their
-- class that are wide enough, no two parameters share a register family, and the clobbered
-- registers are known, unreserved, pairwise of different families and of no operand's family, with
-- `memory` named at most once.
pub check_asm_function-Accepted :
    (target : TargetInfo) (proto : FunctionProto) (asm : AsmSpec)
    → check_asm_function target proto asm ≡ []
    → Accepted target proto asm
unfolding check_asm_function check_if_modelled
check_asm_function-Accepted target proto asm h = elim (Option-cases (modelled target.arch_define)) [
  | inl e ↦ absurd (ground (arith, e, h))
  | inr (arch, e) ↦
      on_arch-Accepted target proto asm arch e
        (subst (λ o. check_if_modelled target proto asm o ≡ []) e h)
]
