-- ===== src/Typechecker/Asm/Accepted.antt =====
-- The register contract that src/typechecker/checker/asm.rs demands, for the parameters.
use aspect.Prelude.{
  ◌≤◌, ◌≡◌, ◌⊎◌, refl, sym, ap, subst, ◌∙◌, inl, inr, true, false, Option, none, some, List, [],
  ◌∷◌, ◌++◌, map, arith, Str, str_eq_iff, Bool-cases, Option-cases,
}
use mathlib.Core.List.{Memᴰ}
use mathlib.Core.List.Memᴰ
use aspect.Lexer.LangType.{LangType}
use aspect.Asm.{RegClass, gpr, sse, RegInfo, lookup_register, is_reserved_family}
use aspect.Asm.Families.{class_eq}
use aspect.Typechecker.Asm.{
  AsmReg, AsmError, unknown_register, reserved_register, resolved, unresolved, resolve_info,
  resolve_asm_reg, expected_class, check_register_class, type_bits, check_register_fits, Families,
  owner_of, claim, check_resolved_param, check_params,
}

pub append-nil {ℓ} : {A : Type ℓ} (xs ys : List A) → xs ++ ys ≡ [] → (xs ≡ []) × (ys ≡ [])
append-nil [] ys h = (refl, h)
append-nil (x ∷ xs) ys h = cc

-- A register of the architecture that may be named at all.
pub record Usable (arch : Str) (reg : AsmReg) (info : RegInfo) : Type 0 where
  pub is_known : lookup_register arch reg.name ≡ some info
  pub unreserved : is_reserved_family info.family ≡ false

-- A register that holds a value of the type.
pub record Holds (arch : Str) (ty : LangType) (info : RegInfo) : Type 0 where
  pub right_class : info.class ≡ expected_class ty
  pub wide : type_bits arch ty ≤ info.width_bits

-- The families of the registers of the parameters.
pub data Pinned (arch : Str) : List AsmReg → List (LangType × Str) → List Str → Type 0 where
  no_register : {params : List (LangType × Str)} → Pinned arch [] params []
  no_parameter : {reg : AsmReg} {regs : List AsmReg} → Pinned arch (reg ∷ regs) [] []
  pinned :
      {reg : AsmReg} {regs : List AsmReg} {ty : LangType} {name : Str}
      {params : List (LangType × Str)} {families : List Str} (info : RegInfo)
      → Usable arch reg info
      → Holds arch ty info
      → Pinned arch regs params families
      → Pinned arch (reg ∷ regs) ((ty, name) ∷ params) (info.family ∷ families)

-- No family twice.
abbrev pub Distinct : List Str → Type 0
Distinct [] = Unit
Distinct (f ∷ families) = (Memᴰ f families → ⊥) × Distinct families

class_eq_iff : (a b : RegClass) → class_eq a b ≡ true → a ≡ b
unfolding class_eq
class_eq_iff gpr gpr h = refl
class_eq_iff sse sse h = refl
class_eq_iff _ _ h = cc

pub resolved-Usable :
    (arch : Str) (reg : AsmReg)
    → ((info : RegInfo) × Usable arch reg info × (resolve_asm_reg arch reg ≡ resolved info))
      ⊎ ((error : AsmError) × (resolve_asm_reg arch reg ≡ unresolved error))
unfolding resolve_asm_reg resolve_info
resolved-Usable arch reg = elim (Option-cases (lookup_register arch reg.name)) [
  | inl e ↦ inr (unknown_register reg.name arch reg.pos, rw e refl)
  | inr (info, e) ↦ elim (Bool-cases (is_reserved_family info.family)) [
    | inl r ↦ inr (reserved_register reg.name reg.pos, rw (e, r) refl)
    | inr r ↦ inl (info, record { is_known = e; unreserved = r }, rw (e, r) refl)
  ]
]

pub checked-Holds :
    (arch : Str) (ty : LangType) (info : RegInfo) (reg : AsmReg)
    → check_register_class ty info reg ≡ []
    → check_register_fits arch ty info reg ≡ []
    → Holds arch ty info
unfolding check_register_class check_register_fits
checked-Holds arch ty info reg c f = record {
  right_class = class_eq_iff info.class (expected_class ty) (ground arith);
  wide = ground arith;
}

abbrev pub names : Families → List Str
names families = map (λ (f, owner). f) families

pub owner_of-none :
    (families : Families) (f : Str) → owner_of families f ≡ none → Memᴰ f (names families) → ⊥
unfolding owner_of
owner_of-none [] f h mem = Memᴰ.not-nil mem
owner_of-none ((g, owner) ∷ families) f h mem = elim (Memᴰ.cases_cons mem) [
  | inl e ↦ ground (arith, str_eq_iff g f, sym e, h)
  | inr later ↦ owner_of-none families f (ground (arith, h)) later
]

names-snoc :
    (families : Families) (f owner : Str)
    → names (families ++ (f, owner) ∷ []) ≡ names families ++ f ∷ []
names-snoc [] f owner = refl
names-snoc (x ∷ families) f owner = ap (λ fs. x.0 ∷ fs) (names-snoc families f owner)

snoc-append : (xs : List Str) (f : Str) (ys : List Str) → (xs ++ f ∷ []) ++ ys ≡ xs ++ f ∷ ys
snoc-append [] f ys = refl
snoc-append (x ∷ xs) f ys = ap (λ r. x ∷ r) (snoc-append xs f ys)

claim-none :
    (families : Families) (info : RegInfo) (reg : AsmReg) (name : Str) (o : Option Str)
    → (claim families info reg name o).1 ≡ []
    → (o ≡ none) × ((claim families info reg name o).0 ≡ families ++ (info.family, name) ∷ [])
unfolding claim
claim-none families info reg name none h = (refl, refl)
claim-none families info reg name (some owner) h = cc

resolved-clean :
    (arch : Str) (families : Families) (reg : AsmReg) (ty : LangType) (name : Str) (info : RegInfo)
    → (check_resolved_param arch families reg ty name (resolved info)).1 ≡ []
    → Holds arch ty info
      × (owner_of families info.family ≡ none)
      × ((check_resolved_param arch families reg ty name (resolved info)).0
          ≡ families ++ (info.family, name) ∷ [])
unfolding check_resolved_param
resolved-clean arch families reg ty name info h =
    let (class_ok, rest) = append-nil (check_register_class ty info reg) _ h in
    let (fits, free) = append-nil (check_register_fits arch ty info reg) _ rest in
    let (unowned, claimed) =
      claim-none families info reg name (owner_of families info.family) free in
    (checked-Holds arch ty info reg class_ok fits, unowned, claimed)

-- A parameter without an error: its register holds it, and no parameter before took its family.
param-clean :
    (arch : Str) (families : Families) (reg : AsmReg) (ty : LangType) (name : Str)
    → (check_resolved_param arch families reg ty name (resolve_asm_reg arch reg)).1 ≡ []
    → (info : RegInfo) × Usable arch reg info
      × Holds arch ty info
      × (owner_of families info.family ≡ none)
      × ((check_resolved_param arch families reg ty name (resolve_asm_reg arch reg)).0
          ≡ families ++ (info.family, name) ∷ [])
unfolding check_resolved_param
param-clean arch families reg ty name h = elim (resolved-Usable arch reg) [
  | inr (error, e) ↦
      let h' : error ∷ [] ≡ [] =
        subst (λ r. (check_resolved_param arch families reg ty name r).1 ≡ []) e h in
      cc
  | inl (info, usable, e) ↦
      let (holds, unowned, claimed) =
        resolved-clean arch families reg ty name info
          (subst (λ r. (check_resolved_param arch families reg ty name r).1 ≡ []) e h) in
      (
        info,
        usable,
        holds,
        unowned,
        ap (λ r. (check_resolved_param arch families reg ty name r).0) e ∙ claimed,
      )
]

-- What the loop over the parameters found where it reports nothing.
pub record PinnedFrom (arch : Str) (taken : Families) (regs : List AsmReg)
    (params : List (LangType × Str)) (after : Families) : Type 0 where
  pub families : List Str
  pub pins : Pinned arch regs params families
  pub distinct : Distinct families
  pub fresh : (f : Str) → Memᴰ f families → Memᴰ f (names taken) → ⊥
  pub all_taken : names after ≡ names taken ++ families

append-none : (xs : List Str) → xs ≡ xs ++ []
append-none [] = refl
append-none (x ∷ xs) = ap (λ r. x ∷ r) (append-none xs)

no-PinnedFrom :
    (arch : Str) (taken : Families) (regs : List AsmReg) (params : List (LangType × Str))
    → Pinned arch regs params []
    → PinnedFrom arch taken regs params taken
no-PinnedFrom arch taken regs params pins = record {
  families = [];
  pins = pins;
  distinct = tt;
  fresh = λ f mem old. Memᴰ.not-nil mem;
  all_taken = append-none (names taken);
}

pub check_params-PinnedFrom :
    (arch : Str) (taken : Families) (regs : List AsmReg) (params : List (LangType × Str))
    → (check_params arch taken regs params).1 ≡ []
    → PinnedFrom arch taken regs params (check_params arch taken regs params).0
unfolding check_params
check_params-PinnedFrom arch taken [] params h = no-PinnedFrom arch taken [] params no_register
check_params-PinnedFrom arch taken (reg ∷ regs) [] h =
    no-PinnedFrom arch taken (reg ∷ regs) [] no_parameter
check_params-PinnedFrom arch taken (reg ∷ regs) ((ty, name) ∷ params) h =
    let step = check_resolved_param arch taken reg ty name (resolve_asm_reg arch reg) in
    let (first, rest) = append-nil step.1 (check_params arch step.0 regs params).1 h in
    let (info, usable, holds, unowned, claimed) = param-clean arch taken reg ty name first in
    let later = check_params-PinnedFrom arch step.0 regs params rest in
    let grown : names step.0 ≡ names taken ++ info.family ∷ [] =
      ap names claimed ∙ names-snoc taken info.family name in
    let new_fresh : Memᴰ info.family later.families → ⊥ = λ mem.
      later.fresh info.family mem
        (subst (Memᴰ info.family) (sym grown) (Memᴰ.append_right (names taken) (Memᴰ.head refl))) in
    record {
      families = info.family ∷ later.families;
      pins = pinned info usable holds later.pins;
      distinct = (new_fresh, later.distinct);
      fresh = λ f mem old. elim (Memᴰ.cases_cons mem) [
        | inl e ↦ owner_of-none taken info.family unowned (Memᴰ.cast (sym e) old)
        | inr mem' ↦
            later.fresh f mem'
              (subst (Memᴰ f) (sym grown) (Memᴰ.append_left (info.family ∷ []) old))
      ];
      all_taken =
          later.all_taken
          ∙ ap (λ fs. fs ++ later.families) grown
          ∙ snoc-append (names taken) info.family later.families;
    }
