-- ===== src/Typechecker/Asm/Clobbers.antt =====
-- The contract of src/typechecker/checker/asm.rs for clobbered registers.
use aspect.Prelude.{
  ℕ, suc, ◌≤◌, ◌≡◌, ◌≢◌, refl, sym, ap, subst, ◌∙◌, inl, inr, Bool, true, false, ◌||◌, Option, none,
  some, List, [], ◌∷◌, ◌++◌, arith, if◌then◌else◌, any, Str, str_eq, str_eq_iff, Bool-cases,
  some-inj,
}
use mathlib.Core.List.{Memᴰ}
use mathlib.Core.List.Memᴰ
use aspect.Asm.{RegInfo, memory_clobber}
use aspect.Typechecker.Asm.{
  AsmReg, resolved, resolve_asm_reg, Families, is_family, is_operand, contains,
  check_resolved_clobber, memory_again, check_clobbers,
}
use aspect.Typechecker.Asm.Accepted.{append-nil, Usable, resolved-Usable, Distinct, names}

-- The families of the clobbered registers, and how often `memory` is named.
pub data Clobbered (arch : Str) : List AsmReg → List Str → ℕ → Type 0 where
  no_clobber : Clobbered arch [] [] 0
  memory :
      {reg : AsmReg} {regs : List AsmReg} {families : List Str} {n : ℕ}
      → reg.name ≡ memory_clobber
      → Clobbered arch regs families n
      → Clobbered arch (reg ∷ regs) families (suc n)
  destroyed :
      {reg : AsmReg} {regs : List AsmReg} {families : List Str} {n : ℕ} (info : RegInfo)
      → reg.name ≢ memory_clobber
      → Usable arch reg info
      → Clobbered arch regs families n
      → Clobbered arch (reg ∷ regs) (info.family ∷ families) n

contains-Memᴰ : (fs : List Str) (f : Str) → contains fs f ≡ false → Memᴰ f fs → ⊥
unfolding contains
contains-Memᴰ [] f h mem = Memᴰ.not-nil mem
contains-Memᴰ (g ∷ fs) f h mem = elim (Memᴰ.cases_cons mem) [
  | inl e ↦ ground (arith, str_eq_iff g f, sym e, h)
  | inr later ↦ contains-Memᴰ fs f (ground (arith, h)) later
]

clobber_resolved-clean :
    (families : Families) (return_family : Option Str) (seen : List Str) (reg : AsmReg)
    (info : RegInfo)
    → (check_resolved_clobber families return_family seen reg (resolved info)).1 ≡ []
    → (is_operand families return_family info.family ≡ false)
      × (contains seen info.family ≡ false)
      × ((check_resolved_clobber families return_family seen reg (resolved info)).0
          ≡ seen ++ info.family ∷ [])
unfolding check_resolved_clobber
clobber_resolved-clean families return_family seen reg info h =
    elim (Bool-cases (is_operand families return_family info.family)) [
      | inl o ↦ absurd (ground (arith, o, h))
      | inr o ↦ elim (Bool-cases (contains seen info.family)) [
        | inl c ↦ absurd (ground (arith, o, c, h))
        | inr c ↦ (o, c, rw (o, c) refl)
      ]
    ]

clobber-clean :
    (arch : Str) (families : Families) (return_family : Option Str) (seen : List Str) (reg : AsmReg)
    → (check_resolved_clobber families return_family seen reg (resolve_asm_reg arch reg)).1 ≡ []
    → (info : RegInfo) × Usable arch reg info
      × (is_operand families return_family info.family ≡ false)
      × (contains seen info.family ≡ false)
      × ((check_resolved_clobber families return_family seen reg (resolve_asm_reg arch reg)).0
          ≡ seen ++ info.family ∷ [])
unfolding check_resolved_clobber
clobber-clean arch families return_family seen reg h = elim (resolved-Usable arch reg) [
  | inr (error, e) ↦
      let h' : error ∷ [] ≡ [] =
        subst (λ r. (check_resolved_clobber families return_family seen reg r).1 ≡ []) e h in
      cc
  | inl (info, usable, e) ↦
      let (o, c, s) =
        clobber_resolved-clean families return_family seen reg info
          (subst (λ r. (check_resolved_clobber families return_family seen reg r).1 ≡ []) e h) in
      (
        info,
        usable,
        o,
        c,
        ap (λ r. (check_resolved_clobber families return_family seen reg r).0) e ∙ s,
      )
]

-- What the loop over the clobbered registers found where it reports nothing.
pub record ClobberedFrom (arch : Str) (families : Families) (return_family : Option Str)
    (saw_memory : Bool) (seen : List Str) (regs : List AsmReg) : Type 0 where
  pub destroyed_families : List Str
  pub memories : ℕ
  pub clobbered : Clobbered arch regs destroyed_families memories
  pub distinct : Distinct destroyed_families
  pub fresh : (f : Str) → Memᴰ f destroyed_families → Memᴰ f seen → ⊥
  pub apart : (f : Str) → Memᴰ f destroyed_families → is_operand families return_family f ≡ false
  pub once : memories ≤ (if saw_memory then 0 else 1)

or-false : (a b : Bool) → a || b ≡ false → (a ≡ false) × (b ≡ false)
or-false true b h = cc
or-false false b h = (refl, h)

not_listed :
    (families : Families) (f : Str)
    → any (λ (g, owner). str_eq g f) families ≡ false
    → Memᴰ f (names families)
    → ⊥
not_listed [] f h mem = Memᴰ.not-nil mem
not_listed ((g, owner) ∷ families) f h mem =
    let (differs, later) = or-false (str_eq g f) _ h in
    elim (Memᴰ.cases_cons mem) [
      | inl e ↦ ground (arith, str_eq_iff g f, sym e, differs)
      | inr mem' ↦ not_listed families f later mem'
    ]

not_family : (o : Option Str) (f : Str) → is_family o f ≡ false → o ≢ some f
unfolding is_family
not_family none f h e = cc
not_family (some g) f h e = ground (arith, str_eq_iff g f, some-inj e, h)

module _ (arch : Str) (families : Families) (return_family : Option Str) where
  memory-ClobberedFrom :
      (saw_memory : Bool) (seen : List Str) (reg : AsmReg) (regs : List AsmReg)
      → reg.name ≡ memory_clobber
      → memory_again saw_memory reg ≡ []
      → ClobberedFrom arch families return_family true seen regs
      → ClobberedFrom arch families return_family saw_memory seen (reg ∷ regs)
  unfolding memory_again
  memory-ClobberedFrom saw_memory seen reg regs e h later = record {
    destroyed_families = later.destroyed_families;
    memories = suc later.memories;
    clobbered = memory e later.clobbered;
    distinct = later.distinct;
    fresh = later.fresh;
    apart = later.apart;
    once = ground (arith, later.once, h);
  }

  pub check_clobbers-ClobberedFrom :
      (saw_memory : Bool) (seen : List Str) (regs : List AsmReg)
      → check_clobbers arch families return_family saw_memory seen regs ≡ []
      → ClobberedFrom arch families return_family saw_memory seen regs
  unfolding check_clobbers
  check_clobbers-ClobberedFrom saw_memory seen [] h = record {
    destroyed_families = [];
    memories = 0;
    clobbered = no_clobber;
    distinct = tt;
    fresh = λ f mem old. Memᴰ.not-nil mem;
    apart = λ f mem. absurd (Memᴰ.not-nil mem);
    once = omega arith;
  }
  check_clobbers-ClobberedFrom saw_memory seen (reg ∷ regs) h =
      elim (Bool-cases (str_eq reg.name memory_clobber)) [
        | inl e ↦
            let (again, rest) =
              append-nil (memory_again saw_memory reg)
                (check_clobbers arch families return_family true seen regs) (rw e at h) in
            memory-ClobberedFrom saw_memory seen reg regs ((str_eq_iff reg.name memory_clobber).0 e)
              again (check_clobbers-ClobberedFrom true seen regs rest)
        | inr e ↦
            let step =
              check_resolved_clobber families return_family seen reg (resolve_asm_reg arch reg) in
            let (first, rest) =
              append-nil step.1 (check_clobbers arch families return_family saw_memory step.0 regs)
                (rw e at h) in
            let (info, usable, o, c, grown) =
              clobber-clean arch families return_family seen reg first in
            let later = check_clobbers-ClobberedFrom saw_memory step.0 regs rest in
            record {
              destroyed_families = info.family ∷ later.destroyed_families;
              memories = later.memories;
              clobbered =
                  destroyed info (λ same. ground (arith, str_eq_iff reg.name memory_clobber)) usable
                    later.clobbered;
              distinct = (
                λ mem. later.fresh info.family mem (
                    subst (Memᴰ info.family) (sym grown) (Memᴰ.append_right seen (Memᴰ.head refl))),
                later.distinct,
              );
              fresh = λ f mem old. elim (Memᴰ.cases_cons mem) [
                | inl same ↦ contains-Memᴰ seen info.family c (Memᴰ.cast (sym same) old)
                | inr mem' ↦
                    later.fresh f mem'
                      (subst (Memᴰ f) (sym grown) (Memᴰ.append_left (info.family ∷ []) old))
              ];
              apart = λ f mem. elim (Memᴰ.cases_cons mem) [
                | inl same ↦ subst (λ g. is_operand families return_family g ≡ false) (sym same) o
                | inr mem' ↦ later.apart f mem'
              ];
              once = later.once;
            }
      ]

  -- What is no operand's family is neither a parameter's nor the return value's.
  pub not_operand :
      (f : Str)
      → is_operand families return_family f ≡ false
      → (Memᴰ f (names families) → ⊥) × (return_family ≢ some f)
  unfolding is_operand is_family
  not_operand f h =
      let (unlisted, other) = or-false (any (λ (g, owner). str_eq g f) families) _ h in
      (not_listed families f unlisted, not_family return_family f other)
