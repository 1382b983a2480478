-- ===== src/Parser/Cycles/Stored.antt =====
-- Which field types store a layout by value, src/parser/cycles.rs.
use aspect.Prelude.{
  ℕ, ◌≡◌, ◌↔◌, inl, inr, refl, sym, subst, ◌∙◌, some-inj, some, List, [], ◌∷◌, ◌==◌, ==_iff,
  Bool-cases, Option-cases,
}
use mathlib.Core.List.{Memᴰ}
use mathlib.Core.List.Memᴰ
use aspect.Lexer.LangType.{TypeBase, LangType}
use aspect.Parser.Cycles.{Node, struct, sum, base_node, by_value, cons_some, targets}

-- A struct or a sum itself, and no pointer to one.
pub data Stores (ty : LangType) : Node → Type 0 where
  stores_struct :
      {id : ℕ} → ty.base ≡ TypeBase.struct id → ty.pointer_depth ≡ 0 → Stores ty (struct id)
  stores_sum : {id : ℕ} → ty.base ≡ TypeBase.sum id → ty.pointer_depth ≡ 0 → Stores ty (sum id)

base-Stores :
    (ty : LangType) (base : TypeBase) (c : Node)
    → ty.base ≡ base
    → ty.pointer_depth ≡ 0
    → base_node base ≡ some c
    → Stores ty c
unfolding base_node
base-Stores ty (TypeBase.struct id) c b d h = subst (Stores ty) (some-inj h) (stores_struct b d)
base-Stores ty (TypeBase.sum id) c b d h = subst (Stores ty) (some-inj h) (stores_sum b d)
base-Stores ty _ c b d h = cc

by_value-Stores : (ty : LangType) (c : Node) → by_value ty ≡ some c → Stores ty c
unfolding by_value
by_value-Stores ty c h = elim (Bool-cases (ty.pointer_depth == 0)) [
  | inl e ↦ base-Stores ty ty.base c refl ((==_iff ty.pointer_depth 0).0 e) (rw e at h)
  | inr e ↦ cc (rw e at h)
]

Stores-by_value : (ty : LangType) (c : Node) → Stores ty c → by_value ty ≡ some c
unfolding by_value base_node
Stores-by_value ty _ (stores_struct b d) = rw (d, b) refl
Stores-by_value ty _ (stores_sum b d) = rw (d, b) refl

-- The edges out of a list of field types are the layouts that one of them stores.
pub targets_iff :
    (types : List LangType) (c : Node)
    → Memᴰ c (targets types) ↔ ((ty : LangType) × Memᴰ ty types × Stores ty c)
unfolding targets cons_some
targets_iff [] c = (λ mem. absurd (Memᴰ.not-nil mem), λ (ty, mem, s). absurd (Memᴰ.not-nil mem))
targets_iff (ty ∷ types) c =
    let rest = targets_iff types c in
    elim (Option-cases (by_value ty)) [
      | inl e ↦ rw e (
        λ mem. let (u, at, s) = rest.0 mem in (u, Memᴰ.tail at, s),
        λ (u, at, s). elim (Memᴰ.cases_cons at) [
          | inl same ↦ let stored = Stores-by_value ty c (subst (λ x. Stores x c) same s) in cc
          | inr later ↦ rest.1 (u, later, s)
        ],
      )
      | inr (d, e) ↦ rw e (
        λ mem. elim (Memᴰ.cases_cons mem) [
          | inl same ↦ (ty, Memᴰ.head refl, subst (Stores ty) (sym same) (by_value-Stores ty d e))
          | inr later ↦ let (u, at, s) = rest.0 later in (u, Memᴰ.tail at, s)
        ],
        λ (u, at, s). elim (Memᴰ.cases_cons at) [
          | inl same ↦
              let stored = Stores-by_value ty c (subst (λ x. Stores x c) same s) in
              Memᴰ.head (some-inj (sym stored ∙ e))
          | inr later ↦ Memᴰ.tail (rest.1 (u, later, s))
        ],
      )
    ]
