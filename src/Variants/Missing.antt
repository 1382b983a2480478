-- ===== src/Variants/Missing.antt =====
-- The slots that a switch leaves out, and that their labels can be read: src/variants.rs.
use aspect.Prelude.{
  ℕ, zero, suc, ◌+◌, ◌<◌, ◌≤◌, ◌≡◌, ◌↔◌, inl, inr, refl, sym, subst, false, Option, none, some,
  List, [], ◌∷◌, arith, Bool-cases, Str, codes, get_elem?, if◌then◌else◌, ◌==◌, ◌||◌, ltb,
}
use mathlib.Core.List.{Memᴰ}
use mathlib.Core.List.Memᴰ
use aspect.Prelude.Checked.{returns, >>!-eq-returns, returns-inj}
use aspect.Lexer.LangType
use aspect.Lexer.LangType.{TypeBase, LangType, is_array}
use aspect.Symbol.Module.{ModuleSymbols, EnumBody, SumBody}
use aspect.Symbol.Module.Bodies.{enum_at, sum_at}
use aspect.Variants.{ClosedKind, ClosedSpace, contains}
use aspect.Variants.Space.{
  VariantSpace, closed_space, closed_as, of_base, of_scrutinee, of, label_in, slot_label,
  slot_labels, missing_from, quoted, name_of, sum_scrutinee,
}

-- The slots from `slot` on, `left` of them, that are not among `slots`.
pub missing_from_iff :
    (left slot : ℕ) (slots : List ℕ) (s : ℕ)
    → Memᴰ s (missing_from left slot slots)
      ↔ ((slot ≤ s) × (s < slot + left) × (contains slots s ≡ false))
unfolding missing_from
missing_from_iff zero slot slots s =
    (λ mem. absurd (Memᴰ.not-nil mem), λ (low, high, out). absurd (omega (arith, low, high)))
missing_from_iff (suc left) slot slots s =
    let rest = missing_from_iff left (suc slot) slots s in
    elim (Bool-cases (contains slots slot)) [
      | inl e ↦ rw e (
        λ mem. let (low, high, out) = rest.0 mem in (omega (arith, low), omega (arith, high), out),
        λ (low, high, out). elim (Bool-cases (slot == s)) [
          | inl same ↦ absurd (ground (arith, same, e, out))
          | inr differ ↦ rest.1 (ground (arith, low, differ), omega (arith, high), out)
        ],
      )
      | inr e ↦ rw e (
        λ mem. elim (Memᴰ.cases_cons mem) [
          | inl same ↦ (
            omega (arith, same),
            omega (arith, same),
            subst (λ x. contains slots x ≡ false) (sym same) e,
          )
          | inr later ↦
              let (low, high, out) = rest.0 later in (omega (arith, low), omega (arith, high), out)
        ],
        λ (low, high, out). elim (Bool-cases (s == slot)) [
          | inl same ↦ Memᴰ.head (ground (arith, same))
          | inr differ ↦ Memᴰ.tail (rest.1 (ground (arith, low, differ), omega (arith, high), out))
        ],
      )
    ]

-- The table knows the type whose variants a space has.
pub HasVariants : ModuleSymbols → ClosedKind → Type 0
HasVariants m (ClosedKind.enum id) = (body : EnumBody) × (enum_at m id ≡ returns body)
HasVariants m (ClosedKind.sum id) = (body : SumBody) × (sum_at m id ≡ returns body)
HasVariants m ClosedKind.bool = Unit

kind_of : VariantSpace → ClosedKind
kind_of (closed_space space) = space.kind
kind_of _ = ClosedKind.bool

of_base-HasVariants :
    (m : ModuleSymbols) (base : TypeBase) (v : VariantSpace)
    → of_base m base ≡ returns v
    → HasVariants m (kind_of v)
unfolding of_base closed_as HasVariants kind_of
of_base-HasVariants m LangType.s_int v h = subst (λ v. HasVariants m (kind_of v)) (returns-inj h) tt
of_base-HasVariants m LangType.u_int v h = subst (λ v. HasVariants m (kind_of v)) (returns-inj h) tt
of_base-HasVariants m LangType.bool v h = subst (λ v. HasVariants m (kind_of v)) (returns-inj h) tt
of_base-HasVariants m (LangType.enum id) v h =
    let (body, r, e) = >>!-eq-returns (enum_at m id) _ h in
    subst (λ v. HasVariants m (kind_of v)) (returns-inj e) (body, r)
of_base-HasVariants m _ v h = subst (λ v. HasVariants m (kind_of v)) (returns-inj h) tt

of_scrutinee-HasVariants :
    (m : ModuleSymbols) (ty : LangType) (o : Option ℕ) (v : VariantSpace)
    → of_scrutinee m ty o ≡ returns v
    → HasVariants m (kind_of v)
unfolding of_scrutinee closed_as HasVariants kind_of
of_scrutinee-HasVariants m ty (some id) v h =
    let (body, r, e) = >>!-eq-returns (sum_at m id) _ h in
    subst (λ v. HasVariants m (kind_of v)) (returns-inj e) (body, r)
of_scrutinee-HasVariants m ty none v h = elim (Bool-cases (is_array ty || ltb 0 ty.pointer_depth)) [
  | inl e ↦ subst (λ v. HasVariants m (kind_of v)) (returns-inj (rw e at h)) tt
  | inr e ↦ of_base-HasVariants m ty.base v (rw e at h)
]

pub of-HasVariants :
    (m : ModuleSymbols) (ty : LangType) (space : ClosedSpace)
    → of m ty ≡ returns (closed_space space)
    → HasVariants m space.kind
unfolding of kind_of
of-HasVariants m ty space h =
    of_scrutinee-HasVariants m ty (sum_scrutinee ty) (closed_space space) h

label_in-returns :
    (m : ModuleSymbols) (slot : ℕ) (kind : ClosedKind)
    → HasVariants m kind
    → (label : Str) × (label_in m slot kind ≡ returns label)
unfolding label_in HasVariants
label_in-returns m slot (ClosedKind.enum id) (body, e) =
    (quoted (get_elem? body.variants slot), rw e refl)
label_in-returns m slot (ClosedKind.sum id) (body, e) =
    (quoted (name_of (get_elem? body.variants slot)), rw e refl)
label_in-returns m slot ClosedKind.bool known =
    (if slot == 1 then codes "`true`" else codes "`false`", refl)

-- The labels of a space whose type is known never panic.
pub slot_labels-returns :
    (m : ModuleSymbols) (space : ClosedSpace) (slots : List ℕ)
    → HasVariants m space.kind
    → (labels : List Str) × (slot_labels m space slots ≡ returns labels)
unfolding slot_labels slot_label
slot_labels-returns m space [] known = ([], refl)
slot_labels-returns m space (slot ∷ slots) known =
    let (label, e) = label_in-returns m slot space.kind known in
    let (labels, f) = slot_labels-returns m space slots known in (label ∷ labels, rw (e, f) refl)
