-- ===== src/Parser/Cycles/Nodes.antt =====
-- The nodes that src/parser/cycles.rs starts from are those that have edges.
use aspect.Prelude.{
  ℕ, zero, suc, ◌≡◌, refl, sym, ap, subst, ◌∙◌, inl, inr, Bool, true, some, List, [], ◌∷◌, map,
  if◌then◌else◌, get_elem?, Bool-cases, some-inj,
}
use mathlib.Core.List.{Memᴰ}
use mathlib.Core.List.Memᴰ
use aspect.Prelude.Checked.{returns, expect, >>!-eq-returns, expect-eq}
use aspect.Symbol.Module.{
  TypeKind, TypeDef, StructBody, SumBody, ModuleSymbols, as_struct_body, as_sum_body,
}
use aspect.Symbol.Module.Registry.{of_kind, structs, sums, is_struct_kind, is_sum_kind}
use aspect.Symbol.Module.Bodies.{struct_at, sum_at}
use aspect.Symbol.Module.WellFormed.{IsWellFormed}
use aspect.Symbol.Module.Reached.{Reached, Reached-IsWellFormed}
use aspect.Parser.Cycles.{Node, struct, sum, edges, roots, targets, fields_types, variants_types}

of_kind-mem :
    (want : TypeKind → Bool) (types : List TypeDef) (id : ℕ) (d : TypeDef)
    → Memᴰ (id, d) (of_kind want types)
    → (i : ℕ) × (get_elem? types i ≡ some d) × (want d.kind ≡ true) × (id ≡ d.id)
unfolding of_kind
of_kind-mem want [] id d h = absurd (Memᴰ.not-nil h)
of_kind-mem want (x ∷ types) id d h = elim (Bool-cases (want x.kind)) [
  | inl e ↦ elim (Memᴰ.cases_cons (rw e at h)) [
    | inl same ↦ (
      0,
      ap some (sym (ap (λ p. p.1) same)),
      subst (λ y. want y.kind ≡ true) (sym (ap (λ p. p.1) same)) e,
      ap (λ p. p.0) same ∙ sym (ap (λ p. p.1.id) same),
    )
    | inr later ↦
        let (i, at_i, wanted, own) = of_kind-mem want types id d later in (suc i, at_i, wanted, own)
  ]
  | inr e ↦
      let (i, at_i, wanted, own) = of_kind-mem want types id d (rw e at h) in
      (suc i, at_i, wanted, own)
]

mem-of_kind :
    (want : TypeKind → Bool) (types : List TypeDef) (i : ℕ) (d : TypeDef)
    → get_elem? types i ≡ some d
    → want d.kind ≡ true
    → Memᴰ (d.id, d) (of_kind want types)
unfolding of_kind
mem-of_kind want [] i d h w = cc
mem-of_kind want (x ∷ types) zero d h w =
    let same : x ≡ d = some-inj h in
    subst
      (λ y.
        Memᴰ (y.id, y) (if want x.kind then (x.id, x) ∷ of_kind want types else of_kind want types))
      same (rw (subst (λ y. want y.kind ≡ true) (sym same) w) (Memᴰ.head refl))
mem-of_kind want (x ∷ types) (suc i) d h w = elim (Bool-cases (want x.kind)) [
  | inl e ↦ rw e (Memᴰ.tail (mem-of_kind want types i d h w))
  | inr e ↦ rw e (mem-of_kind want types i d h w)
]

struct-body :
    (k : TypeKind) → is_struct_kind k ≡ true → (body : StructBody) × (as_struct_body k ≡ some body)
unfolding is_struct_kind as_struct_body
struct-body (TypeKind.struct body) h = (body, refl)
struct-body _ h = cc

sum-body : (k : TypeKind) → is_sum_kind k ≡ true → (body : SumBody) × (as_sum_body k ≡ some body)
unfolding is_sum_kind as_sum_body
sum-body (TypeKind.sum body) h = (body, refl)
sum-body _ h = cc

struct-kind :
    (k : TypeKind) (body : StructBody) → as_struct_body k ≡ some body → is_struct_kind k ≡ true
unfolding is_struct_kind as_struct_body
struct-kind (TypeKind.struct b) body h = refl
struct-kind _ body h = cc

sum-kind : (k : TypeKind) (body : SumBody) → as_sum_body k ≡ some body → is_sum_kind k ≡ true
unfolding is_sum_kind as_sum_body
sum-kind (TypeKind.sum b) body h = refl
sum-kind _ body h = cc

module _ (m : ModuleSymbols) (r : Reached m) where
  own_id : (i : ℕ) (d : TypeDef) → get_elem? m.types i ≡ some d → d.id ≡ i
  unfolding IsWellFormed
  own_id = (Reached-IsWellFormed m r).ids

  struct-known :
      (id : ℕ) (d : TypeDef)
      → Memᴰ (id, d) (structs m)
      → (next : List Node) × (edges m (struct id) ≡ returns next)
  unfolding structs edges struct_at
  struct-known id d h =
      let (i, at_i, wanted, own) = of_kind-mem is_struct_kind m.types id d h in
      let (body, is_body) = struct-body d.kind wanted in
      let at_id : get_elem? m.types id ≡ some d =
        subst (λ j. get_elem? m.types j ≡ some d) (sym (own ∙ own_id i d at_i)) at_i in
      (targets (fields_types body.fields), rw (at_id, is_body) refl)

  sum-known :
      (id : ℕ) (d : TypeDef)
      → Memᴰ (id, d) (sums m)
      → (next : List Node) × (edges m (sum id) ≡ returns next)
  unfolding sums edges sum_at
  sum-known id d h =
      let (i, at_i, wanted, own) = of_kind-mem is_sum_kind m.types id d h in
      let (body, is_body) = sum-body d.kind wanted in
      let at_id : get_elem? m.types id ≡ some d =
        subst (λ j. get_elem? m.types j ≡ some d) (sym (own ∙ own_id i d at_i)) at_i in
      (targets (variants_types body.variants), rw (at_id, is_body) refl)

  pub root-known : (n : Node) → Memᴰ n (roots m) → (next : List Node) × (edges m n ≡ returns next)
  unfolding roots
  root-known n h = elim (Memᴰ.append_cases (map (λ (id, def). struct id) (structs m)) h) [
    | inl s ↦
        let ((id, d), mem, e) = Memᴰ.of_map (λ (id, def). struct id) (structs m) s in
        subst (λ x. (next : List Node) × (edges m x ≡ returns next)) e (struct-known id d mem)
    | inr s ↦
        let ((id, d), mem, e) = Memᴰ.of_map (λ (id, def). sum id) (sums m) s in
        subst (λ x. (next : List Node) × (edges m x ≡ returns next)) e (sum-known id d mem)
  ]

  pub known-root : (n : Node) (next : List Node) → edges m n ≡ returns next → Memᴰ n (roots m)
  unfolding edges roots structs sums struct_at sum_at
  known-root (struct id) next h =
      let (body, b, rest) =
        >>!-eq-returns (struct_at m id) (λ body. returns (targets (fields_types body.fields))) h in
      let (d, at_id, k) =
        >>!-eq-returns (expect (get_elem? m.types id)) (λ d. expect (as_struct_body d.kind)) b in
      let was = expect-eq (get_elem? m.types id) at_id in
      Memᴰ.append_left _ (
        subst (λ i. Memᴰ (struct i) (map (λ (id, def). struct id) (structs m))) (own_id id d was)
          (Memᴰ.map (λ (id, def). struct id)
            (mem-of_kind is_struct_kind m.types id d was
              (struct-kind d.kind body (expect-eq (as_struct_body d.kind) k)))))
  known-root (sum id) next h =
      let (body, b, rest) =
        >>!-eq-returns (sum_at m id) (λ body. returns (targets (variants_types body.variants))) h in
      let (d, at_id, k) =
        >>!-eq-returns (expect (get_elem? m.types id)) (λ d. expect (as_sum_body d.kind)) b in
      let was = expect-eq (get_elem? m.types id) at_id in
      Memᴰ.append_right (map (λ (id, def). struct id) (structs m)) (
        subst (λ i. Memᴰ (sum i) (map (λ (id, def). sum id) (sums m))) (own_id id d was)
          (Memᴰ.map (λ (id, def). sum id)
            (mem-of_kind is_sum_kind m.types id d was
              (sum-kind d.kind body (expect-eq (as_sum_body d.kind) k)))))
