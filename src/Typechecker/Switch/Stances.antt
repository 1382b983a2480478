-- ===== src/Typechecker/Switch/Stances.antt =====
-- When a `switch` passes: src/typechecker/checker/switch.rs with the parser's `complete`.
use aspect.Prelude.{
  ℕ, ◌<◌, ◌≡◌, ◌↔◌, ◌⊎◌, inl, inr, refl, ap, ◌∙◌, Bool, true, false, List, [], ◌∷◌, arith,
  Bool-cases, if◌then◌else◌, ◌&&◌, All, Str,
}
use mathlib.Core.List.{Memᴰ}
use aspect.Prelude.Int.{ℤ}
use aspect.Prelude.Checked.{Checked, returns, ◌>>!◌}
use aspect.Lexer.Position.{Position}
use aspect.Lexer.LangType.{LangType}
use aspect.Symbol.Module.{ModuleSymbols}
use aspect.Variants.{
  ClosedKind, ClosedSpace, Pattern, sum_variant, enum_value, bool_literal, slot_in, pattern_slot,
  to_slot, cons_some, seen, contains, covered_by,
}
use aspect.Variants.Coverage.{Named, contains-Named, Named-contains, covered_by_iff}
use aspect.Variants.Missing.{HasVariants, missing_from_iff, of-HasVariants, slot_labels-returns}
use aspect.Variants.Space
use aspect.Variants.Space.{
  VariantSpace, closed_space, open_space, unmatchable, closed, covered_if, missing_from,
  missing_label, missing_text, slot_labels, join, switch_coverage_complete,
}
use aspect.Typechecker.Switch.{
  Verdict, fine, dead_default, non_exhaustive, pattern_key, cons_key, keys_of, slots_of,
  check_closed_stances, check_switch_exhaustiveness,
}

-- Every value of the scrutinee has an arm that names it, or the default.
pub data Handled (space : ClosedSpace) (patterns : List Pattern) : Bool → Type 0 where
  by_default : Handled space patterns true
  by_arms :
      {has_default : Bool}
      → ((slot : ℕ) → slot < space.count → Named space slot patterns)
      → Handled space patterns has_default

complete-eq :
    (m : ModuleSymbols) (ty : LangType) (space : ClosedSpace) (patterns : List Pattern)
    (complete : Bool)
    → Space.of m ty ≡ returns (closed_space space)
    → switch_coverage_complete m ty patterns ≡ returns complete
    → covered_by space patterns ≡ complete
unfolding switch_coverage_complete closed covered_if
complete-eq m ty space patterns complete known h =
    let e : switch_coverage_complete m ty patterns ≡ returns (covered_by space patterns) =
      rw known refl in
    cc

-- A pattern that the type of the scrutinee allows.
pub data OfKind : ClosedKind → Pattern → Type 0 where
  sum_of : {id variant : ℕ} → OfKind (ClosedKind.sum id) (sum_variant variant)
  enum_of : {id : ℕ} {value : ℤ} → OfKind (ClosedKind.enum id) (enum_value value)
  bool_of : {b : Bool} → OfKind ClosedKind.bool (bool_literal b)

-- Of an allowed pattern, the value that is seen is the slot that is covered.
seen_pattern :
    (kind : ClosedKind) (p : Pattern) (keys : List ℤ)
    → OfKind kind p
    → slots_of (cons_key (pattern_key p) keys) ≡ cons_some (slot_in kind p) (slots_of keys)
unfolding slots_of cons_key pattern_key slot_in to_slot cons_some
seen_pattern _ _ keys sum_of = refl
seen_pattern _ _ keys enum_of = refl
seen_pattern _ _ keys bool_of = refl

slots-seen :
    (space : ClosedSpace) (patterns : List Pattern)
    → All (OfKind space.kind) patterns
    → slots_of (keys_of patterns) ≡ seen space patterns
unfolding keys_of seen pattern_slot slots_of
slots-seen space [] fits = refl
slots-seen space (p ∷ patterns) fits =
    seen_pattern space.kind p (keys_of patterns) fits.0
    ∙ ap (cons_some (slot_in space.kind p)) (slots-seen space patterns fits.1)

-- The slots that no pattern names.
unfoldable pub Unnamed : ClosedSpace → List Pattern → List ℕ → Type 0
Unnamed space patterns missing =
    (slot : ℕ) → Memᴰ slot missing ↔ ((slot < space.count) × (Named space slot patterns → ⊥))

missing-Unnamed :
    (space : ClosedSpace) (patterns : List Pattern)
    → Unnamed space patterns (missing_from space.count 0 (seen space patterns))
unfolding Unnamed
missing-Unnamed space patterns slot =
    let listed = missing_from_iff space.count 0 (seen space patterns) slot in
    (
      λ mem.
          let (low, high, out) = listed.0 mem in
          (
            omega (arith, high),
            λ named.
                let found = Named-contains space slot patterns named in ground (arith, found, out),
          ),
      λ (high, unnamed). elim (Bool-cases (contains (seen space patterns) slot)) [
        | inl e ↦ absurd (unnamed (contains-Named space slot patterns e))
        | inr e ↦ listed.1 (omega arith, omega (arith, high), e)
      ],
    )

unhandled :
    (space : ClosedSpace) (patterns : List Pattern)
    → covered_by space patterns ≡ false
    → Handled space patterns false
    → ⊥
unhandled space patterns h (by_arms all) = let covers = (covered_by_iff space patterns).1 all in cc

-- What the check refuses with, where some slots are named by no pattern.
unfoldable pub Refuses :
    ModuleSymbols → ClosedSpace → List Pattern → Position → Checked Verdict → Type 0
Refuses m space patterns at verdict =
    (missing : List ℕ) × (labels : List Str) × Unnamed space patterns missing
    × (slot_labels m space missing ≡ returns labels)
    × (verdict ≡ returns (non_exhaustive (missing_text space.kind (join labels)) at))

module _ (m : ModuleSymbols) (space : ClosedSpace) (patterns : List Pattern) (at : Position) where
  missing-Refuses :
      (keys : List ℤ)
      → HasVariants m space.kind
      → slots_of keys ≡ seen space patterns
      → Refuses m space patterns at
          (missing_label m space (slots_of keys) >>! λ missing. returns (non_exhaustive missing at))
  unfolding Refuses missing_label
  missing-Refuses keys known same =
      let missing = missing_from space.count 0 (seen space patterns) in
      let (labels, e) = slot_labels-returns m space missing known in
      (missing, labels, missing-Unnamed space patterns, e, rw (same, e) refl)

  stances-cases :
      (complete has_default : Bool) (keys : List ℤ)
      → HasVariants m space.kind
      → slots_of keys ≡ seen space patterns
      → covered_by space patterns ≡ complete
      → Handled space patterns has_default
          × (check_closed_stances m space complete has_default (slots_of keys) at
              ≡ returns (if complete && has_default then dead_default at else fine))
        ⊎ (Handled space patterns has_default → ⊥)
          × Refuses m space patterns at
              (check_closed_stances m space complete has_default (slots_of keys) at)
  unfolding check_closed_stances
  stances-cases true true keys known same h = inl (by_default, refl)
  stances-cases true false keys known same h =
      inl (by_arms ((covered_by_iff space patterns).0 h), refl)
  stances-cases false true keys known same h = inl (by_default, refl)
  stances-cases false false keys known same h =
      inr (unhandled space patterns h, missing-Refuses keys known same)

-- A switch over a type whose values can be enumerated, with patterns that its type allows, never
-- panics and is refused exactly if it has no default and some slot of the space is named by none of
-- its patterns; the error then spells the slots that no pattern names, and no others. It is warned
-- about where the patterns name all slots and it has a default too. `complete` is what the parser
-- computed from the same type and patterns, and the keys seen are the patterns' own.
pub check_switch_exhaustiveness-cases :
    (m : ModuleSymbols) (ty : LangType) (space : ClosedSpace) (patterns : List Pattern)
    (complete has_default : Bool) (at : Position)
    → Space.of m ty ≡ returns (closed_space space)
    → All (OfKind space.kind) patterns
    → switch_coverage_complete m ty patterns ≡ returns complete
    → Handled space patterns has_default
        × (check_switch_exhaustiveness m
              (closed_space space)
              ty
              complete
              has_default
              (keys_of patterns)
              at
            ≡ returns (if complete && has_default then dead_default at else fine))
      ⊎ (Handled space patterns has_default → ⊥)
        × Refuses m space patterns at (
            check_switch_exhaustiveness m
              (closed_space space)
              ty
              complete
              has_default
              (keys_of patterns)
              at)
unfolding check_switch_exhaustiveness
check_switch_exhaustiveness-cases m ty space patterns complete has_default at known fits h =
    stances-cases m space patterns at complete has_default (keys_of patterns)
      (of-HasVariants m ty space known) (slots-seen space patterns fits)
      (complete-eq m ty space patterns complete known h)
