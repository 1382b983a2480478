-- ===== src/Variants/Coverage.antt =====
-- The meaning of `covered_by` (src/variants.rs).
use aspect.Prelude.{
  ℕ, zero, suc, ◌<◌, ◌≡◌, ◌↔◌, refl, sym, ap, subst, inl, inr, ◌⊎◌, Bool, true, Option, none, some,
  List, [], ◌∷◌, arith, ◌==◌, ==_iff, Bool-cases,
}
use aspect.Variants.{
  ClosedSpace, Pattern, pattern_slot, cons_some, seen, contains, all_below, covered_by,
}

-- A pattern of the list names the slot.
pub data Named (space : ClosedSpace) (slot : ℕ) : List Pattern → Type 0 where
  first :
      {p : Pattern} {patterns : List Pattern}
      → pattern_slot space p ≡ some slot
      → Named space slot (p ∷ patterns)
  later :
      {p : Pattern} {patterns : List Pattern}
      → Named space slot patterns
      → Named space slot (p ∷ patterns)

all_below-elim :
    (n : ℕ) (p : ℕ → Bool) → all_below n p ≡ true → (slot : ℕ) → slot < n → p slot ≡ true
unfolding all_below
all_below-elim zero p h slot l = absurd (omega arith)
all_below-elim (suc n) p h slot l = elim (Bool-cases (slot == n)) [
  | inl e ↦ subst (λ k. p k ≡ true) (sym ((==_iff slot n).0 e)) (ground (arith, h))
  | inr e ↦ all_below-elim n p (ground (arith, h)) slot (ground (arith, l, e))
]

all_below-intro :
    (n : ℕ) (p : ℕ → Bool) → ((slot : ℕ) → slot < n → p slot ≡ true) → all_below n p ≡ true
unfolding all_below
all_below-intro zero p h = refl
all_below-intro (suc n) p h =
    rw (h n (omega arith), all_below-intro n p λ slot l. h slot (omega (arith, l))) refl

-- The head of the slots, and what is found behind it.
contains-cons_some :
    (o : Option ℕ) (slots : List ℕ) (slot : ℕ)
    → contains (cons_some o slots) slot ≡ true
    → (o ≡ some slot) ⊎ (contains slots slot ≡ true)
unfolding contains cons_some
contains-cons_some none slots slot h = inr h
contains-cons_some (some s) slots slot h = elim (Bool-cases (s == slot)) [
  | inl e ↦ inl (ap some ((==_iff s slot).0 e))
  | inr e ↦ inr (ground (arith, h, e))
]

contains-here : (slots : List ℕ) (slot : ℕ) → contains (slot ∷ slots) slot ≡ true
unfolding contains
contains-here slots slot = ground arith

contains-behind :
    (o : Option ℕ) (slots : List ℕ) (slot : ℕ)
    → contains slots slot ≡ true
    → contains (cons_some o slots) slot ≡ true
unfolding contains cons_some
contains-behind none slots slot h = h
contains-behind (some s) slots slot h = ground (arith, h)

contains-nothing : (slot : ℕ) → contains [] slot ≡ true → ⊥
unfolding contains
contains-nothing slot h = absurd (ground (arith, h))

pub contains-Named :
    (space : ClosedSpace) (slot : ℕ) (patterns : List Pattern)
    → contains (seen space patterns) slot ≡ true
    → Named space slot patterns
unfolding seen
contains-Named space slot [] h = absurd (contains-nothing slot h)
contains-Named space slot (p ∷ patterns) h =
    elim (contains-cons_some (pattern_slot space p) (seen space patterns) slot h) [
      | inl e ↦ first e
      | inr later_found ↦ later (contains-Named space slot patterns later_found)
    ]

pub Named-contains :
    (space : ClosedSpace) (slot : ℕ) (patterns : List Pattern)
    → Named space slot patterns
    → contains (seen space patterns) slot ≡ true
unfolding seen cons_some
Named-contains space slot patterns (first {patterns = rest} e) =
    rw e (contains-here (seen space rest) slot)
Named-contains space slot patterns (later {p = p} {patterns = rest} m) =
    contains-behind (pattern_slot space p) (seen space rest) slot (Named-contains space slot rest m)

-- The patterns cover a closed space exactly if each of its slots is named by one of them, however
-- often others are repeated.
pub covered_by_iff :
    (space : ClosedSpace) (patterns : List Pattern)
    → (covered_by space patterns ≡ true)
      ↔ ((slot : ℕ) → slot < space.count → Named space slot patterns)
unfolding covered_by
covered_by_iff space patterns = (
  λ h slot l.
      contains-Named space slot patterns
        (all_below-elim space.count (contains (seen space patterns)) h slot l),
  λ h.
      all_below-intro space.count (contains (seen space patterns))
        λ slot l. Named-contains space slot patterns (h slot l),
)
