-- ===== src/Variants.antt =====
-- What a `switch` covers: `ClosedSpace` of src/variants.rs.
pub mod Coverage
pub mod Space
pub mod Missing
use aspect.Prelude.{
  ℕ, zero, suc, Bool, true, false, ◌&&◌, Option, none, some, List, [], ◌∷◌, if◌then◌else◌, ◌==◌,
  any,
}
use aspect.Prelude.Int.{ℤ, pos, negsuc}

pub data ClosedKind : Type 0 where
  enum sum : ℕ → ClosedKind
  bool : ClosedKind

pub record ClosedSpace : Type 0 where
  pub kind : ClosedKind
  pub count : ℕ

-- A `SwitchPattern`: a sum's variant, or a constant that is an enum's value, a literal or anything
-- else.
pub data Pattern : Type 0 where
  sum_variant : ℕ → Pattern
  enum_value : ℤ → Pattern
  bool_literal : Bool → Pattern
  integer_literal : ℤ → Pattern
  other : Pattern

-- `usize::try_from`.
unfoldable pub to_slot : ℤ → Option ℕ
to_slot (pos n) = some n
to_slot (negsuc n) = none

unfoldable pub slot_in : ClosedKind → Pattern → Option ℕ
unfolding to_slot
slot_in (sum id) (sum_variant variant) = some variant
slot_in (enum id) (enum_value value) = to_slot value
slot_in bool (bool_literal b) = some (if b then 1 else 0)
slot_in _ _ = none

unfoldable pub pattern_slot : ClosedSpace → Pattern → Option ℕ
unfolding slot_in
pattern_slot space pattern = slot_in space.kind pattern

unfoldable pub cons_some : Option ℕ → List ℕ → List ℕ
cons_some none slots = slots
cons_some (some slot) slots = slot ∷ slots

-- The slots that the patterns name; a `HashSet` is the list of what was inserted.
unfoldable pub seen : ClosedSpace → List Pattern → List ℕ
unfolding cons_some
seen space [] = []
seen space (pattern ∷ patterns) = cons_some (pattern_slot space pattern) (seen space patterns)

unfoldable pub contains : List ℕ → ℕ → Bool
contains slots slot = any (λ s. s == slot) slots

-- `(0..count).all`.
unfoldable pub all_below : ℕ → (ℕ → Bool) → Bool
all_below zero p = true
all_below (suc n) p = p n && all_below n p

unfoldable pub covered_by : ClosedSpace → List Pattern → Bool
unfolding contains all_below
covered_by space patterns = all_below space.count (contains (seen space patterns))
