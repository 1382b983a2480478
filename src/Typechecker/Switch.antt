-- ===== src/Typechecker/Switch.antt =====
-- What a `switch` must cover: src/typechecker/checker/switch.rs. `LangType` stands for the text that
-- the source makes of a type.
pub mod Stances
use aspect.Prelude.{
  ℕ, Bool, true, false, not, ◌&&◌, Option, none, some, List, [], ◌∷◌, ltb, if◌then◌else◌, Str,
}
use aspect.Prelude.Int.{ℤ}
use aspect.Prelude.Checked.{Checked, returns, ◌>>!◌}
use aspect.Lexer.Position.{Position}
use aspect.Lexer.LangType.{LangType}
use aspect.Symbol.Module.{ModuleSymbols}
use aspect.Variants.{
  ClosedSpace, Pattern, sum_variant, enum_value, bool_literal, integer_literal, other, to_slot,
  cons_some,
}
use aspect.Variants.Space.{
  VariantSpace, closed_space, open_space, unmatchable, closed, missing_label, duplicate_label,
}

-- What the check adds to the errors or the warnings: at most one.
pub data Verdict : Type 0 where
  fine : Verdict
  dead_default : Position → Verdict
  missing_default : LangType → Position → Verdict
  non_exhaustive : Str → Position → Verdict

unfoldable pub slots_of : List ℤ → List ℕ
unfolding to_slot cons_some
slots_of [] = []
slots_of (key ∷ keys) = cons_some (to_slot key) (slots_of keys)

-- What `seen` collects: the value of each pattern that has one.
unfoldable pub pattern_key : Pattern → Option ℤ
pattern_key (sum_variant variant) = some (ℤ.pos variant)
pattern_key (enum_value value) = some value
pattern_key (bool_literal b) = some (ℤ.pos (if b then 1 else 0))
pattern_key (integer_literal value) = some value
pattern_key other = none

unfoldable pub cons_key : Option ℤ → List ℤ → List ℤ
cons_key none keys = keys
cons_key (some key) keys = key ∷ keys

unfoldable pub keys_of : List Pattern → List ℤ
unfolding pattern_key cons_key
keys_of [] = []
keys_of (pattern ∷ patterns) = cons_key (pattern_key pattern) (keys_of patterns)

unfoldable pub check_closed_stances :
    ModuleSymbols → ClosedSpace → Bool → Bool → List ℕ → Position → Checked Verdict
unfolding missing_label
check_closed_stances m space true true slots at = returns (dead_default at)
check_closed_stances m space true false slots at = returns fine
check_closed_stances m space false true slots at = returns fine
check_closed_stances m space false false slots at =
    missing_label m space slots >>! λ missing. returns (non_exhaustive missing at)

unfoldable pub check_switch_exhaustiveness :
    ModuleSymbols → VariantSpace → LangType → Bool → Bool → List ℤ → Position → Checked Verdict
unfolding check_closed_stances slots_of
check_switch_exhaustiveness m open_space ty complete has_default keys at =
    returns (if has_default then fine else missing_default ty at)
check_switch_exhaustiveness m (closed_space space) ty complete has_default keys at =
    check_closed_stances m space complete has_default (slots_of keys) at
check_switch_exhaustiveness m unmatchable ty complete has_default keys at = returns fine

-- What a repeated case is called: the variant, or the value itself.
pub data Duplicate : Type 0 where
  slot_again : Str → Duplicate
  value_again : ℤ → Duplicate

unfoldable pub duplicate_in : ModuleSymbols → Option ClosedSpace → Option ℕ → ℤ → Checked Duplicate
unfolding duplicate_label
duplicate_in m (some space) (some slot) key =
    if ltb slot space.count
    then (duplicate_label m space slot >>! λ label. returns (slot_again label))
    else returns (value_again key)
duplicate_in m _ _ key = returns (value_again key)

unfoldable pub report_duplicate_case : ModuleSymbols → VariantSpace → ℤ → Checked Duplicate
unfolding duplicate_in closed to_slot
report_duplicate_case m space key = duplicate_in m (closed space) (to_slot key) key
