-- ===== src/Tests/Switches.antt =====
-- What a switch covers, at concrete inputs.
use aspect.Prelude.{◌≡◌, ◌⊎◌, refl, true, false, ◌&&◌, List, [], ◌∷◌, if◌then◌else◌, codes}
use aspect.Prelude.Int.{ℤ}
use aspect.Prelude.Checked.{returns}
use aspect.Lexer.LangType
use aspect.Lexer.LangType.{LangType, is_array, plain}
use aspect.Variants.{
  ClosedKind, ClosedSpace, Pattern, bool_literal, covered_by, all_below, contains, seen,
  pattern_slot, slot_in, cons_some, to_slot,
}
use aspect.Variants.Space
use aspect.Variants.Space.{
  closed_space, sum_scrutinee, sum_base, of_scrutinee, of_base, closed_as, closed, covered_if,
  switch_coverage_complete, missing_label, missing_from, slot_labels, slot_label, label_in, join,
  join_from, missing_text, duplicate_label, duplicate_text,
}
use aspect.Typechecker.Switch.{
  non_exhaustive, dead_default, fine, keys_of, cons_key, pattern_key, slots_of, slot_again,
  duplicate_in, report_duplicate_case, check_switch_exhaustiveness, check_closed_stances,
}
use aspect.Typechecker.Switch.Stances.{Handled, bool_of, Refuses, check_switch_exhaustiveness-cases}
use aspect.Tests.Symbols.{filled_in, here}

abbrev truth : LangType
truth = plain LangType.bool 1 0

abbrev booleans : ClosedSpace
booleans = record { kind = ClosedKind.bool; count = 2 }

abbrev only_true : List Pattern
only_true = bool_literal true ∷ bool_literal true ∷ []

truth-of : Space.of filled_in truth ≡ returns (closed_space booleans)
unfolding Space.of sum_scrutinee sum_base is_array of_scrutinee of_base closed_as plain
truth-of = refl

not_covered : switch_coverage_complete filled_in truth only_true ≡ returns false
unfolding switch_coverage_complete Space.of sum_scrutinee sum_base is_array of_scrutinee of_base
    closed_as closed covered_if covered_by all_below contains seen pattern_slot slot_in cons_some
    plain
not_covered = refl

false_missing :
    check_switch_exhaustiveness filled_in
      (closed_space booleans)
      truth
      false
      false
      (keys_of only_true)
      here
    ≡ returns (non_exhaustive (codes "`false`") here)
unfolding check_switch_exhaustiveness check_closed_stances keys_of cons_key pattern_key slots_of
    to_slot cons_some missing_label missing_from contains slot_labels slot_label label_in join
    join_from missing_text
false_missing = refl

true_again :
    report_duplicate_case filled_in (closed_space booleans) (ℤ.pos 1)
    ≡ returns (slot_again (codes "`true`"))
unfolding report_duplicate_case duplicate_in closed to_slot duplicate_label slot_label label_in
    duplicate_text
true_again = refl

check_switch_exhaustiveness-cases_example :
    Handled booleans only_true false
      × (check_switch_exhaustiveness filled_in
            (closed_space booleans)
            truth
            false
            false
            (keys_of only_true)
            here
          ≡ returns (if false && false then dead_default here else fine))
    ⊎ (Handled booleans only_true false → ⊥)
      × Refuses filled_in booleans only_true here (
          check_switch_exhaustiveness filled_in
            (closed_space booleans)
            truth
            false
            false
            (keys_of only_true)
            here)
check_switch_exhaustiveness-cases_example =
    check_switch_exhaustiveness-cases filled_in truth booleans only_true false false here truth-of
      (bool_of, (bool_of, tt)) not_covered
