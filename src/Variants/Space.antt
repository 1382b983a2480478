-- ===== src/Variants/Space.antt =====
-- What a scrutinee's type can be matched against, and how its variants are spelled: `VariantSpace`
-- and the labels of src/variants.rs.
use aspect.Prelude.{
  ℕ, zero, suc, Bool, false, ◌||◌, Option, none, some, List, [], ◌∷◌, ◌++◌, if◌then◌else◌, ltb,
  length, get_elem?, ◌==◌, Str, codes,
}
use aspect.Prelude.Checked.{Checked, returns, ◌>>!◌}
use aspect.Lexer.LangType
use aspect.Lexer.LangType.{TypeBase, LangType, is_array}
use aspect.Symbol.Module.{ModuleSymbols, SumVariant}
use aspect.Symbol.Module.Bodies.{enum_at, sum_at}
use aspect.Variants.{ClosedKind, ClosedSpace, Pattern, contains, covered_by}

pub data VariantSpace : Type 0 where
  closed_space : ClosedSpace → VariantSpace
  open_space unmatchable : VariantSpace

unfoldable pub sum_base : TypeBase → Option ℕ
sum_base (LangType.sum id) = some id
sum_base _ = none

unfoldable pub sum_scrutinee : LangType → Option ℕ
unfolding sum_base is_array
sum_scrutinee ty = if is_array ty || ltb 1 ty.pointer_depth then none else sum_base ty.base

unfoldable pub closed_as : ClosedKind → ℕ → VariantSpace
closed_as kind count = closed_space (record { kind = kind; count = count })

unfoldable pub of_base : ModuleSymbols → TypeBase → Checked VariantSpace
unfolding closed_as enum_at
of_base m LangType.s_int = returns open_space
of_base m LangType.u_int = returns open_space
of_base m LangType.bool = returns (closed_as ClosedKind.bool 2)
of_base m (LangType.enum id) =
    enum_at m id >>! λ body. returns (closed_as (ClosedKind.enum id) (length body.variants))
of_base m _ = returns unmatchable

unfoldable pub of_scrutinee : ModuleSymbols → LangType → Option ℕ → Checked VariantSpace
unfolding closed_as sum_at of_base is_array
of_scrutinee m ty (some id) =
    sum_at m id >>! λ body. returns (closed_as (ClosedKind.sum id) (length body.variants))
of_scrutinee m ty none =
    if is_array ty || ltb 0 ty.pointer_depth then returns unmatchable else of_base m ty.base

unfoldable pub of : ModuleSymbols → LangType → Checked VariantSpace
unfolding of_scrutinee sum_scrutinee
of m ty = of_scrutinee m ty (sum_scrutinee ty)

unfoldable pub closed : VariantSpace → Option ClosedSpace
closed (closed_space space) = some space
closed _ = none

-- `'Circle'`.
unfoldable pub quoted : Option Str → Str
quoted none = codes "'?'"
quoted (some name) = codes "'" ++ (name ++ codes "'")

unfoldable pub name_of : Option SumVariant → Option Str
name_of none = none
name_of (some variant) = some variant.name

unfoldable pub label_in : ModuleSymbols → ℕ → ClosedKind → Checked Str
unfolding enum_at sum_at quoted name_of
label_in m slot (ClosedKind.enum id) =
    enum_at m id >>! λ body. returns (quoted (get_elem? body.variants slot))
label_in m slot (ClosedKind.sum id) =
    sum_at m id >>! λ body. returns (quoted (name_of (get_elem? body.variants slot)))
label_in m slot ClosedKind.bool = returns (if slot == 1 then codes "`true`" else codes "`false`")

unfoldable pub slot_label : ModuleSymbols → ClosedSpace → ℕ → Checked Str
unfolding label_in
slot_label m space slot = label_in m slot space.kind

unfoldable pub duplicate_text : ClosedKind → Str → Str
duplicate_text ClosedKind.bool label = label
duplicate_text _ label = codes "variant " ++ label

unfoldable pub duplicate_label : ModuleSymbols → ClosedSpace → ℕ → Checked Str
unfolding slot_label duplicate_text
duplicate_label m space slot =
    slot_label m space slot >>! λ label. returns (duplicate_text space.kind label)

-- The slots of `slot..slot + left` that are not seen, in order.
unfoldable pub missing_from : ℕ → ℕ → List ℕ → List ℕ
unfolding contains
missing_from zero slot slots = []
missing_from (suc left) slot slots =
    let rest = missing_from left (suc slot) slots in
    if contains slots slot then rest else slot ∷ rest

unfoldable pub slot_labels : ModuleSymbols → ClosedSpace → List ℕ → Checked (List Str)
unfolding slot_label
slot_labels m space [] = returns []
slot_labels m space (slot ∷ slots) = slot_label m space slot >>! λ label.
    slot_labels m space slots >>! λ labels. returns (label ∷ labels)

-- `join(", ")`.
unfoldable pub join_from : Str → List Str → Str
join_from text [] = text
join_from text (label ∷ labels) = text ++ (codes ", " ++ join_from label labels)

unfoldable pub join : List Str → Str
unfolding join_from
join [] = []
join (label ∷ labels) = join_from label labels

unfoldable pub missing_text : ClosedKind → Str → Str
missing_text ClosedKind.bool labels = labels
missing_text _ labels = codes "variants " ++ labels

unfoldable pub missing_label : ModuleSymbols → ClosedSpace → List ℕ → Checked Str
unfolding missing_from slot_labels join missing_text
missing_label m space slots = slot_labels m space (missing_from space.count 0 slots) >>! λ labels.
    returns (missing_text space.kind (join labels))

unfoldable pub covered_if : Option ClosedSpace → List Pattern → Bool
unfolding covered_by
covered_if none patterns = false
covered_if (some space) patterns = covered_by space patterns

-- The parser's `switch_coverage_complete`, with the patterns of all arms in order.
unfoldable pub switch_coverage_complete : ModuleSymbols → LangType → List Pattern → Checked Bool
unfolding of closed covered_if
switch_coverage_complete m ty patterns =
    of m ty >>! λ space. returns (covered_if (closed space) patterns)
