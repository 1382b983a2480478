-- ===== src/Tests/Layouts.antt =====
-- The layout check and the visibility gate at concrete inputs.
use aspect.Prelude.{
  zero, suc, ◌≡◌, ◌↔◌, ◌⊎◌, refl, sym, ap, subst, true, List, [], ◌∷◌, codes, ok, err,
}
use mathlib.Core.List.{Memᴰ}
use mathlib.Core.List.Memᴰ
use aspect.Prelude.Checked.{returns, returns-inj}
use aspect.Lexer.Position.{Position}
use aspect.Symbol.Module.{private, public, TypeKind, TypeDef, as_struct_body, as_sum_body, noun}
use aspect.Symbol.Module.Registry.{structs, sums, of_kind, is_struct_kind, is_sum_kind, type_def}
use aspect.Symbol.Module.Bodies.{struct_at, sum_at}
use aspect.Parser.Cycles.{
  Node, struct, sum, edges, targets, by_value, base_node, cons_some, fields_types,
  find_byvalue_cycles, roots, each, visit, visit_colored, color_in, reported, contains, or_panic,
  node_eq,
}
use aspect.Lexer.LangType.{LangType}
use aspect.Parser.Cycles.Stored.{Stores}
use aspect.Parser.Cycles.Walks.{Edge, edge, Walk}
use aspect.Parser.Cycles.Layouts.{IsClosed, find_byvalue_cycles-exact, find_byvalue_cycles-returns}
use aspect.Parser.Error.{not_imported, private_symbol}
use aspect.Parser.State.{Parser}
use aspect.Parser.Visibility.{
  module_of_file, check_name_visibility, check_type_visibility, private_type_error,
}
use aspect.Parser.Visibility.Gate.{MayRefer, Open, check_name_visibility-cases}
use aspect.Parser.Visibility.Types.{OpenType, check_type_visibility-cases}
use aspect.Tests.Symbols.{filled_in, filled_in-Reached, here, node_fields}

-- `Node` stores itself.
node_edges : edges filled_in (struct 0) ≡ returns (struct 0 ∷ [])
unfolding edges targets by_value base_node cons_some fields_types struct_at as_struct_body
node_edges = refl

target_known :
    (a b : Node) (next : List Node)
    → edges filled_in a ≡ returns next
    → Memᴰ b next
    → (more : List Node) × (edges filled_in b ≡ returns more)
unfolding edges targets by_value base_node cons_some fields_types struct_at sum_at as_struct_body
    as_sum_body
target_known (struct zero) b next h mem =
    let itself = Memᴰ.eq_of_singleton (subst (Memᴰ b) (sym (returns-inj h)) mem) in
    (struct 0 ∷ [], ap (edges filled_in) itself)
target_known (struct (suc i)) b next h mem = cc
target_known (sum zero) b next h mem = cc
target_known (sum (suc i)) b next h mem = cc

filled_in-IsClosed : IsClosed filled_in
filled_in-IsClosed = record { known = λ a b e. known_target a b e }
  where
    known_target :
        (a b : Node) → Edge filled_in a b → (more : List Node) × (edges filled_in b ≡ returns more)
    known_target a b (edge next h mem) = target_known a b next h mem

node_reported : find_byvalue_cycles filled_in ≡ ok (struct 0 ∷ [])
unfolding find_byvalue_cycles roots structs sums of_kind is_struct_kind is_sum_kind each visit
    visit_colored color_in node_eq edges targets by_value base_node cons_some fields_types struct_at
    as_struct_body reported contains or_panic
node_reported = refl

find_byvalue_cycles-exact_example :
    ((c : Node) → Memᴰ c (struct 0 ∷ []) → Walk filled_in c c)
    × ((struct 0 ∷ [] ≡ []) ↔ ((n : Node) → Walk filled_in n n → ⊥))
    × ((types : List LangType) (c : Node)
        → Memᴰ c (targets types) ↔ ((ty : LangType) × Memᴰ ty types × Stores ty c))
find_byvalue_cycles-exact_example =
    find_byvalue_cycles-exact filled_in filled_in-Reached filled_in-IsClosed (struct 0 ∷ [])
      node_reported

find_byvalue_cycles-returns_example :
    (cyclic : List Node) × (find_byvalue_cycles filled_in ≡ ok cyclic)
find_byvalue_cycles-returns_example =
    find_byvalue_cycles-returns filled_in filled_in-Reached filled_in-IsClosed

-- File 0 is of the root module, which imports `mid`; file 1 is of `mid`.
abbrev pub gate : Parser (Unit {0})
gate = record {
  tokens = [];
  current = 0;
  symbol_table = record { var_scopes = record { scopes = [] ∷ [] } };
  module_symbols = filled_in;
  string_literals = [];
  errors = [];
  pending_bodies = [];
  alias_prescan_sites = [];
  file_modules = [] ∷ codes "mid" ∷ [];
  module_imports = ([], codes "mid" ∷ []) ∷ [];
  global_vis = [];
}

abbrev pub site : Position
site = record { line = 3; column = 7; file_id = 0 }

check_name_visibility-cases_example :
    MayRefer gate 0 1
      × Open gate (codes "f") private 0 1
      × (check_name_visibility gate (codes "function") (codes "f") 1 private site ≡ ok tt)
    ⊎ (MayRefer gate 0 1 → ⊥)
      × (check_name_visibility gate (codes "function") (codes "f") 1 private site
          ≡ err (
              not_imported
                (codes "function")
                (codes "f")
                (module_of_file gate 1)
                (module_of_file gate 0)
                site))
    ⊎ MayRefer gate 0 1
      × (Open gate (codes "f") private 0 1 → ⊥)
      × (check_name_visibility gate (codes "function") (codes "f") 1 private site
          ≡ err (
              private_symbol
                (codes "function")
                (codes "f")
                (module_of_file gate 1)
                (module_of_file gate 0)
                site))
check_name_visibility-cases_example =
    check_name_visibility-cases gate (codes "function") (codes "f") 1 private site

abbrev node_def : TypeDef
node_def = record {
  id = 0;
  name = codes "Node";
  file_id = 0;
  vis = public;
  pos = here;
  defined = true;
  kind =
      TypeKind.struct
        (record { fields = node_fields; field_index = (codes "next", 0) ∷ []; methods = [] });
}

node_known : type_def filled_in 0 ≡ returns node_def
unfolding type_def
node_known = refl

check_type_visibility-cases_example :
    MayRefer gate 0 0
      × OpenType gate node_def 0
      × (check_type_visibility gate 0 site ≡ returns (ok tt))
    ⊎ (MayRefer gate 0 0 → ⊥)
      × (check_type_visibility gate 0 site
          ≡ returns (
              err (
                not_imported
                  (noun node_def.kind)
                  (codes "Node")
                  (module_of_file gate 0)
                  (module_of_file gate 0)
                  site)))
    ⊎ MayRefer gate 0 0
      × (OpenType gate node_def 0 → ⊥)
      × (check_type_visibility gate 0 site ≡ returns (err (private_type_error gate node_def site)))
check_type_visibility-cases_example = check_type_visibility-cases gate 0 node_def site node_known
