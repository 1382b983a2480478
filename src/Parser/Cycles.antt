-- ===== src/Parser/Cycles.antt =====
-- The by-value containment check of src/parser/cycles.rs. A `HashMap` of colors is the list of its
-- insertions, the newest first; the recursion is on fuel.
pub mod Ends
pub mod Walks
pub mod Sound
pub mod Complete
pub mod Nodes
pub mod Stored
pub mod Layouts
use aspect.Prelude.{
  ℕ, zero, suc, ◌≡◌, Bool, true, false, Option, none, some, List, [], ◌∷◌, ◌++◌, map, if◌then◌else◌,
  length, ◌==◌, any, Result, ok, err, out_of_fuel, ◌>>=◌,
}
use aspect.Prelude.Checked.{Checked, returns, panics, ◌>>!◌}
use aspect.Lexer.LangType.{TypeBase, LangType}
use aspect.Symbol.Module.{FieldInfo, SumVariant, TypeDef, ModuleSymbols}
use aspect.Symbol.Module.Registry.{structs, sums}
use aspect.Symbol.Module.Bodies.{struct_at, sum_at}

pub data Node : Type 0 where
  struct sum : ℕ → Node

-- The derived `==`.
unfoldable pub node_eq : Node → Node → Bool
node_eq (struct i) (struct j) = i == j
node_eq (sum i) (sum j) = i == j
node_eq _ _ = false

unfoldable pub fields_types : List FieldInfo → List LangType
fields_types fields = map (λ f. f.ty) fields

-- `flat_map` over the variants' fields.
unfoldable pub variants_types : List SumVariant → List LangType
variants_types [] = []
variants_types (v ∷ variants) = map (λ (name, ty). ty) v.fields ++ variants_types variants

unfoldable pub base_node : TypeBase → Option Node
base_node (TypeBase.struct id) = some (struct id)
base_node (TypeBase.sum id) = some (sum id)
base_node _ = none

unfoldable pub by_value : LangType → Option Node
unfolding base_node
by_value ty = if ty.pointer_depth == 0 then base_node ty.base else none

unfoldable pub cons_some : Option Node → List Node → List Node
cons_some none nodes = nodes
cons_some (some node) nodes = node ∷ nodes

unfoldable pub targets : List LangType → List Node
unfolding by_value cons_some
targets [] = []
targets (ty ∷ types) = cons_some (by_value ty) (targets types)

unfoldable pub edges : ModuleSymbols → Node → Checked (List Node)
unfolding fields_types variants_types targets
edges m (struct id) = struct_at m id >>! λ body. returns (targets (fields_types body.fields))
edges m (sum id) = sum_at m id >>! λ body. returns (targets (variants_types body.variants))

pub record State : Type 0 where
  pub colors : List (Node × Bool)
  pub cyclic : List Node

-- Absent: not visited; `false`: on the current path; `true`: fully explored.
unfoldable pub color_in : List (Node × Bool) → Node → Option Bool
unfolding node_eq
color_in [] node = none
color_in ((key, black) ∷ colors) node =
    let rest = color_in colors node in if node_eq key node then some black else rest

abbrev pub color : State → Node → Option Bool
color s node = color_in s.colors node

abbrev pub colored : State → Node → Bool → State
colored s node black = record s { colors = (node, black) ∷ s.colors }

unfoldable pub contains : List Node → Node → Bool
contains nodes node = any (λ n. node_eq n node) nodes

-- A node met again on the path.
unfoldable pub reported : State → Node → State
unfolding contains
reported s node = if contains s.cyclic node then s else record s { cyclic = s.cyclic ++ node ∷ [] }

-- An index into the module that panics ends the search.
pub data Panic : Type 0 where
  panic : Panic

unfoldable pub or_panic {ℓ} : {A : Type ℓ} → Checked A → Result Panic A
or_panic panics = err panic
or_panic (returns a) = ok a

-- A `for` loop.
unfoldable pub each : (State → Node → Result Panic State) → State → List Node → Result Panic State
each body s [] = ok s
each body s (node ∷ nodes) = body s node >>= λ after. each body after nodes

-- `visit` after its look at the color, `inner` being the recursive call.
unfoldable pub visit_colored :
    (State → Node → Result Panic State)
    → ModuleSymbols
    → State
    → Node
    → Option Bool
    → Result Panic State
unfolding reported or_panic each edges
visit_colored inner m s node (some false) = ok (reported s node)
visit_colored inner m s node (some true) = ok s
visit_colored inner m s node none = or_panic (edges m node) >>= λ next.
    each inner (colored s node false) next >>= λ after. ok (colored after node true)

unfoldable pub visit : ℕ → ModuleSymbols → State → Node → Result Panic State
unfolding visit_colored color_in
visit zero m s node = out_of_fuel
visit (suc fuel) m s node = visit_colored (visit fuel m) m s node (color s node)

unfoldable pub roots : ModuleSymbols → List Node
unfolding structs sums
roots m = map (λ (id, def). struct id) (structs m) ++ map (λ (id, def). sum id) (sums m)

abbrev pub start : State
start = record { colors = []; cyclic = [] }

-- The fuel is one more than there are nodes.
unfoldable pub find_byvalue_cycles : ModuleSymbols → Result Panic (List Node)
unfolding visit each roots
find_byvalue_cycles m =
    each (visit (suc (length (roots m))) m) start (roots m) >>= λ after. ok after.cyclic
