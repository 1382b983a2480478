-- ===== src/Parser/Cycles/Walks.antt =====
-- The graph that src/parser/cycles.rs searches, and a run of its search as a relation.
use aspect.Prelude.{
  ◌≡◌, ◌≢◌, ◌↔◌, ◌⊎◌, refl, sym, subst, ◌∙◌, inl, inr, Bool, true, false, none, some, List, [], ◌∷◌,
  ◌++◌, arith, if◌then◌else◌, Bool-cases,
}
use mathlib.Core.List.{Memᴰ}
use mathlib.Core.List.Memᴰ
use aspect.Prelude.Checked.{returns, returns-inj}
use aspect.Symbol.Module.{ModuleSymbols}
use aspect.Parser.Cycles.{Node, node_eq, edges, State, color_in, color, colored, contains, reported}

pub node_eq_iff : (a b : Node) → (node_eq a b ≡ true) ↔ (a ≡ b)
unfolding node_eq
node_eq_iff a b = ground arith

-- `b` is stored in `a` by value.
pub data Edge (m : ModuleSymbols) (a b : Node) : Type 0 where
  edge : (next : List Node) → edges m a ≡ returns next → Memᴰ b next → Edge m a b

-- One edge or more.
pub data Walk (m : ModuleSymbols) (a : Node) : Node → Type 0 where
  one : {b : Node} → Edge m a b → Walk m a b
  more : {b c : Node} → Walk m a b → Edge m b c → Walk m a c

pub Edge-next :
    (m : ModuleSymbols) (a b : Node) (next : List Node)
    → edges m a ≡ returns next
    → Edge m a b
    → Memᴰ b next
Edge-next m a b next h (edge other e mem) = subst (Memᴰ b) (returns-inj (sym e ∙ h)) mem

-- What the search makes of a state, node after node.
pub data Visits (m : ModuleSymbols) : State → List Node → State → Type 0 where
  done : {s : State} → Visits m s [] s
  closes :
      {s t : State} {n : Node} {ns : List Node}
      → color s n ≡ some false
      → Visits m (reported s n) ns t
      → Visits m s (n ∷ ns) t
  known :
      {s t : State} {n : Node} {ns : List Node}
      → color s n ≡ some true
      → Visits m s ns t
      → Visits m s (n ∷ ns) t
  enters :
      {s u t : State} {n : Node} {ns : List Node} (next : List Node)
      → color s n ≡ none
      → edges m n ≡ returns next
      → Visits m (colored s n false) next u
      → Visits m (colored u n true) ns t
      → Visits m s (n ∷ ns) t

pub colored-color :
    (s : State) (n x : Node) (black : Bool)
    → color (colored s n black) x ≡ (if node_eq n x then some black else color s x)
unfolding color_in
colored-color s n x black = refl

-- A node's color after one more insertion.
pub colored-cases :
    (s : State) (n x : Node) (black : Bool)
    → ((n ≡ x) × (color (colored s n black) x ≡ some black))
      ⊎ ((n ≢ x) × (color (colored s n black) x ≡ color s x))
colored-cases s n x black = elim (Bool-cases (node_eq n x)) [
  | inl e ↦ inl ((node_eq_iff n x).0 e, colored-color s n x black ∙ rw e refl)
  | inr e ↦ inr (λ same. ground (arith, node_eq_iff n x), colored-color s n x black ∙ rw e refl)
]

pub reported-color : (s : State) (n x : Node) → color (reported s n) x ≡ color s x
unfolding reported
reported-color s n x = ground arith

contains-Memᴰ : (ns : List Node) (n : Node) → contains ns n ≡ true → Memᴰ n ns
unfolding contains
contains-Memᴰ [] n h = cc
contains-Memᴰ (x ∷ ns) n h = elim (Bool-cases (node_eq x n)) [
  | inl e ↦ Memᴰ.head (sym ((node_eq_iff x n).0 e))
  | inr e ↦ Memᴰ.tail (contains-Memᴰ ns n (ground (arith, e, h)))
]

-- Reporting a node adds that node, and nothing else.
pub reported-has : (s : State) (n : Node) → Memᴰ n (reported s n).cyclic
unfolding reported
reported-has s n = elim (Bool-cases (contains s.cyclic n)) [
  | inl e ↦ rw e (contains-Memᴰ s.cyclic n e)
  | inr e ↦ rw e (Memᴰ.append_right s.cyclic (Memᴰ.head refl))
]

pub reported-cases :
    (s : State) (n x : Node) → Memᴰ x (reported s n).cyclic → Memᴰ x s.cyclic ⊎ (x ≡ n)
unfolding reported
reported-cases s n x h = elim (Bool-cases (contains s.cyclic n)) [
  | inl e ↦ inl (rw e at h)
  | inr e ↦
      let grown : Memᴰ x (s.cyclic ++ n ∷ []) = (rw e at h) in
      elim (Memᴰ.append_cases s.cyclic grown) [
        | inl old ↦ inl old
        | inr new ↦ inr (Memᴰ.eq_of_singleton new)
      ]
]

pub reported-keeps : (s : State) (n x : Node) → Memᴰ x s.cyclic → Memᴰ x (reported s n).cyclic
unfolding reported
reported-keeps s n x h = elim (Bool-cases (contains s.cyclic n)) [
  | inl e ↦ rw e h
  | inr e ↦ rw e (Memᴰ.append_left (n ∷ []) h)
]

-- The nodes on the path are gray again when the search is back at them, no more and no fewer.
pub Visits-gray :
    (m : ModuleSymbols) {s t : State} {ns : List Node} (x : Node)
    → Visits m s ns t
    → (color t x ≡ some false) ↔ (color s x ≡ some false)
Visits-gray m x (done) = (λ h. h, λ h. h)
Visits-gray m x (closes {s = s} {n = n} gray rest) =
    let (back, forth) = Visits-gray m x rest in
    (λ h. sym (reported-color s n x) ∙ back h, λ h. forth (reported-color s n x ∙ h))
Visits-gray m x (known black rest) = Visits-gray m x rest
Visits-gray m x (enters {s = s} {u = u} {n = n} next fresh e inner rest) =
    let inside = Visits-gray m x inner in
    let later = Visits-gray m x rest in
    ground (arith, inside, later, colored-cases s n x false, colored-cases u n x true)

pub Visits-black :
    (m : ModuleSymbols) {s t : State} {ns : List Node} (x : Node)
    → Visits m s ns t
    → color s x ≡ some true
    → color t x ≡ some true
Visits-black m x (done) h = h
Visits-black m x (closes {s = s} {n = n} gray rest) h =
    Visits-black m x rest (reported-color s n x ∙ h)
Visits-black m x (known black rest) h = Visits-black m x rest h
Visits-black m x (enters {s = s} {u = u} {n = n} next fresh e inner rest) h =
    Visits-black m x rest (
      ground
        (arith, Visits-black m x inner, colored-cases s n x false, colored-cases u n x true, h))

-- What was reported stays reported.
pub Visits-keeps :
    (m : ModuleSymbols) {s t : State} {ns : List Node} (x : Node)
    → Visits m s ns t
    → Memᴰ x s.cyclic
    → Memᴰ x t.cyclic
Visits-keeps m x (done) h = h
Visits-keeps m x (closes {s = s} {n = n} gray rest) h =
    Visits-keeps m x rest (reported-keeps s n x h)
Visits-keeps m x (known black rest) h = Visits-keeps m x rest h
Visits-keeps m x (enters next fresh e inner rest) h =
    Visits-keeps m x rest (Visits-keeps m x inner h)
