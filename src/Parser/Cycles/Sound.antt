-- ===== src/Parser/Cycles/Sound.antt =====
-- What the search of src/parser/cycles.rs reports.
use aspect.Prelude.{◌≡◌, refl, sym, subst, ◌∙◌, inl, inr, true, false, some, List, ◌∷◌, arith}
use mathlib.Core.List.{Memᴰ}
use aspect.Prelude.Checked.{returns}
use aspect.Symbol.Module.{ModuleSymbols}
use aspect.Parser.Cycles.{Node, edges, State, color, colored, reported}
use aspect.Parser.Cycles.Walks.{
  Edge, edge, Walk, one, more, Visits, done, closes, known, enters, colored-cases, reported-color,
  reported-cases, Visits-gray,
}

-- Every gray node leads to every node that is still to be visited.
abbrev Leads : ModuleSymbols → State → List Node → Type 0
Leads m s ns = (g n : Node) → color s g ≡ some false → Memᴰ n ns → Walk m g n

-- Every reported node lies on a cycle.
abbrev pub OnCycles : ModuleSymbols → State → Type 0
OnCycles m s = (c : Node) → Memᴰ c s.cyclic → Walk m c c

reported-OnCycles :
    (m : ModuleSymbols) (s : State) (n : Node)
    → Walk m n n
    → OnCycles m s
    → OnCycles m (reported s n)
reported-OnCycles m s n w h c mem = elim (reported-cases s n c mem) [
  | inl old ↦ h c old
  | inr same ↦ subst (λ x. Walk m x x) (sym same) w
]

entered-Leads :
    (m : ModuleSymbols) (s : State) (n : Node) (ns next : List Node)
    → edges m n ≡ returns next
    → Leads m s (n ∷ ns)
    → Leads m (colored s n false) next
entered-Leads m s n ns next e h g x gray mem = elim (colored-cases s n g false) [
  | inl (same, c) ↦ one (subst (λ y. Edge m y x) same (edge next e mem))
  | inr (other, c) ↦ more (h g n (sym c ∙ gray) (Memᴰ.head refl)) (edge next e mem)
]

left-Leads :
    (m : ModuleSymbols) (s u : State) (n : Node) (ns next : List Node)
    → Visits m (colored s n false) next u
    → Leads m s (n ∷ ns)
    → Leads m (colored u n true) ns
left-Leads m s u n ns next inner h g x gray mem =
    h g x
      (ground
        (arith, colored-cases u n g true, colored-cases s n g false, Visits-gray m g inner, gray))
      (Memᴰ.tail mem)

pub Visits-OnCycles :
    (m : ModuleSymbols) {s t : State} {ns : List Node}
    → Visits m s ns t
    → Leads m s ns
    → OnCycles m s
    → OnCycles m t
Visits-OnCycles m (done) h c = c
Visits-OnCycles m (closes {s = s} {n = n} gray rest) h c =
    Visits-OnCycles m rest (λ g x e mem. h g x (sym (reported-color s n g) ∙ e) (Memᴰ.tail mem))
      (reported-OnCycles m s n (h n n gray (Memᴰ.head refl)) c)
Visits-OnCycles m (known black rest) h c =
    Visits-OnCycles m rest (λ g x e mem. h g x e (Memᴰ.tail mem)) c
Visits-OnCycles m (enters {s = s} {u = u} {n = n} {ns = ns} next fresh e inner rest) h c =
    Visits-OnCycles m rest (left-Leads m s u n ns next inner h)
      (Visits-OnCycles m inner (entered-Leads m s n ns next e h) c)
