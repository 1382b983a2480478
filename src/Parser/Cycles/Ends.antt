-- ===== src/Parser/Cycles/Ends.antt =====
-- The search of src/parser/cycles.rs ends: each entry colors one of the module's nodes.
use aspect.Prelude.{
  ℕ, zero, suc, ◌+◌, ◌≤◌, ◌<◌, ◌≡◌, refl, ap, ◌∙◌, inl, inr, Bool, true, false, Option, none, some,
  List, [], ◌∷◌, arith, length, Option-cases, Result, ok,
}
use mathlib.Core.List.{Memᴰ}
use mathlib.Core.List.Memᴰ
use aspect.Prelude.Checked.{returns}
use aspect.Symbol.Module.{ModuleSymbols}
use aspect.Parser.Cycles.{
  Node, edges, State, color, colored, reported, Panic, or_panic, each, visit_colored, visit, start,
}
use aspect.Parser.Cycles.Walks.{Edge, edge, Visits, colored-cases, reported-color}

-- One for a node without a color.
abbrev uncolored : Option Bool → ℕ
uncolored none = 1
uncolored (some black) = 0

abbrev pub unseen : List Node → State → ℕ
unseen [] s = 0
unseen (n ∷ ns) s = uncolored (color s n) + unseen ns s

same-unseen :
    (ns : List Node) (s t : State)
    → ((n : Node) → color t n ≡ color s n)
    → unseen ns t ≡ unseen ns s
same-unseen [] s t h = refl
same-unseen (n ∷ ns) s t h = rw (h n, same-unseen ns s t h) refl

colored-unseen_le :
    (ns : List Node) (s : State) (n : Node) (black : Bool)
    → unseen ns (colored s n black) ≤ unseen ns s
colored-unseen_le [] s n black = omega arith
colored-unseen_le (x ∷ ns) s n black =
    ground (arith, colored-cases s n x black, colored-unseen_le ns s n black)

colored-unseen_lt :
    (ns : List Node) (s : State) (n : Node) (black : Bool)
    → Memᴰ n ns
    → color s n ≡ none
    → unseen ns (colored s n black) < unseen ns s
colored-unseen_lt [] s n black mem fresh = absurd (Memᴰ.not-nil mem)
colored-unseen_lt (x ∷ ns) s n black mem fresh = elim (Memᴰ.cases_cons mem) [
  | inl same ↦ ground (
    arith,
    colored-cases s n x black,
    colored-unseen_le ns s n black,
    same,
    fresh,
    ap (color s) same,
  )
  | inr later ↦
      ground (arith, colored-cases s n x black, colored-unseen_lt ns s n black later fresh)
]

unseen-start : (ns : List Node) → unseen ns start ≤ length ns
unseen-start [] = omega arith
unseen-start (n ∷ ns) = ground (arith, unseen-start ns)

module _ (m : ModuleSymbols) (universe : List Node) where
  -- A node that the search can enter.
  abbrev pub IsNode : Node → Type 0
  IsNode n = (next : List Node) × (edges m n ≡ returns next) × Memᴰ n universe

  -- A node's visit returned, and stands for one more step of a run.
  record Visited (run : Result Panic State) (s : State) (n : Node) : Type 0 where
    after : State
    returned : run ≡ ok after
    goes_on : (ns : List Node) (t : State) → Visits m after ns t → Visits m s (n ∷ ns) t
    fewer : unseen universe after ≤ unseen universe s

  pub record Ran (run : Result Panic State) (s : State) (ns : List Node) : Type 0 where
    pub after : State
    pub returned : run ≡ ok after
    pub visits : Visits m s ns after
    pub fewer : unseen universe after ≤ unseen universe s

  each-Ran :
      (body : State → Node → Result Panic State) (fuel : ℕ)
      → ((s : State) (n : Node) → IsNode n → unseen universe s < fuel → Visited (body s n) s n)
      → (s : State) (ns : List Node) → ((n : Node) → Memᴰ n ns → IsNode n)
      → unseen universe s < fuel
      → Ran (each body s ns) s ns
  unfolding each
  each-Ran body fuel h s [] nodes enough = record {
    after = s;
    returned = refl;
    visits = Visits.done;
    fewer = omega arith;
  }
  each-Ran body fuel h s (n ∷ ns) nodes enough =
      let first = h s n (nodes n (Memᴰ.head refl)) enough in
      let rest =
        each-Ran body fuel h first.after ns (λ x mem. nodes x (Memᴰ.tail mem))
          (omega (arith, first.fewer)) in
      record {
        after = rest.after;
        returned = rw (first.returned) rest.returned;
        visits = first.goes_on ns rest.after rest.visits;
        fewer = omega (arith, first.fewer, rest.fewer);
      }

  visit_colored-none :
      (inner : State → Node → Result Panic State) (s : State) (n : Node) (after : State)
      (next : List Node)
      → edges m n ≡ returns next
      → each inner (colored s n false) next ≡ ok after
      → visit_colored inner m s n none ≡ ok (colored after n true)
  unfolding visit_colored or_panic
  visit_colored-none inner s n after next e h = rw (e, h) refl

  module _ (targets_known : (a b : Node) → Edge m a b → IsNode b) where
    visit-Visited :
        (fuel : ℕ) (s : State) (n : Node)
        → IsNode n
        → unseen universe s < fuel
        → Visited (visit fuel m s n) s n
    unfolding visit visit_colored
    visit-Visited zero s n node enough = absurd (omega arith)
    visit-Visited (suc fuel) s n (next, e, mem) enough = elim (Option-cases (color s n)) [
      | inl fresh ↦
          let drop = colored-unseen_lt universe s n false mem fresh in
          let inner =
            each-Ran (visit fuel m) fuel (visit-Visited fuel) (colored s n false) next
              (λ x to. targets_known n x (edge next e to)) (omega (arith, drop)) in
          record {
            after = colored inner.after n true;
            returned =
                ap (visit_colored (visit fuel m) m s n) fresh
                ∙ visit_colored-none (visit fuel m) s n inner.after next e inner.returned;
            goes_on = λ ns t v. Visits.enters next fresh e inner.visits v;
            fewer = omega (arith, inner.fewer, colored-unseen_le universe inner.after n true);
          }
      | inr (false, gray) ↦ record {
        after = reported s n;
        returned = rw gray refl;
        goes_on = λ ns t v. Visits.closes gray v;
        fewer = omega (arith, same-unseen universe s (reported s n) (reported-color s n));
      }
      | inr (true, black) ↦ record {
        after = s;
        returned = rw black refl;
        goes_on = λ ns t v. Visits.known black v;
        fewer = omega arith;
      }
    ]

    pub roots-Ran :
        (ns : List Node)
        → ((n : Node) → Memᴰ n ns → IsNode n)
        → Ran (each (visit (suc (length universe)) m) start ns) start ns
    roots-Ran ns nodes =
        each-Ran (visit (suc (length universe)) m) (suc (length universe))
          (visit-Visited (suc (length universe))) start ns nodes
          (omega (arith, unseen-start universe))
