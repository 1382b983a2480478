-- ===== src/Parser/Cycles/Layouts.antt =====
-- What the containment check of src/parser/cycles.rs says of a module's layouts.
use aspect.Prelude.{suc, ◌≡◌, ◌↔◌, refl, subst, ◌∙◌, some, false, List, [], ◌∷◌, arith, length, ok}
use mathlib.Core.List.{Memᴰ}
use mathlib.Core.List.Memᴰ
use aspect.Prelude.Checked.{returns}
use aspect.Symbol.Module.{ModuleSymbols}
use aspect.Symbol.Module.Reached.{Reached}
use aspect.Lexer.LangType.{LangType}
use aspect.Parser.Cycles.Stored.{Stores, targets_iff}
use aspect.Parser.Cycles.{
  targets, Node, edges, color, color_in, each, visit, roots, start, find_byvalue_cycles,
}
use aspect.Parser.Cycles.Walks.{Edge, edge, Walk, one, more}
use aspect.Parser.Cycles.Sound.{OnCycles, Visits-OnCycles}
use aspect.Parser.Cycles.Complete.{Explored, Visits-Explored}
use aspect.Parser.Cycles.Ends.{Ran, roots-Ran}
use aspect.Parser.Cycles.Nodes.{root-known, known-root}

-- Every id stored by value in a layout indexes a layout of its kind, as the proof ids promise.
pub record IsClosed (m : ModuleSymbols) : Type 0 where
  pub known : (a b : Node) → Edge m a b → (next : List Node) × (edges m b ≡ returns next)

start-Explored : (m : ModuleSymbols) → Explored m start
unfolding color_in
start-Explored m = record { closed = λ b c h e. cc; acyclic = λ b h w. cc }

no_gray : (x : Node) → color start x ≡ some false → ⊥
unfolding color_in
no_gray x h = cc

module _ (m : ModuleSymbols) (r : Reached m) (closed : IsClosed m) where
  search : Ran m (roots m) (each (visit (suc (length (roots m))) m) start (roots m)) start (roots m)
  search =
      roots-Ran m (roots m)
        (λ a b e. let (next, h) = closed.known a b e in (next, h, known-root m r b next h))
        (roots m) (λ n mem. let (next, h) = root-known m r n mem in (next, h, mem))

  -- The check of a table that the operations build, whose layouts store only known ids by value,
  -- neither panics nor runs out of its fuel, which is one more than the number of layouts.
  pub find_byvalue_cycles-returns : (cyclic : List Node) × (find_byvalue_cycles m ≡ ok cyclic)
  unfolding find_byvalue_cycles
  find_byvalue_cycles-returns = (search.after.cyclic, rw search.returned refl)

  Walk-edges : (a : Node) {b : Node} → Walk m a b → (next : List Node) × (edges m a ≡ returns next)
  Walk-edges a (one (edge next h mem)) = (next, h)
  Walk-edges a (more w e) = Walk-edges a w

  search-OnCycles : OnCycles m search.after
  search-OnCycles =
      Visits-OnCycles m search.visits (λ g n gray mem. absurd (no_gray g gray))
        (λ c mem. absurd (Memᴰ.not-nil mem))

  nothing_reported : search.after.cyclic ≡ [] → (n : Node) → Walk m n n → ⊥
  nothing_reported e n w =
      let (explored, black) = Visits-Explored m search.visits e (start-Explored m) in
      let (next, h) = Walk-edges n w in explored.acyclic n (black n (known-root m r n next h)) w

  no_members : (ns : List Node) → ((n : Node) → Memᴰ n ns → ⊥) → ns ≡ []
  no_members [] h = refl
  no_members (n ∷ ns) h = absurd (h n (Memᴰ.head refl))

  -- Each layout that the check of such a table reports contains itself by value, over one field or
  -- a chain of them; and the check reports nothing exactly where no layout contains itself. A field
  -- stores a layout by value where its type is that struct or sum itself, and no pointer to it.
  pub find_byvalue_cycles-exact :
      (cyclic : List Node)
      → find_byvalue_cycles m ≡ ok cyclic
      → ((c : Node) → Memᴰ c cyclic → Walk m c c)
        × ((cyclic ≡ []) ↔ ((n : Node) → Walk m n n → ⊥))
        × ((types : List LangType) (c : Node)
            → Memᴰ c (targets types) ↔ ((ty : LangType) × Memᴰ ty types × Stores ty c))
  unfolding find_byvalue_cycles
  find_byvalue_cycles-exact cyclic h =
      let same : search.after.cyclic ≡ cyclic = ground (arith, search.returned, h) in
      let sound : (c : Node) → Memᴰ c cyclic → Walk m c c =
        subst (λ ns. (c : Node) → Memᴰ c ns → Walk m c c) same search-OnCycles in
      (
        sound,
        (
          λ e. nothing_reported (same ∙ e),
          λ acyclic. no_members cyclic (λ n mem. acyclic n (sound n mem)),
        ),
        targets_iff,
      )
