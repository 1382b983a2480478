-- ===== src/Parser/Cycles/Complete.antt =====
-- What it means that the search of src/parser/cycles.rs reports nothing.
use aspect.Prelude.{
  ◌≡◌, refl, sym, subst, ◌∙◌, inl, inr, Bool, true, false, none, some, List, [], ◌∷◌, arith,
}
use mathlib.Core.List.{Memᴰ}
use mathlib.Core.List.Memᴰ
use aspect.Symbol.Module.{ModuleSymbols}
use aspect.Parser.Cycles.{Node, State, color, colored}
use aspect.Parser.Cycles.Walks.{
  Edge, Edge-next, Walk, one, more, Visits, done, closes, known, enters, colored-cases,
  reported-has, Visits-gray, Visits-black, Visits-keeps,
}

-- The black nodes keep to themselves, and none of them is on a cycle.
pub record Explored (m : ModuleSymbols) (s : State) : Type 0 where
  pub closed : (b c : Node) → color s b ≡ some true → Edge m b c → color s c ≡ some true
  pub acyclic : (b : Node) → color s b ≡ some true → Walk m b b → ⊥

-- From a node whose successors are black only black nodes are reached.
Walk-black :
    (m : ModuleSymbols) (s : State) (a : Node) {b : Node}
    → Explored m s
    → ((c : Node) → Edge m a c → color s c ≡ some true)
    → Walk m a b
    → color s b ≡ some true
Walk-black m s a x h (one e) = h _ e
Walk-black m s a x h (more {b = b} w e) = x.closed b _ (Walk-black m s a x h w) e

same_black-Explored :
    (m : ModuleSymbols) (s t : State)
    → ((n : Node) → color s n ≡ some true → color t n ≡ some true)
    → ((n : Node) → color t n ≡ some true → color s n ≡ some true)
    → Explored m s
    → Explored m t
same_black-Explored m s t forth back x = record {
  closed = λ b c h e. forth c (x.closed b c (back b h) e);
  acyclic = λ b h w. x.acyclic b (back b h) w;
}

entered-Explored :
    (m : ModuleSymbols) (s : State) (n : Node)
    → color s n ≡ none
    → Explored m s
    → Explored m (colored s n false)
entered-Explored m s n fresh =
    same_black-Explored m s (colored s n false)
      (λ y h. ground (arith, colored-cases s n y false, h, fresh))
      (λ y h. ground (arith, colored-cases s n y false, h, fresh))

-- A gray node whose successors are all black may turn black.
left-Explored :
    (m : ModuleSymbols) (u : State) (n : Node)
    → color u n ≡ some false
    → ((c : Node) → Edge m n c → color u c ≡ some true)
    → Explored m u
    → Explored m (colored u n true)
left-Explored m u n gray h x = record {
  closed = λ b c black e. elim (colored-cases u n b true) [
    | inl (same, now) ↦ blacker c (h c (subst (λ y. Edge m y c) (sym same) e))
    | inr (other, was) ↦ blacker c (x.closed b c (sym was ∙ black) e)
  ];
  acyclic = λ b black w. elim (colored-cases u n b true) [
    | inl (same, now) ↦
        absurd (ground (arith, gray, Walk-black m u n x h (subst (λ y. Walk m y y) (sym same) w)))
    | inr (other, was) ↦ x.acyclic b (sym was ∙ black) w
  ];
}
  where
    blacker : (c : Node) → color u c ≡ some true → color (colored u n true) c ≡ some true
    blacker c e = ground (arith, colored-cases u n c true, e)

no_mem : {x : Node} {ns : List Node} → ns ≡ [] → Memᴰ x ns → ⊥
no_mem {x} e mem = Memᴰ.not-nil (subst (Memᴰ x) e mem)

empty : (ns : List Node) → ((x : Node) → Memᴰ x ns → ⊥) → ns ≡ []
empty [] h = refl
empty (n ∷ ns) h = absurd (h n (Memᴰ.head refl))

colored-here : (s : State) (n : Node) (black : Bool) → color (colored s n black) n ≡ some black
colored-here s n black = ground (arith, colored-cases s n n black)

-- Where nothing is reported, the nodes to visit end up black among explored ones.
pub Visits-Explored :
    (m : ModuleSymbols) {s t : State} {ns : List Node}
    → Visits m s ns t
    → t.cyclic ≡ []
    → Explored m s
    → Explored m t × ((n : Node) → Memᴰ n ns → color t n ≡ some true)
Visits-Explored m (done) e x = (x, λ n mem. absurd (Memᴰ.not-nil mem))
Visits-Explored m (closes {s = s} {n = n} gray rest) e x =
    absurd (no_mem e (Visits-keeps m n rest (reported-has s n)))
Visits-Explored m (known {s = s} {n = n} black rest) e x =
    let (after, all_black) = Visits-Explored m rest e x in
    (
      after,
      λ y mem. elim (Memᴰ.cases_cons mem) [
        | inl same ↦ Visits-black m y rest (subst (λ z. color s z ≡ some true) (sym same) black)
        | inr later ↦ all_black y later
      ],
    )
Visits-Explored m (enters {s = s} {u = u} {n = n} next fresh e inner rest) nothing x =
    let inner_empty : u.cyclic ≡ [] =
      empty u.cyclic (λ c mem. no_mem nothing (Visits-keeps m c rest mem)) in
    let (inside, next_black) =
      Visits-Explored m inner inner_empty (entered-Explored m s n fresh x) in
    let gray : color u n ≡ some false = (Visits-gray m n inner).1 (colored-here s n false) in
    let turned =
      left-Explored m u n gray (λ c to. next_black c (Edge-next m n c next e to)) inside in
    let (after, all_black) = Visits-Explored m rest nothing turned in
    (
      after,
      λ y mem. elim (Memᴰ.cases_cons mem) [
        | inl same ↦
            Visits-black m y rest (
              subst (λ z. color (colored u n true) z ≡ some true) (sym same)
                (colored-here u n true))
        | inr later ↦ all_black y later
      ],
    )
