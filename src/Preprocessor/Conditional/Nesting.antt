-- ===== src/Preprocessor/Conditional/Nesting.antt =====
-- The frames of src/preprocessor/conditional.rs and the chains around them.
use aspect.Prelude.{
  ◌≡◌, refl, inl, inr, Bool, true, false, not, some, List, [], ◌∷◌, ◌++◌, arith, Str, codes,
  if◌then◌else◌, all, Ensures, Ensures-bind, Ensures-of-ne, Bool-cases, Option-cases,
}
use aspect.Lexer.Position.{Position}
use aspect.Lexer.Token.{Token}
use aspect.Preprocessor.Defines.Scoped.{ScopedDefines, is_defined}
use aspect.Preprocessor.Defines.Expansion.{Always}
use aspect.Preprocessor.ExprEval.Operators.{single_name, is_zero}
use aspect.Preprocessor.ExprEval.Eval.{eval_if_expr}
use aspect.Preprocessor.ExprEval.Total.{eval_if_expr_total}
use aspect.Preprocessor.Conditional.{
  Branch, pending, is_live, Frame, ConditionalStack, Conditional, ifdef, ifndef, if_, elseif,
  elseifdef, else_, endif, elseif_state, conditional_of, active, check_no_else, push, top,
  no_trailing, tries, pass, taken_by, final_branch, open_ifdef, open_if, chain_elseif,
  chain_elseifdef, chain_else, chain_endif, dispatch, handle,
}

-- Every frame records whether its surroundings were active, and an inert frame takes no branch.
abbrev pub IsNested : ConditionalStack → Type 0
IsNested [] = Unit
IsNested (frame ∷ frames) =
    (frame.parent_active ≡ active frames)
    × (frame.parent_active ≡ false → frame.state ≡ pending)
    × IsNested frames

pub all_live : ConditionalStack → Bool
all_live = all λ frame. is_live frame.state

-- A nested stack is active exactly if every open chain is live.
pub active-all_live :
    (frames : ConditionalStack) → IsNested frames → active frames ≡ all_live frames
unfolding active all_live
active-all_live [] n = refl
active-all_live (frame ∷ frames) n = ground (arith, active-all_live frames n.2)

all_live-append :
    (xs base : ConditionalStack) → all_live base ≡ false → all_live (xs ++ base) ≡ false
unfolding all_live
all_live-append [] base h = h
all_live-append (frame ∷ xs) base h = ground (arith, all_live-append xs base h)

drop-IsNested : (xs base : ConditionalStack) → IsNested (xs ++ base) → IsNested base
drop-IsNested [] base n = n
drop-IsNested (frame ∷ xs) base n = drop-IsNested xs base n.2

-- On a nested stack no chain inside an inactive one is active, however many are open.
pub active-append :
    (xs base : ConditionalStack)
    → IsNested (xs ++ base)
    → active base ≡ false
    → active (xs ++ base) ≡ false
active-append xs base n h =
    let below = rw (active-all_live base (drop-IsNested xs base n)) at h in
    rw (active-all_live (xs ++ base) n) (all_live-append xs base below)

push-IsNested :
    (directive : Str) (pos : Position) (taken : Bool) (frames : ConditionalStack)
    → (active frames ≡ false → taken ≡ false)
    → IsNested frames
    → IsNested (push directive pos (active frames) taken frames)
unfolding push
push-IsNested directive pos taken frames h n = (refl, λ e. rw (h e), n)

top-IsNested :
    (directive : Str) (pos : Position) (frames : ConditionalStack)
    → IsNested frames
    → Ensures (λ (frame, outer). IsNested (frame ∷ outer)) (top directive pos frames)
unfolding top
top-IsNested directive pos [] n = tt
top-IsNested directive pos (frame ∷ frames) n = ground arith

-- An inert frame that is passed over stays inert.
pass-inert : (state : Branch) → state ≡ pending → pass state ≡ pending
unfolding pass
pass-inert state e = rw e

final_branch-inert :
    (b : Bool) (state : Branch)
    → (b ≡ false → state ≡ pending)
    → b ≡ false
    → (if b then final_branch state else state) ≡ pending
final_branch-inert true state h e = cc
final_branch-inert false state h e = h refl

pub single_name-Ensures :
    {F : Type 0} (directive : Str) (rest : List (Token F)) (pos : Position)
    → Ensures Always (single_name directive rest pos)
unfolding single_name
single_name-Ensures directive [] pos = tt
single_name-Ensures directive (t ∷ extra) pos = ground arith

pub check_no_else-Ensures :
    (frame : Frame) (directive : Str) (pos : Position)
    → Ensures Always (check_no_else frame directive pos)
unfolding check_no_else
check_no_else-Ensures frame directive pos = ground arith

pub no_trailing-Ensures :
    {F : Type 0} (directive : Str) (rest : List (Token F))
    → Ensures Always (no_trailing directive rest)
unfolding no_trailing
no_trailing-Ensures directive [] = tt
no_trailing-Ensures directive (t ∷ rest) = tt

module _ {F : Type 0} (rest : List (Token F)) (pos : Position) (d : ScopedDefines F) where
  pub eval-Ensures : Ensures Always (eval_if_expr rest d pos)
  eval-Ensures =
      Ensures-of-ne Always (eval_if_expr rest d pos) ((eval_if_expr_total rest d pos).0) λ a e. tt

  open_ifdef-IsNested :
      (directive : Str) (frames : ConditionalStack)
      → IsNested frames
      → Ensures IsNested (open_ifdef rest pos d directive frames)
  unfolding open_ifdef
  open_ifdef-IsNested directive frames n =
      Ensures-bind Always IsNested (single_name directive rest pos) _
        (single_name-Ensures directive rest pos)
        λ name _. push-IsNested directive pos _ frames (λ e. rw e) n

  open_if-IsNested :
      (frames : ConditionalStack) → IsNested frames → Ensures IsNested (open_if rest pos d frames)
  unfolding open_if
  open_if-IsNested frames n = elim (Bool-cases (active frames)) [
    | inl on ↦
        rw (on, open_if)
          (Ensures-bind Always IsNested (eval_if_expr rest d pos) _ eval-Ensures λ value _.
            rw on at (push-IsNested (codes "if") pos (not (is_zero value)) frames (λ e. cc) n))
    | inr off ↦
        rw (off, open_if) (rw off at (push-IsNested (codes "if") pos false frames (λ e. refl) n))
  ]

  -- What the handlers of a continued chain leave.
  abbrev Inert : Frame → Branch → Type 0
  Inert frame state = frame.parent_active ≡ false → state ≡ pending

  elseif_state-Inert :
      (frame : Frame)
      → Inert frame frame.state
      → Ensures (Inert frame) (elseif_state rest pos d frame)
  unfolding elseif_state pass
  elseif_state-Inert frame i = elim (Bool-cases (tries frame)) [
    | inl on ↦
        rw (on, elseif_state)
          (Ensures-bind Always (Inert frame) (eval_if_expr rest d pos) _ eval-Ensures
            λ value _ e. ground arith)
    | inr off ↦ rw (off, elseif_state, Ensures) (λ e. pass-inert frame.state (i e))
  ]

  pub elseif_state-Always : (frame : Frame) → Ensures Always (elseif_state rest pos d frame)
  unfolding elseif_state
  elseif_state-Always frame = elim (Bool-cases (tries frame)) [
    | inl on ↦
        rw (on, elseif_state)
          (Ensures-bind Always Always (eval_if_expr rest d pos) _ eval-Ensures λ value _. tt)
    | inr off ↦ rw (off, elseif_state, Ensures) tt
  ]

  elseifdef-Inert :
      (frame : Frame) (found : Bool)
      → Inert frame frame.state
      → Inert frame (if tries frame then taken_by found frame.state else pass frame.state)
  elseifdef-Inert frame found i e = rw e (pass-inert frame.state (i e))

  chain_elseif-IsNested :
      (frames : ConditionalStack)
      → IsNested frames
      → Ensures IsNested (chain_elseif rest pos d frames)
  unfolding chain_elseif
  chain_elseif-IsNested frames n =
      Ensures-bind (λ (frame, outer). IsNested (frame ∷ outer)) IsNested _ _
        (top-IsNested (codes "elseif") pos frames n)
        λ (frame, outer) t.
          Ensures-bind Always IsNested _ _ (check_no_else-Ensures frame (codes "elseif") pos) λ _ _.
            Ensures-bind (Inert frame) IsNested _ _ (elseif_state-Inert frame t.1) λ state i.
              let nested : IsNested (record frame { state = state } ∷ outer) = (t.0, i, t.2) in
              nested

  chain_elseifdef-IsNested :
      (frames : ConditionalStack)
      → IsNested frames
      → Ensures IsNested (chain_elseifdef rest pos d frames)
  unfolding chain_elseifdef
  chain_elseifdef-IsNested frames n =
      Ensures-bind (λ (frame, outer). IsNested (frame ∷ outer)) IsNested _ _
        (top-IsNested (codes "elseifdef") pos frames n)
        λ (frame, outer) t.
          Ensures-bind Always IsNested _ _ (check_no_else-Ensures frame (codes "elseifdef") pos)
            λ _ _.
              Ensures-bind Always IsNested _ _ (single_name-Ensures (codes "elseifdef") rest pos)
                λ name _.
                  let state =
                    if tries frame
                    then taken_by (is_defined d name) frame.state
                    else pass frame.state in
                  let nested : IsNested (record frame { state = state } ∷ outer) =
                    (t.0, elseifdef-Inert frame (is_defined d name) t.1, t.2) in
                  nested

  chain_else-IsNested :
      (frames : ConditionalStack)
      → IsNested frames
      → Ensures IsNested (chain_else rest pos d frames)
  unfolding chain_else
  chain_else-IsNested frames n =
      Ensures-bind (λ (frame, outer). IsNested (frame ∷ outer)) IsNested _ _
        (top-IsNested (codes "else") pos frames n)
        λ (frame, outer) t.
          Ensures-bind Always IsNested _ _ (check_no_else-Ensures frame (codes "else") pos) λ _ _.
            Ensures-bind Always IsNested _ _ (no_trailing-Ensures (codes "else") rest) λ _ _.
              let state = if frame.parent_active then final_branch frame.state else frame.state in
              let nested : IsNested (record frame { else_pos = some pos; state = state } ∷ outer) =
                (t.0, final_branch-inert frame.parent_active frame.state t.1, t.2) in
              nested

  chain_endif-IsNested :
      (frames : ConditionalStack)
      → IsNested frames
      → Ensures IsNested (chain_endif rest pos d frames)
  unfolding chain_endif
  chain_endif-IsNested frames n =
      Ensures-bind (λ (frame, outer). IsNested (frame ∷ outer)) IsNested _ _
        (top-IsNested (codes "endif") pos frames n)
        λ (frame, outer) t.
          Ensures-bind Always IsNested _ _ (no_trailing-Ensures (codes "endif") rest) λ _ _. t.2

  dispatch-IsNested :
      (c : Conditional) (frames : ConditionalStack)
      → IsNested frames
      → Ensures IsNested (dispatch rest pos d c frames)
  unfolding dispatch
  dispatch-IsNested ifdef = open_ifdef-IsNested (codes "ifdef")
  dispatch-IsNested ifndef = open_ifdef-IsNested (codes "ifndef")
  dispatch-IsNested if_ = open_if-IsNested
  dispatch-IsNested elseif = chain_elseif-IsNested
  dispatch-IsNested elseifdef = chain_elseifdef-IsNested
  dispatch-IsNested else_ = chain_else-IsNested
  dispatch-IsNested endif = chain_endif-IsNested

  -- On a nested stack no conditional directive runs out of fuel, and a stack that it returns is
  -- nested.
  pub handle-IsNested :
      (directive : Str) (frames : ConditionalStack)
      → IsNested frames
      → Ensures IsNested (handle rest pos d directive frames)
  unfolding handle
  handle-IsNested directive frames n = elim (Option-cases (conditional_of directive)) [
    | inl e ↦ rw (e, handle, Ensures) tt
    | inr (c, e) ↦ rw (e, handle) (dispatch-IsNested c frames n)
  ]
