-- ===== src/Preprocessor/Conditional/Chain.antt =====
-- Which branch of a chain of src/preprocessor/conditional.rs is live.
use aspect.Prelude.{
  ◌≡◌, refl, ◌∙◌, ◌⊎◌, inl, inr, Bool, true, false, not, ◌&&◌, none, some, List, [], ◌∷◌, arith,
  Str, codes, if◌then◌else◌, any, All, ok, ◌>>=◌, Bool-cases,
}
use aspect.Prelude.Int.{ℤ}
use aspect.Lexer.Position.{Position}
use aspect.Lexer.Token.{Token}
use aspect.Preprocessor.Error.{Preprocess}
use aspect.Preprocessor.Defines.Scoped.{ScopedDefines}
use aspect.Preprocessor.ExprEval.Operators.{is_zero}
use aspect.Preprocessor.ExprEval.Eval.{eval_if_expr}
use aspect.Preprocessor.Conditional.{
  Branch, pending, live, done, is_live, Frame, ConditionalStack, active, check_no_else, push, top,
  no_trailing, pass, taken_by, final_branch, elseif_state, open_if, chain_elseif, chain_else,
}

-- An `$if` or `$elseif` line, and the value of its expression where it is evaluated.
pub record Condition (F : Type 0) : Type 0 where
  pub rest : List (Token F)
  pub pos : Position
  pub value : ℤ

abbrev pub truth : {F : Type 0} → Condition F → Bool
truth c = not (is_zero c.value)

abbrev pub any_true : List Bool → Bool
any_true = any λ b. b

-- The state of a chain by the truth of its conditions, the latest first.
abbrev pub status : List Bool → Branch
status [] = pending
status (b ∷ earlier) = if any_true earlier then done else if b then live else pending

-- The latest condition is the first true one.
abbrev pub is_first_true : List Bool → Bool
is_first_true [] = false
is_first_true (b ∷ earlier) = b && not (any_true earlier)

top_same :
    (directive : Str) (pos : Position) (frame : Frame) (frames : ConditionalStack)
    → frame.opened.file_id ≡ pos.file_id
    → top directive pos (frame ∷ frames) ≡ ok (frame, frames)
unfolding top
top_same directive pos frame frames same = ground arith

final_lem : (bs : List Bool) → is_live (final_branch (status bs)) ≡ not (any_true bs)
unfolding final_branch
final_lem [] = refl
final_lem (b ∷ earlier) = ground arith

module _ {F : Type 0} (d : ScopedDefines F) where
  abbrev pub Evaluates : Condition F → Type 0
  Evaluates c = eval_if_expr c.rest d c.pos ≡ ok c.value

  -- A condition has to be evaluable only while no earlier one is true.
  abbrev pub Tested : List Bool → List (Condition F) → Type 0
  Tested earlier [] = Unit
  Tested earlier (c ∷ cs) = (any_true earlier ≡ false → Evaluates c) × Tested (truth c ∷ earlier) cs

  -- All truth values, the latest first.
  abbrev pub seen : List (Condition F) → List Bool → List Bool
  seen [] earlier = earlier
  seen (c ∷ cs) earlier = seen cs (truth c ∷ earlier)

  -- The lines of a chain, in order.
  pub run_elseifs : List (Condition F) → ConditionalStack → Preprocess ConditionalStack
  run_elseifs [] frames = ok frames
  run_elseifs (c ∷ cs) frames = do
    frames' ← chain_elseif c.rest c.pos d frames
    run_elseifs cs frames'

  pub run_chain : Condition F → List (Condition F) → ConditionalStack → Preprocess ConditionalStack
  run_chain c cs frames = do frames' ← open_if c.rest c.pos d frames; run_elseifs cs frames'

  abbrev pub InFile : Position → List (Condition F) → Type 0
  InFile opened cs = All (λ c. opened.file_id ≡ c.pos.file_id) cs

  -- The frame of a chain that was opened at `opened` in an active region.
  abbrev frame_at : Position → List Bool → Frame
  frame_at opened bs = record {
    directive = codes "if";
    opened = opened;
    parent_active = true;
    state = status bs;
    else_pos = none;
  }

  -- A chain that had its branch is over.
  elseif_state-past :
      (c : Condition F) (frame : Frame)
      → (frame.state ≡ done) ⊎ (frame.state ≡ live)
      → elseif_state c.rest c.pos d frame ≡ ok done
  unfolding elseif_state pass
  elseif_state-past c frame e = ground arith

  elseif_state-pending :
      (c : Condition F) (frame : Frame)
      → frame.parent_active ≡ true
      → frame.state ≡ pending
      → Evaluates c
      → elseif_state c.rest c.pos d frame ≡ ok (if truth c then live else pending)
  unfolding elseif_state taken_by
  elseif_state-pending c frame on e v = ground arith

  elseif_state-status :
      (c : Condition F) (opened : Position) (b : Bool) (earlier : List Bool)
      → (any_true (b ∷ earlier) ≡ false → Evaluates c)
      → elseif_state c.rest c.pos d (frame_at opened (b ∷ earlier))
        ≡ ok (status (truth c ∷ b ∷ earlier))
  unfolding elseif_state pass taken_by
  elseif_state-status c opened true earlier h = elim (Bool-cases (any_true earlier)) [
    | inl over ↦ elseif_state-past c (frame_at opened (true ∷ earlier)) (inl (rw over))
    | inr fresh ↦ elseif_state-past c (frame_at opened (true ∷ earlier)) (inr (rw fresh))
  ]
  elseif_state-status c opened false earlier h = elim (Bool-cases (any_true earlier)) [
    | inl over ↦ elseif_state-past c (frame_at opened (false ∷ earlier)) (inl (rw over)) ∙ rw over
    | inr fresh ↦
        elseif_state-pending c (frame_at opened (false ∷ earlier)) refl (rw fresh) (h fresh)
        ∙ rw fresh
  ]

  chain_elseif-status :
      (c : Condition F) (opened : Position) (b : Bool) (earlier : List Bool)
      (frames : ConditionalStack)
      → opened.file_id ≡ c.pos.file_id
      → (any_true (b ∷ earlier) ≡ false → Evaluates c)
      → chain_elseif c.rest c.pos d (frame_at opened (b ∷ earlier) ∷ frames)
        ≡ ok (frame_at opened (truth c ∷ b ∷ earlier) ∷ frames)
  unfolding chain_elseif check_no_else
  chain_elseif-status c opened b earlier frames same h = rw (
    top_same (codes "elseif") c.pos (frame_at opened (b ∷ earlier)) frames same,
    elseif_state-status c opened b earlier h,
  )

  run_elseifs-status :
      (cs : List (Condition F)) (opened : Position) (b : Bool) (earlier : List Bool)
      (frames : ConditionalStack)
      → InFile opened cs
      → Tested (b ∷ earlier) cs
      → run_elseifs cs (frame_at opened (b ∷ earlier) ∷ frames)
        ≡ ok (frame_at opened (seen cs (b ∷ earlier)) ∷ frames)
  unfolding run_elseifs
  run_elseifs-status [] opened b earlier frames same t = refl
  run_elseifs-status (c ∷ cs) opened b earlier frames same t =
      rw (chain_elseif-status c opened b earlier frames same.0 t.0)
        (run_elseifs-status cs opened (truth c) (b ∷ earlier) frames same.1 t.1)

  open_if-status :
      (c : Condition F) (frames : ConditionalStack)
      → active frames ≡ true
      → Evaluates c
      → open_if c.rest c.pos d frames ≡ ok (frame_at c.pos (truth c ∷ []) ∷ frames)
  unfolding open_if push
  open_if-status c frames on e = rw (on, open_if) (rw e)

  live_lem : (bs : List Bool) → is_live (status bs) ≡ is_first_true bs
  live_lem [] = refl
  live_lem (b ∷ earlier) = ground arith

  -- A chain in an active region, all of its lines in one file, whose first condition evaluates and
  -- whose others evaluate wherever no earlier one is true: after its lines the chain exists, and
  -- it is live exactly if the last condition is the first true one.
  pub run_chain-active :
      (c : Condition F) (cs : List (Condition F)) (frames : ConditionalStack)
      → active frames ≡ true
      → InFile c.pos cs
      → Evaluates c
      → Tested (truth c ∷ []) cs
      → (chain : ConditionalStack) × (run_chain c cs frames ≡ ok chain)
        × (active chain ≡ is_first_true (seen cs (truth c ∷ [])))
  unfolding run_chain active
  run_chain-active c cs frames on same e t = (
    frame_at c.pos (seen cs (truth c ∷ [])) ∷ frames,
    rw (open_if-status c frames on e) (run_elseifs-status cs c.pos (truth c) [] frames same t),
    live_lem (seen cs (truth c ∷ [])),
  )

  -- A chain in an active region, its lines and its `$else` in one file, whose first condition
  -- evaluates and whose others evaluate wherever no earlier one is true: after the `$else` the
  -- chain is live exactly if no condition is true.
  pub run_chain-else :
      (c : Condition F) (cs : List (Condition F)) (pos : Position) (frames : ConditionalStack)
      → active frames ≡ true
      → InFile c.pos cs
      → c.pos.file_id ≡ pos.file_id
      → Evaluates c
      → Tested (truth c ∷ []) cs
      → (chain : ConditionalStack) × ((run_chain c cs frames >>= chain_else {F = F} [] pos d)
          ≡ ok chain)
        × (active chain ≡ not (any_true (seen cs (truth c ∷ []))))
  unfolding run_chain active chain_else check_no_else no_trailing
  run_chain-else c cs pos frames on same here e t =
      let bs = seen cs (truth c ∷ []) in
      (
        record (frame_at c.pos bs) { state = final_branch (status bs); else_pos = some pos }
            ∷ frames,
        rw (
          open_if-status c frames on e,
          run_elseifs-status cs c.pos (truth c) [] frames same t,
          top_same (codes "else") pos (frame_at c.pos bs) frames here,
        ),
        final_lem bs,
      )
