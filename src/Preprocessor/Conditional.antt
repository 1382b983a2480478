-- ===== src/Preprocessor/Conditional.antt =====
-- The stack of open conditional chains (src/preprocessor/conditional.rs). The last frame of the
-- source's vector, the innermost chain, is the head of the list.
pub mod Nesting
pub mod Chain
pub mod Files
use aspect.Prelude.{
  ℕ, zero, suc, ◌+◌, ◌-◌, ◌≡◌, Bool, true, false, not, ◌&&◌, ◌||◌, Option, none, some, List, [],
  ◌∷◌, Str, codes, str_eq, if◌then◌else◌, bool_eq, ◌==◌, ltb, get_elem?, length, ok, err,
  out_of_fuel, ◌>>=◌, ◌>>◌,
}
use aspect.Lexer.Position.{Position}
use aspect.Lexer.Token.{Token}
use aspect.Preprocessor.Error.{
  PreprocessError, Preprocess, trailing_tokens, stray_conditional, conditional_after_else, panic,
}
use aspect.Preprocessor.Defines.Scoped.{ScopedDefines, is_defined}
use aspect.Preprocessor.ExprEval.Operators.{single_name, is_zero}
use aspect.Preprocessor.ExprEval.Eval.{eval_if_expr}

-- Where a chain stands in its branch progression.
pub data Branch : Type 0 where
  pending live done : Branch

abbrev pub is_live : Branch → Bool
is_live live = true
is_live _ = false

abbrev pub is_pending : Branch → Bool
is_pending pending = true
is_pending _ = false

pub record Frame : Type 0 where
  pub directive : Str
  pub opened : Position
  pub parent_active : Bool
  pub state : Branch
  pub else_pos : Option Position

abbrev pub ConditionalStack : Type 0
ConditionalStack = List Frame

-- The directives that `handle` knows, by name.
pub data Conditional : Type 0 where
  ifdef ifndef if_ elseif elseifdef else_ endif : Conditional

unfoldable pub conditional_of : Str → Option Conditional
conditional_of name =
    if str_eq name (codes "ifdef")
    then some ifdef
    else if str_eq name (codes "ifndef")
    then some ifndef
    else if str_eq name (codes "if")
    then some if_
    else if str_eq name (codes "elseif")
    then some elseif
    else if str_eq name (codes "elseifdef")
    then some elseifdef
    else if str_eq name (codes "else")
    then some else_
    else if str_eq name (codes "endif")
    then some endif
    else none

unfoldable pub active : ConditionalStack → Bool
active [] = true
active (frame ∷ frames) = frame.parent_active && is_live frame.state

unfoldable pub depth : ConditionalStack → ℕ
depth frames = length frames

-- `frames.get(baseline)`, counted from the outermost chain.
unfoldable pub unterminated_since : ConditionalStack → ℕ → Option (Str × Position)
unterminated_since frames baseline =
    if ltb baseline (length frames)
    then elim (get_elem? frames (length frames - 1 - baseline)) [
      | none ↦ none
      | some frame ↦ some (frame.directive, frame.opened)
    ]
    else none

unfoldable pub check_no_else : Frame → Str → Position → Preprocess (Unit {0})
check_no_else frame directive pos = elim frame.else_pos [
  | none ↦ ok tt
  | some else_pos ↦ err (conditional_after_else directive else_pos pos)
]

unfoldable pub push : Str → Position → Bool → Bool → ConditionalStack → ConditionalStack
push directive pos parent_active taken frames =
    (record {
      directive = directive;
      opened = pos;
      parent_active = parent_active;
      state = if taken then live else pending;
      else_pos = none;
    })
    ∷ frames

-- The innermost chain and the chains around it, if that chain was opened in this file.
unfoldable pub top : Str → Position → ConditionalStack → Preprocess (Frame × ConditionalStack)
top directive pos [] = err (stray_conditional directive pos)
top directive pos (frame ∷ frames) =
    if frame.opened.file_id == pos.file_id
    then ok (frame, frames)
    else err (stray_conditional directive pos)

unfoldable pub no_trailing : {F : Type 0} → Str → List (Token F) → Preprocess (Unit {0})
no_trailing directive [] = ok tt
no_trailing directive (extra ∷ rest) = err (trailing_tokens directive extra.pos)

-- A later branch: it is tried only under an active parent and while none was taken.
abbrev pub tries : Frame → Bool
tries frame = frame.parent_active && is_pending frame.state

-- What a branch that is not tried leaves: a live branch is over.
unfoldable pub pass : Branch → Branch
pass live = done
pass state = state

unfoldable pub taken_by : Bool → Branch → Branch
taken_by true state = live
taken_by false state = state

-- `$else`.
unfoldable pub final_branch : Branch → Branch
final_branch pending = live
final_branch _ = done

module _ {F : Type 0} (rest : List (Token F)) (pos : Position) (d : ScopedDefines F) where
  unfoldable pub open_ifdef : Str → ConditionalStack → Preprocess ConditionalStack
  open_ifdef directive frames = do
    name ← single_name directive rest pos
    let parent_active = active frames
    let taken = parent_active && bool_eq (is_defined d name) (str_eq directive (codes "ifdef"))
    ok (push directive pos parent_active taken frames)

  -- Inside a skipped region the expression is not evaluated.
  unfoldable pub open_if : ConditionalStack → Preprocess ConditionalStack
  open_if frames = elim (active frames) [
    | false ↦ ok (push (codes "if") pos false false frames)
    | true ↦ do
      value ← eval_if_expr rest d pos
      ok (push (codes "if") pos true (not (is_zero value)) frames)
  ]

  -- The state that `$elseif` gives to the chain.
  unfoldable pub elseif_state : Frame → Preprocess Branch
  unfolding pass taken_by
  elseif_state frame = elim (tries frame) [
    | true ↦ do value ← eval_if_expr rest d pos; ok (taken_by (not (is_zero value)) frame.state)
    | false ↦ ok (pass frame.state)
  ]

  unfoldable pub chain_elseif : ConditionalStack → Preprocess ConditionalStack
  chain_elseif frames = do
    (frame, outer) ← top (codes "elseif") pos frames
    check_no_else frame (codes "elseif") pos
    state ← elseif_state frame
    ok (record frame { state = state } ∷ outer)

  unfoldable pub chain_elseifdef : ConditionalStack → Preprocess ConditionalStack
  unfolding pass taken_by
  chain_elseifdef frames = do
    (frame, outer) ← top (codes "elseifdef") pos frames
    check_no_else frame (codes "elseifdef") pos
    name ← single_name (codes "elseifdef") rest pos
    ok (
        record frame {
          state =
              if tries frame then taken_by (is_defined d name) frame.state else pass frame.state;
        }
        ∷ outer)

  unfoldable pub chain_else : ConditionalStack → Preprocess ConditionalStack
  unfolding final_branch
  chain_else frames = do
    (frame, outer) ← top (codes "else") pos frames
    check_no_else frame (codes "else") pos
    no_trailing (codes "else") rest
    ok (
        record frame {
          else_pos = some pos;
          state = if frame.parent_active then final_branch frame.state else frame.state;
        }
        ∷ outer)

  unfoldable pub chain_endif : ConditionalStack → Preprocess ConditionalStack
  chain_endif frames = do
    (frame, outer) ← top (codes "endif") pos frames
    no_trailing (codes "endif") rest
    ok outer

  unfoldable pub dispatch : Conditional → ConditionalStack → Preprocess ConditionalStack
  dispatch ifdef = open_ifdef (codes "ifdef")
  dispatch ifndef = open_ifdef (codes "ifndef")
  dispatch if_ = open_if
  dispatch elseif = chain_elseif
  dispatch elseifdef = chain_elseifdef
  dispatch else_ = chain_else
  dispatch endif = chain_endif

  -- `handle`: any other name is the source's `unreachable!`.
  unfoldable pub handle : Str → ConditionalStack → Preprocess ConditionalStack
  unfolding conditional_of
  handle directive frames = elim (conditional_of directive) [
    | none ↦ err panic
    | some c ↦ dispatch c frames
  ]
