-- ===== src/Tests/Conditionals.antt =====
-- Conditional chains at concrete directives.
use aspect.Prelude.{
  ℕ, ◌≡◌, refl, arith, Bool, true, false, not, none, [], ◌∷◌, Str, codes, str_eq, ok, ◌>>=◌,
  Ensures,
}
use aspect.Prelude.Int.{ℤ}
use aspect.Lexer.Position.{Position}
use aspect.Lexer.Token.{Token, TokenKind}
use aspect.Preprocessor.Defines.{defs_of, lookup}
use aspect.Preprocessor.Defines.Scoped.{ScopedDefines, find, get, is_defined}
use aspect.Preprocessor.ExprEval.Operators.{single_name}
use aspect.Preprocessor.ExprEval.Grammar.{literal, value}
use aspect.Preprocessor.ExprEval.RoundTrip.{source, eval_if_expr-source}
use aspect.Preprocessor.Conditional.{
  Branch, pending, done, Frame, ConditionalStack, conditional_of, active, depth, unterminated_since,
  top, no_trailing, push, open_ifdef, chain_else, chain_endif, dispatch, handle,
}
use aspect.Preprocessor.Conditional.Nesting.{IsNested, all_live, active-all_live, handle-IsNested}
use aspect.Preprocessor.Conditional.Chain.{
  Condition, truth, any_true, is_first_true, Evaluates, seen, run_chain, run_chain-active,
  run_chain-else,
}
use aspect.Preprocessor.Conditional.Files.{Run, here, next, Run-balanced}

abbrev at : ℕ → Position
at line = record { line = line; column = 1; file_id = 0 }

abbrev no_defines : ScopedDefines ℕ
no_defines = record { table = []; module_path = []; imports = []; file_modules = [] }

abbrev spell : TokenKind ℕ → Str
spell k = []

-- A condition that is a number.
abbrev condition : ℕ → ℕ → Condition ℕ
condition line n = record {
  rest = source spell (literal (at line) (ℤ.pos n));
  pos = at line;
  value = ℤ.pos n;
}

condition-Evaluates : (line n : ℕ) → Evaluates no_defines (condition line n)
unfolding value
condition-Evaluates line n =
    eval_if_expr-source spell no_defines (literal (at line) (ℤ.pos n)) (at line)

no_frames : active [] ≡ true
unfolding active
no_frames = refl

-- `$if 0`, `$elseif 1`, `$elseif 1`.
run_chain-active_example :
    (chain : ConditionalStack) × (run_chain no_defines
        (condition 1 0)
        (condition 2 1 ∷ condition 3 1 ∷ [])
        []
      ≡ ok chain)
    × (active chain
        ≡ is_first_true
            (seen no_defines (condition 2 1 ∷ condition 3 1 ∷ []) (truth (condition 1 0) ∷ [])))
run_chain-active_example =
    run_chain-active no_defines (condition 1 0) (condition 2 1 ∷ condition 3 1 ∷ []) [] no_frames
      (refl, (refl, tt)) (condition-Evaluates 1 0)
      ((λ e. condition-Evaluates 2 1), ((λ e. condition-Evaluates 3 1), tt))

-- `$if 0`, `$elseif 0`, `$else`.
run_chain-else_example :
    (chain : ConditionalStack) × ((run_chain no_defines (condition 1 0) (condition 2 0 ∷ []) []
        >>= chain_else {F = ℕ} [] (at 3) no_defines)
      ≡ ok chain)
    × (active chain
        ≡ not (any_true (seen no_defines (condition 2 0 ∷ []) (truth (condition 1 0) ∷ []))))
run_chain-else_example =
    run_chain-else no_defines (condition 1 0) (condition 2 0 ∷ []) (at 3) [] no_frames (refl, tt)
      refl (condition-Evaluates 1 0) ((λ e. condition-Evaluates 2 0), tt)

abbrev frame : Bool → Branch → Frame
frame parent_active state = record {
  directive = codes "if";
  opened = at 1;
  parent_active = parent_active;
  state = state;
  else_pos = none;
}

-- A chain inside a branch that is skipped.
abbrev skipped : ConditionalStack
skipped = frame false pending ∷ frame true done ∷ []

skipped-IsNested : IsNested skipped
unfolding active
skipped-IsNested = (refl, (λ e. refl), (refl, (λ e. absurd (ground arith)), tt))

handle-IsNested_example :
    Ensures IsNested (handle {F = ℕ} [] (at 4) no_defines (codes "else") skipped)
handle-IsNested_example =
    handle-IsNested {F = ℕ} [] (at 4) no_defines (codes "else") skipped skipped-IsNested

active-all_live_example : active skipped ≡ all_live skipped
active-all_live_example = active-all_live skipped skipped-IsNested

abbrev name_token : Token ℕ
name_token = record {
  kind = TokenKind.identifier (codes "DEBUG");
  pos = at 1;
  lexeme = codes "DEBUG";
}

abbrev opened : ConditionalStack
opened =
    record {
      directive = codes "ifdef";
      opened = at 1;
      parent_active = true;
      state = pending;
      else_pos = none;
    }
    ∷ []

-- `$ifdef DEBUG`, `$endif`.
ifdef_endif : Run ℕ 0 [] []
unfolding handle conditional_of str_eq dispatch open_ifdef single_name is_defined get find defs_of
    lookup push active chain_endif top no_trailing aspect.Preprocessor.Defines.Scoped.identifier_of
ifdef_endif =
    next (codes "endif") [] (at 2) no_defines
      (next {frames' = opened} (codes "ifdef") (name_token ∷ []) (at 1) no_defines here refl refl)
      refl refl

nothing_open : unterminated_since [] (depth []) ≡ none
unfolding unterminated_since depth
nothing_open = refl

abbrev empty : ConditionalStack
empty = []

Run-balanced_example : empty ≡ empty
Run-balanced_example =
    Run-balanced {file = 0} {start = empty} {frames = empty} tt ifdef_endif nothing_open
