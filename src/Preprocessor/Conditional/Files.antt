-- ===== src/Preprocessor/Conditional/Files.antt =====
-- Chains and the files that open them (src/preprocessor/conditional.rs).
use aspect.Prelude.{
  ℕ, ◌≤◌, ◌≡◌, ◌≢◌, refl, ap, ◌∙◌, inl, inr, Bool, true, false, none, List, [], ◌∷◌, ◌++◌, arith,
  Str, codes, if◌then◌else◌, ltb, ◌==◌, length, length-append, ok, err, Ensures, Ensures-bind,
  Bool-cases, Option-cases, get_elem?-some, ltb→lt, ◌-◌, ltb_false→le,
}
use aspect.Lexer.Position.{Position}
use aspect.Lexer.Token.{Token}
use aspect.Preprocessor.Error.{stray_conditional}
use aspect.Preprocessor.Defines.Scoped.{ScopedDefines}
use aspect.Preprocessor.Defines.Expansion.{Always}
use aspect.Preprocessor.ExprEval.Operators.{single_name}
use aspect.Preprocessor.ExprEval.Eval.{eval_if_expr}
use aspect.Preprocessor.Conditional.{
  Frame, ConditionalStack, Conditional, ifdef, ifndef, if_, elseif, elseifdef, else_, endif,
  conditional_of, active, depth, unterminated_since, check_no_else, push, top, no_trailing,
  elseif_state, open_ifdef, open_if, chain_elseif, chain_elseifdef, chain_else, chain_endif,
  dispatch, handle,
}
use aspect.Preprocessor.Conditional.Nesting.{
  single_name-Ensures, check_no_else-Ensures, no_trailing-Ensures, eval-Ensures,
  elseif_state-Always,
}

-- The innermost open chain is another file's.
abbrev pub IsForeign : ℕ → ConditionalStack → Type 0
IsForeign file [] = Unit
IsForeign file (frame ∷ frames) = frame.opened.file_id ≢ file

-- The stack still ends in `base`.
abbrev pub Keeps : ConditionalStack → ConditionalStack → Type 0
Keeps base frames = (xs : ConditionalStack) × (frames ≡ xs ++ base)

Keeps-cons :
    {base frames : ConditionalStack} (frame : Frame)
    → Keeps base frames
    → Keeps base (frame ∷ frames)
Keeps-cons frame (xs, e) = (frame ∷ xs, ap (◌∷◌ frame) e)

top-foreign :
    (directive : Str) (pos : Position) (base : ConditionalStack)
    (P : Frame × ConditionalStack → Type 0)
    → IsForeign pos.file_id base
    → Ensures P (top directive pos base)
unfolding top
top-foreign directive pos [] P f = tt
top-foreign directive pos (frame ∷ frames) P f = ground arith

top-Keeps :
    (directive : Str) (pos : Position) (base frames : ConditionalStack)
    → IsForeign pos.file_id base
    → Keeps base frames
    → Ensures (λ (frame, outer). Keeps base outer) (top directive pos frames)
unfolding top
top-Keeps directive pos base frames f ([], e) = rw e (top-foreign directive pos base _ f)
top-Keeps directive pos base frames f (frame ∷ xs, e) =
    rw e (inside (frame.opened.file_id == pos.file_id))
  where
    inside :
        (b : Bool)
        → Ensures
            (λ (frame, outer). Keeps base outer)
            (if b then ok (frame, xs ++ base) else err (stray_conditional directive pos))
    inside true = (xs, refl)
    inside false = tt

module _ {F : Type 0} (rest : List (Token F)) (pos : Position) (d : ScopedDefines F)
    (base : ConditionalStack) (foreign : IsForeign pos.file_id base) where
  open_ifdef-Keeps :
      (directive : Str) (frames : ConditionalStack)
      → Keeps base frames
      → Ensures (Keeps base) (open_ifdef rest pos d directive frames)
  unfolding open_ifdef push
  open_ifdef-Keeps directive frames k =
      Ensures-bind Always (Keeps base) (single_name directive rest pos) _
        (single_name-Ensures directive rest pos) λ name _. Keeps-cons _ k

  open_if-Keeps :
      (frames : ConditionalStack)
      → Keeps base frames
      → Ensures (Keeps base) (open_if rest pos d frames)
  unfolding open_if push
  open_if-Keeps frames k = elim (Bool-cases (active frames)) [
    | inl on ↦
        rw (on, open_if)
          (Ensures-bind Always (Keeps base) (eval_if_expr rest d pos) _ (eval-Ensures rest pos d)
            λ value _. Keeps-cons _ k)
    | inr off ↦ rw (off, open_if, Ensures) (Keeps-cons _ k)
  ]

  -- A directive that continues a chain first takes the top frame, and puts at most one back.
  chain_elseif-Keeps :
      (frames : ConditionalStack)
      → Keeps base frames
      → Ensures (Keeps base) (chain_elseif rest pos d frames)
  unfolding chain_elseif
  chain_elseif-Keeps frames k =
      Ensures-bind (λ (frame, outer). Keeps base outer) (Keeps base)
        (top (codes "elseif") pos frames) _ (top-Keeps (codes "elseif") pos base frames foreign k)
        λ (frame, outer) t.
          Ensures-bind Always (Keeps base) (check_no_else frame (codes "elseif") pos) _
            (check_no_else-Ensures frame (codes "elseif") pos)
            λ _ _.
              Ensures-bind Always (Keeps base) (elseif_state rest pos d frame) _
                (elseif_state-Always rest pos d frame) λ state _. Keeps-cons _ t

  chain_elseifdef-Keeps :
      (frames : ConditionalStack)
      → Keeps base frames
      → Ensures (Keeps base) (chain_elseifdef rest pos d frames)
  unfolding chain_elseifdef
  chain_elseifdef-Keeps frames k =
      Ensures-bind (λ (frame, outer). Keeps base outer) (Keeps base)
        (top (codes "elseifdef") pos frames) _
        (top-Keeps (codes "elseifdef") pos base frames foreign k)
        λ (frame, outer) t.
          Ensures-bind Always (Keeps base) (check_no_else frame (codes "elseifdef") pos) _
            (check_no_else-Ensures frame (codes "elseifdef") pos)
            λ _ _.
              Ensures-bind Always (Keeps base) (single_name (codes "elseifdef") rest pos) _
                (single_name-Ensures (codes "elseifdef") rest pos) λ name _. Keeps-cons _ t

  chain_else-Keeps :
      (frames : ConditionalStack)
      → Keeps base frames
      → Ensures (Keeps base) (chain_else rest pos d frames)
  unfolding chain_else
  chain_else-Keeps frames k =
      Ensures-bind (λ (frame, outer). Keeps base outer) (Keeps base) (top (codes "else") pos frames)
        _ (top-Keeps (codes "else") pos base frames foreign k)
        λ (frame, outer) t.
          Ensures-bind Always (Keeps base) (check_no_else frame (codes "else") pos) _
            (check_no_else-Ensures frame (codes "else") pos)
            λ _ _.
              Ensures-bind Always (Keeps base) (no_trailing (codes "else") rest) _
                (no_trailing-Ensures (codes "else") rest) λ _ _. Keeps-cons _ t

  chain_endif-Keeps :
      (frames : ConditionalStack)
      → Keeps base frames
      → Ensures (Keeps base) (chain_endif rest pos d frames)
  unfolding chain_endif
  chain_endif-Keeps frames k =
      Ensures-bind (λ (frame, outer). Keeps base outer) (Keeps base)
        (top (codes "endif") pos frames) _ (top-Keeps (codes "endif") pos base frames foreign k)
        λ (frame, outer) t.
          Ensures-bind Always (Keeps base) (no_trailing (codes "endif") rest) _
            (no_trailing-Ensures (codes "endif") rest) λ _ _. t

  dispatch-Keeps :
      (c : Conditional) (frames : ConditionalStack)
      → Keeps base frames
      → Ensures (Keeps base) (dispatch rest pos d c frames)
  unfolding dispatch
  dispatch-Keeps ifdef = open_ifdef-Keeps (codes "ifdef")
  dispatch-Keeps ifndef = open_ifdef-Keeps (codes "ifndef")
  dispatch-Keeps if_ = open_if-Keeps
  dispatch-Keeps elseif = chain_elseif-Keeps
  dispatch-Keeps elseifdef = chain_elseifdef-Keeps
  dispatch-Keeps else_ = chain_else-Keeps
  dispatch-Keeps endif = chain_endif-Keeps

  -- A directive never changes the chains below an innermost chain of another file.
  handle-Keeps :
      (directive : Str) (frames : ConditionalStack)
      → Keeps base frames
      → Ensures (Keeps base) (handle rest pos d directive frames)
  unfolding handle
  handle-Keeps directive frames k = elim (Option-cases (conditional_of directive)) [
    | inl e ↦ rw (e, handle, Ensures) tt
    | inr (c, e) ↦ rw (e, handle) (dispatch-Keeps c frames k)
  ]

-- No chain at or beyond the baseline is open only if no more chains are open than that.
unterminated-none :
    (frames : ConditionalStack) (baseline : ℕ)
    → unterminated_since frames baseline ≡ none
    → length frames ≤ baseline
unfolding unterminated_since
unterminated-none frames baseline e = elim (Bool-cases (ltb baseline (length frames))) [
  | inl more ↦
      let (frame, found) =
        get_elem?-some frames (length frames - 1 - baseline)
          (omega (arith, ltb→lt baseline (length frames) more)) in
      cc (rw (more, found, unterminated_since) at e)
  | inr none_left ↦ ltb_false→le baseline (length frames) none_left
]

-- The conditional directives of one file, handled one after the other without an error. What each
-- sees of the defines may differ.
pub data Run (F : Type 0) (file : ℕ) (start : ConditionalStack) : ConditionalStack → Type 0 where
  here : Run F file start start
  next :
      {frames frames' : ConditionalStack} (directive : Str) (rest : List (Token F)) (pos : Position)
      (d : ScopedDefines F)
      → Run F file start frames
      → pos.file_id ≡ file
      → handle rest pos d directive frames ≡ ok frames'
      → Run F file start frames'

no_more : (xs : ConditionalStack) → length xs ≡ 0 → xs ≡ []
no_more [] h = refl
no_more (x ∷ xs) h = absurd (omega arith)

module _ {F : Type 0} where
  Run-Keeps :
      {file : ℕ} {start frames : ConditionalStack}
      → IsForeign file start
      → Run F file start frames
      → Keeps start frames
  Run-Keeps foreign here = ([], refl)
  Run-Keeps {file} {start} foreign (next {frames} directive rest pos d r same e) =
      let own : IsForeign pos.file_id start = rw same foreign in
      rw e at (handle-Keeps rest pos d start own directive frames (Run-Keeps foreign r))

  -- If the innermost chain that is open before a file is another file's, every conditional
  -- directive of the file is handled without an error, and no chain is unterminated since its
  -- start, then the stack of chains after the file is the stack before it.
  pub Run-balanced :
      {file : ℕ} {start frames : ConditionalStack}
      → IsForeign file start
      → Run F file start frames
      → unterminated_since frames (depth start) ≡ none
      → frames ≡ start
  unfolding depth
  Run-balanced {start = start} {frames} foreign r e =
      let (xs, k) = Run-Keeps foreign r in
      let at_most = unterminated-none frames (length start) e in
      k
      ∙ ap (λ ys. ys ++ start) (no_more xs (omega (arith, length-append {0} xs start, ap length k)))
