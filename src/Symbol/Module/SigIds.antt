-- ===== src/Symbol/Module/SigIds.antt =====
-- The ids of function-pointer signatures over the life of a table of src/symbol/module.rs.
use aspect.Prelude.{
  ℕ, ◌≤◌, ◌≡◌, ◌↔◌, refl, sym, ap, subst, ◌∙◌, inl, inr, Bool, Option, none, some, List, [], ◌∷◌,
  ◌++◌, arith, Str, ok, length, get_elem?, Bool-cases, Option-cases,
}
use aspect.Prelude.Checked.{
  returns, ◌>>!◌, >>!-eq-returns, returns-inj, Checked, expect, expect-eq, expect_u32, modify_at,
}
use aspect.Lexer.Position.{Position}
use aspect.Lexer.LangType.{LangType}
use aspect.Symbol.Module.{
  FnPtrSig, ModuleSymbols, FunctionSymbol, Visibility, private, TypeKind, TypeDef,
}
use aspect.Symbol.Module.Registry.{with_def, intern_type, define_alias, mark_defined}
use aspect.Symbol.Module.Bodies.{
  position, or_next, on_type, set_fields, set_enum_variants, set_sum_variants, add_method,
}
use aspect.Symbol.Module.Functions.{add_function, insert_unless}
use aspect.Symbol.Module.Signatures.{sig_eq, sig_at, intern_sig, intern_fnptr, fnptr_sig}
use aspect.Symbol.Module.WellFormed.{on_type-eq}
use aspect.Symbol.Module.Interning.{Interned, intern_type-Interned}
use aspect.Symbol.Module.Structural.{Known, intern_sig-Known, intern_sig-returns, sig-keeps}
use aspect.Symbol.Module.Reached.{
  Step, Steps, none_yet, then_step, interned_type, defined_alias, fields_set, enum_variants_set,
  sum_variants_set, method_added, function_added, fnptr_interned,
}

position-append :
    {A : Type 0} (p : A → Bool) (xs : List A) (a : A) (i : ℕ)
    → position p xs ≡ some i
    → position p (xs ++ a ∷ []) ≡ some i
unfolding position or_next
position-append p [] a i h = cc
position-append p (x ∷ xs) a i h = elim (Bool-cases (p x)) [
  | inl e ↦ ground (arith, e, h)
  | inr e ↦ elim (Option-cases (position p xs)) [
    | inl n ↦ absurd (ground (arith, e, n, h))
    | inr (j, found) ↦ ground (arith, e, found, h, position-append p xs a j found)
  ]
]

-- What was found among the signatures is found there still, and every id stands for what it did.
record Keeps (sigs after : List FnPtrSig) : Type 0 where
  finds :
      (sig : FnPtrSig) (i : ℕ)
      → position (λ s. sig_eq s sig) sigs ≡ some i
      → position (λ s. sig_eq s sig) after ≡ some i
  stands : (i : ℕ) (s : FnPtrSig) → get_elem? sigs i ≡ some s → get_elem? after i ≡ some s

Keeps-same : (sigs after : List FnPtrSig) → after ≡ sigs → Keeps sigs after
Keeps-same sigs after e =
    subst (Keeps sigs) (sym e) (record { finds = λ sig i h. h; stands = λ i s h. h })

Keeps-more : (sigs : List FnPtrSig) (sig : FnPtrSig) → Keeps sigs (sigs ++ sig ∷ [])
Keeps-more sigs sig = record {
  finds = λ t i h. position-append (λ s. sig_eq s t) sigs sig i h;
  stands = λ i s h. sig-keeps sigs sig s i h;
}

sig_at-Keeps :
    (m after : ModuleSymbols) (sig : FnPtrSig) (id : ℕ) (o : Option ℕ)
    → sig_at m sig o ≡ returns (after, id)
    → Keeps m.fnptr_sigs after.fnptr_sigs
unfolding sig_at
sig_at-Keeps m after sig id (some found) h =
    let (n, r, e) = >>!-eq-returns (expect_u32 found) (λ n. returns (m, n)) h in
    Keeps-same m.fnptr_sigs after.fnptr_sigs (ap (λ x. x.0.fnptr_sigs) (sym (returns-inj e)))
sig_at-Keeps m after sig id none h =
    let more = record m { fnptr_sigs = m.fnptr_sigs ++ sig ∷ [] } in
    let (n, r, e) = >>!-eq-returns (expect_u32 (length m.fnptr_sigs)) (λ n. returns (more, n)) h in
    subst (λ x. Keeps m.fnptr_sigs x.0.fnptr_sigs) (returns-inj e) (Keeps-more m.fnptr_sigs sig)

intern_sig-Keeps :
    (m after : ModuleSymbols) (sig : FnPtrSig) (id : ℕ)
    → intern_sig m sig ≡ returns (after, id)
    → Keeps m.fnptr_sigs after.fnptr_sigs
unfolding intern_sig
intern_sig-Keeps m after sig id h =
    sig_at-Keeps m after sig id (position (λ s. sig_eq s sig) m.fnptr_sigs) h

Interned-sigs :
    (m after : ModuleSymbols) (name : Str) (file_id id : ℕ) (vis : Visibility) (pos : Position)
    (kind : TypeKind)
    → Interned m name file_id vis pos kind after id
    → after.fnptr_sigs ≡ m.fnptr_sigs
unfolding with_def
Interned-sigs m _ name file_id _ vis pos kind (Interned.known e) = refl
Interned-sigs m _ name file_id _ vis pos kind (Interned.added e) = refl

define_alias-sigs :
    (m after : ModuleSymbols) (name : Str) (ty : LangType) (file_id id : ℕ) (pos : Position)
    → define_alias m name ty file_id pos ≡ returns (after, id)
    → after.fnptr_sigs ≡ m.fnptr_sigs
unfolding define_alias
define_alias-sigs m after name ty file_id id pos h =
    let ((t, i), r, e) =
      >>!-eq-returns (intern_type m name file_id private pos (TypeKind.alias ty))
        (λ (t, i).
          modify_at t.types i mark_defined >>! λ types. returns (record t { types = types }, i))
        h in
    let (types, changed, made) =
      >>!-eq-returns (modify_at t.types i mark_defined)
        (λ types. returns (record t { types = types }, i)) e in
    ap (λ x. x.0.fnptr_sigs) (sym (returns-inj made))
    ∙ Interned-sigs m t name file_id i private pos (TypeKind.alias ty)
        (intern_type-Interned m name file_id private pos (TypeKind.alias ty) t i r)

on_type-Keeps :
    (f : TypeDef → Checked TypeDef) (m after : ModuleSymbols) (id : ℕ)
    → on_type f m id ≡ returns after
    → Keeps m.fnptr_sigs after.fnptr_sigs
on_type-Keeps f m after id h =
    Keeps-same m.fnptr_sigs after.fnptr_sigs (ap (λ a. a.fnptr_sigs) (on_type-eq f m after id h).1)

add_function-sigs :
    (m after : ModuleSymbols) (func : FunctionSymbol)
    → add_function m func ≡ ok after
    → after.fnptr_sigs ≡ m.fnptr_sigs
unfolding add_function insert_unless
add_function-sigs m after func h = ground arith

Step-Keeps : (m after : ModuleSymbols) → Step m after → Keeps m.fnptr_sigs after.fnptr_sigs
unfolding set_fields set_enum_variants set_sum_variants add_method intern_fnptr
Step-Keeps m after (interned_type name file_id id vis pos kind fits h) =
    Keeps-same m.fnptr_sigs after.fnptr_sigs (
      Interned-sigs m after name file_id id vis pos kind
        (intern_type-Interned m name file_id vis pos kind after id h))
Step-Keeps m after (defined_alias name ty file_id id pos h) =
    Keeps-same m.fnptr_sigs after.fnptr_sigs (define_alias-sigs m after name ty file_id id pos h)
Step-Keeps m after (fields_set id fields h) = on_type-Keeps _ m after id h
Step-Keeps m after (enum_variants_set id variants h) = on_type-Keeps _ m after id h
Step-Keeps m after (sum_variants_set id variants h) = on_type-Keeps _ m after id h
Step-Keeps m after (method_added id name sig h) = on_type-Keeps _ m after id h
Step-Keeps m after (function_added func h) =
    Keeps-same m.fnptr_sigs after.fnptr_sigs (add_function-sigs m after func h)
Step-Keeps m after (fnptr_interned params return_type id h) =
    intern_sig-Keeps m after (record { params = params; return_type = return_type }) id h

Steps-Keeps : (m after : ModuleSymbols) → Steps m after → Keeps m.fnptr_sigs after.fnptr_sigs
Steps-Keeps m _ none_yet = Keeps-same m.fnptr_sigs m.fnptr_sigs refl
Steps-Keeps m after (then_step {middle = middle} run s) =
    let first = Steps-Keeps m middle run in
    let last = Step-Keeps middle after s in
    record {
      finds = λ sig i h. last.finds sig i (first.finds sig i h);
      stands = λ i s h. last.stands i s (first.stands i s h);
    }

-- Of two signatures interned at any two times in the life of a table, whatever operations run
-- between, the ids are the same exactly where the signatures are. The tables have room for one more.
pub intern_sig_iff :
    (m first second after : ModuleSymbols) (s t : FnPtrSig) (i j : ℕ)
    → length m.fnptr_sigs ≤ 4294967295
    → length second.fnptr_sigs ≤ 4294967295
    → intern_sig m s ≡ returns (first, i)
    → Steps first second
    → intern_sig second t ≡ returns (after, j)
    → (i ≡ j) ↔ (s ≡ t)
unfolding fnptr_sig
intern_sig_iff m first second after s t i j room room' one run two =
    let (m1, i1, r1, is_s, found1) = intern_sig-returns m s room in
    let e1 = returns-inj (sym r1 ∙ one) in
    let (m2, j1, r2, is_t, found2) = intern_sig-returns second t room' in
    let e2 = returns-inj (sym r2 ∙ two) in
    let between = Steps-Keeps first second run in
    let last = intern_sig-Keeps second after t j two in
    let s_at : fnptr_sig first i ≡ returns s = subst (λ x. fnptr_sig x.0 x.1 ≡ returns s) e1 is_s in
    let t_at : fnptr_sig after j ≡ returns t = subst (λ x. fnptr_sig x.0 x.1 ≡ returns t) e2 is_t in
    let s_first = expect-eq (get_elem? first.fnptr_sigs i) s_at in
    let s_later : fnptr_sig after i ≡ returns s =
      ap expect (last.stands i s (between.stands i s s_first)) in
    let found : Known first s i = subst (λ x. Known x.0 s x.1) e1 found1 in
    let same : intern_sig second s ≡ returns (second, i) =
      intern_sig-Known second s i (between.finds s i found.0, found.1) in
    (
      λ e. returns-inj (sym s_later ∙ ap (fnptr_sig after) e ∙ t_at),
      λ e. ap (λ x. x.1) (returns-inj (sym same ∙ ap (intern_sig second) e ∙ two)),
    )
