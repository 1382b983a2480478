-- ===== src/Symbol/Module/Structural.antt =====
-- Function-pointer ids of src/symbol/module.rs, one for each signature.
use aspect.Prelude.{
  ℕ, suc, ◌≤◌, ◌≡◌, ◌↔◌, refl, ap, subst, ◌∙◌, inl, inr, Bool, true, none, some, List, [], ◌∷◌,
  ◌++◌, arith, length, get_elem?, get_elem?-lt, get_elem?-snoc, Option-cases, Bool-cases,
}
use aspect.Prelude.Checked.{returns, expect, expect_u32-returns}
use aspect.Lexer.LangType.{LangType, type_eq_iff}
use aspect.Symbol.Module.{FnPtrSig, ModuleSymbols}
use aspect.Symbol.Module.Bodies.{or_next, position}
use aspect.Symbol.Module.Signatures.{types_eq, sig_eq, sig_at, intern_sig, fnptr_sig}

types_eq_iff : (ts us : List LangType) → (types_eq ts us ≡ true) ↔ (ts ≡ us)
unfolding types_eq
types_eq_iff [] [] = ground arith
types_eq_iff [] (u ∷ us) = ground arith
types_eq_iff (t ∷ ts) [] = ground arith
types_eq_iff (t ∷ ts) (u ∷ us) = ground (arith, type_eq_iff t u, types_eq_iff ts us)

sig_eq_iff : (s t : FnPtrSig) → (sig_eq s t ≡ true) ↔ (s ≡ t)
unfolding sig_eq
sig_eq_iff s t =
    ground (arith, types_eq_iff s.params t.params, type_eq_iff s.return_type t.return_type)

module _ {ℓ} {A : Type ℓ} (p : A → Bool) where
  -- A position is that of an element that passes.
  pub position-some :
      (xs : List A) (i : ℕ)
      → position p xs ≡ some i
      → (x : A) × (get_elem? xs i ≡ some x) × (p x ≡ true)
  unfolding position or_next
  position-some [] i h = cc
  position-some (x ∷ xs) i h = elim (Bool-cases (p x)) [
    | inl e ↦
        let first : 0 ≡ i = ground (arith, e, h) in
        subst (λ j. (y : A) × (get_elem? (x ∷ xs) j ≡ some y) × (p y ≡ true)) first (x, refl, e)
    | inr e ↦ elim (Option-cases (position p xs)) [
      | inl n ↦ absurd (ground (arith, e, n, h))
      | inr (j, found) ↦
          let later : suc j ≡ i = ground (arith, e, found, h) in
          subst (λ j. (y : A) × (get_elem? (x ∷ xs) j ≡ some y) × (p y ≡ true)) later
            (position-some xs j found)
    ]
  ]

  pub position-snoc :
      (xs : List A) (a : A)
      → position p xs ≡ none
      → p a ≡ true
      → position p (xs ++ a ∷ []) ≡ some (length xs)
  unfolding position or_next
  position-snoc [] a h e = ground arith
  position-snoc (x ∷ xs) a h e = ground (arith, position-snoc xs a)

sig-last :
    (sigs : List FnPtrSig) (sig : FnPtrSig) → get_elem? (sigs ++ sig ∷ []) (length sigs) ≡ some sig
sig-last sigs sig = ground (arith, get_elem?-snoc sigs sig (length sigs))

pub sig-keeps :
    (sigs : List FnPtrSig) (sig s : FnPtrSig) (i : ℕ)
    → get_elem? sigs i ≡ some s
    → get_elem? (sigs ++ sig ∷ []) i ≡ some s
sig-keeps sigs sig s i h = ground (arith, get_elem?-snoc sigs sig i, get_elem?-lt sigs i h)

-- The table after a signature was interned, and its id.
abbrev pub Known : ModuleSymbols → FnPtrSig → ℕ → Type 0
Known m sig id = (position (λ s. sig_eq s sig) m.fnptr_sigs ≡ some id) × (id ≤ 4294967295)

pub intern_sig-Known :
    (m : ModuleSymbols) (sig : FnPtrSig) (id : ℕ)
    → Known m sig id
    → intern_sig m sig ≡ returns (m, id)
unfolding intern_sig sig_at
intern_sig-Known m sig id (e, h) = rw (e, expect_u32-returns id h) refl

-- Interning a signature in a table with room for one more never panics. Afterwards the id stands for
-- that signature, and a search for the signature finds the id.
pub intern_sig-returns :
    (m : ModuleSymbols) (sig : FnPtrSig)
    → length m.fnptr_sigs ≤ 4294967295
    → (after : ModuleSymbols) × (id : ℕ) × (intern_sig m sig ≡ returns (after, id))
      × (fnptr_sig after id ≡ returns sig)
      × Known after sig id
unfolding intern_sig sig_at fnptr_sig
intern_sig-returns m sig room = elim (Option-cases (position (λ s. sig_eq s sig) m.fnptr_sigs)) [
  | inl e ↦
      let after = record m { fnptr_sigs = m.fnptr_sigs ++ sig ∷ [] } in
      (
        after,
        length m.fnptr_sigs,
        rw (e, expect_u32-returns (length m.fnptr_sigs) room) refl,
        ap expect (sig-last m.fnptr_sigs sig),
        (position-snoc (λ s. sig_eq s sig) m.fnptr_sigs sig e ((sig_eq_iff sig sig).1 refl), room),
      )
  | inr (id, e) ↦
      let (s, at_id, same) = position-some (λ s. sig_eq s sig) m.fnptr_sigs id e in
      let bound : id ≤ 4294967295 = omega (arith, get_elem?-lt m.fnptr_sigs id at_id) in
      (
        m,
        id,
        intern_sig-Known m sig id (e, bound),
        ap expect at_id ∙ ap returns ((sig_eq_iff s sig).0 same),
        (e, bound),
      )
]
