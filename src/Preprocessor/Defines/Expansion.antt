-- ===== src/Preprocessor/Defines/Expansion.antt =====
-- The self-reference guard of `expand_token` (src/preprocessor/defines.rs) and its depth.
use aspect.Prelude.{
  ℕ, zero, suc, ◌+◌, ◌≤◌, ◌<◌, ◌≡◌, refl, ◌≢◌, inl, inr, false, none, some, List, [], ◌∷◌, arith,
  Str, str_eq_iff, Option-cases, if◌then◌else◌, length, out_of_fuel, Result, Meets, Meets-ne,
  Meets-bind,
}
use aspect.Lexer.Token.{Token}
use aspect.Preprocessor.Defines.{Define, DefineTable, lookup, defs_of}
use aspect.Preprocessor.Defines.Scoped.{
  ScopedDefines, contains, flat_map, find, get, substitution, expand_token, expand_into,
}

abbrev pub Always {ℓ} : {A : Type ℓ} → A → Type 0
Always a = Unit

flat_map-Meets {ℓ κ} :
    {E : Type 0} {A : Type ℓ} {B : Type κ} (f : A → Result E (List B)) (xs : List A)
    → ((x : A) → Meets Always (λ e. ⊥) (f x))
    → Meets Always (λ e. ⊥) (flat_map f xs)
unfolding flat_map
flat_map-Meets f [] h = tt
flat_map-Meets f (x ∷ xs) h =
    Meets-bind Always Always (λ e. ⊥) (f x) _ (h x)
      λ ys _. Meets-bind Always Always (λ e. ⊥) (flat_map f xs) _ (flat_map-Meets f xs h) λ zs _. tt

module _ {F : Type 0} where
  -- How many names of the table are not being expanded.
  free : DefineTable F → List Str → ℕ
  free [] active = 0
  free ((key, defs) ∷ m) active = (if contains active key then 0 else 1) + free m active

  free-le-length : (m : DefineTable F) (active : List Str) → free m active ≤ length m
  unfolding free
  free-le-length [] active = omega arith
  free-le-length ((key, defs) ∷ m) active = ground (arith, free-le-length m active)

  free_mono :
      (m : DefineTable F) (name : Str) (active : List Str) → free m (name ∷ active) ≤ free m active
  unfolding free contains
  free_mono [] name active = omega arith
  free_mono ((key, defs) ∷ m) name active = ground (arith, free_mono m name active)

  free-lt :
      (m : DefineTable F) (name : Str) (active : List Str)
      → contains active name ≡ false
      → lookup name m ≢ none
      → free m (name ∷ active) < free m active
  unfolding free contains lookup
  free-lt [] name active c h = absurd (h refl)
  free-lt ((key, defs) ∷ m) name active c h = ground (
    arith,
    free_mono m name active,
    free-lt m name active c,
    str_eq_iff key name,
    str_eq_iff name key,
  )

  -- Only a defined name that is not being expanded is substituted.
  substitution_guard :
      (d : ScopedDefines F) (active : List Str) (token : Token F) {name : Str} {def : Define F}
      → substitution d active token ≡ some (name, def)
      → (contains active name ≡ false) × (lookup name d.table ≢ none)
  unfolding substitution get defs_of find
  substitution_guard d active token e = ground arith

  expand_token-Meets :
      (fuel : ℕ) (d : ScopedDefines F) (active : List Str) (token : Token F)
      → free d.table active < fuel
      → Meets Always (λ e. ⊥) (expand_token fuel d active token)
  unfolding expand_token
  expand_token-Meets zero d active token h = absurd (omega arith)
  expand_token-Meets (suc fuel) d active token h =
      elim (Option-cases (substitution d active token)) [
        | inl e ↦ rw (e, expand_token, Meets) tt
        | inr ((name, def), e) ↦
            rw (e, expand_token, Meets)
              (let (fresh, defined) = substitution_guard d active token e in
                flat_map-Meets _ def.tokens λ t.
                  expand_token-Meets fuel d (name ∷ active) _
                    (omega (arith, free-lt d.table name active fresh defined)))
      ]

  pub expand_into-Meets :
      (d : ScopedDefines F) (token : Token F) → Meets Always (λ e. ⊥) (expand_into d token)
  unfolding expand_into
  expand_into-Meets d token =
      expand_token-Meets (suc (length d.table)) d [] token
        (omega (arith, free-le-length d.table []))

  -- The expansion of any token in any view ends within its fuel, one level for each name of the
  -- table and one more.
  pub expand_into_total :
      (d : ScopedDefines F) (token : Token F) → expand_into d token ≢ out_of_fuel
  expand_into_total d token =
      Meets-ne Always (λ e. ⊥) (expand_into d token) (expand_into-Meets d token)
