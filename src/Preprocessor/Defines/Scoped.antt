-- ===== src/Preprocessor/Defines/Scoped.antt =====
-- `ScopedDefines` of src/preprocessor/defines.rs: what one file sees of the define table, and the
-- expansion of identifiers. A token list is what a call appends to the source's `out`.
use aspect.Prelude.{
  ℕ, zero, suc, Bool, true, false, ◌||◌, Option, none, some, List, [], ◌∷◌, ◌++◌, Str, str_eq,
  if◌then◌else◌, any, length, Result, ok, out_of_fuel, ◌>>=◌,
}
use aspect.Lexer.Token.{Token, TokenKind}
use aspect.Preprocessor.Error.{DefineOrigin, directive, Preprocess}
use aspect.Preprocessor.Defines.{Define, DefineTable, FileModules, module_of, defs_of}

pub record ScopedDefines (F : Type 0) : Type 0 where
  pub table : DefineTable F
  pub module_path : Str
  pub imports : List Str
  pub file_modules : FileModules

-- `iter().any(|m| m == name)`.
unfoldable pub contains : List Str → Str → Bool
contains names name = any (λ n. str_eq n name) names

unfoldable pub identifier_of : {F : Type 0} → TokenKind F → Option Str
identifier_of (TokenKind.identifier name) = some name
identifier_of _ = none

-- Each result of `f`, one after the other, up to the first error.
unfoldable pub flat_map {ℓ κ} :
    {E : Type 0} {A : Type ℓ} {B : Type κ} → (A → Result E (List B)) → List A → Result E (List B)
flat_map f [] = ok []
flat_map f (x ∷ xs) = do ys ← f x; zs ← flat_map f xs; ok (ys ++ zs)

module _ {F : Type 0} where
  unfoldable pub sees_origin : ScopedDefines F → DefineOrigin → Bool
  unfolding contains
  sees_origin d (directive pos) =
      str_eq (module_of d.file_modules pos.file_id) d.module_path
      || contains d.imports (module_of d.file_modules pos.file_id)
  sees_origin d _ = true

  -- `ScopedDefines::sees`.
  unfoldable pub sees : ScopedDefines F → Define F → Bool
  unfolding sees_origin
  sees d def = sees_origin d def.origin

  unfoldable pub find : (Define F → Bool) → List (Define F) → Option (Define F)
  find p [] = none
  find p (def ∷ defs) = if p def then some def else find p defs

  -- `ScopedDefines::get`: the first visible define of the name.
  unfoldable pub get : ScopedDefines F → Str → Option (Define F)
  unfolding find
  get d name = find (sees d) (defs_of name d.table)

  unfoldable pub is_defined : ScopedDefines F → Str → Bool
  unfolding get
  is_defined d name = elim (get d name) [ none ↦ false | some def ↦ true ]

  -- The name and the define that replace a token, unless the name is being expanded already.
  unfoldable pub substitution : ScopedDefines F → List Str → Token F → Option (Str × Define F)
  substitution d active token = elim (identifier_of token.kind) [
    | none ↦ none
    | some name ↦
        if contains active name
        then none
        else elim (get d name) [ none ↦ none | some def ↦ some (name, def) ]
  ]

  -- `ScopedDefines::expand_token`; the fuel bounds the depth of nested expansions.
  unfoldable pub expand_token :
      ℕ → ScopedDefines F → List Str → Token F → Preprocess (List (Token F))
  expand_token zero d active token = out_of_fuel
  expand_token (suc fuel) d active token = elim (substitution d active token) [
    | none ↦ ok (token ∷ [])
    | some (name, def) ↦
        flat_map
          (λ replacement.
            expand_token fuel d (name ∷ active) (record replacement { pos = token.pos }))
          def.tokens
  ]

  -- `ScopedDefines::expand_into`.
  unfoldable pub expand_into : ScopedDefines F → Token F → Preprocess (List (Token F))
  expand_into d token = expand_token (suc (length d.table)) d [] token
