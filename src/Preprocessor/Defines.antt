-- ===== src/Preprocessor/Defines.antt =====
-- The define table and its module-scoped views (src/preprocessor/defines.rs). The table is a map
-- from a name to the list of its defines, kept as an association list without repeated names.
pub mod Scoped
pub mod Expansion
pub mod Visibility
pub mod Views
use aspect.Prelude.{
  ℕ, zero, suc, ◌≡◌, Bool, true, false, not, ◌&&◌, ◌||◌, Option, none, some, List, [], ◌∷◌, ◌++◌,
  Str, codes, str_eq, if◌then◌else◌, get_elem?, any, length, ok, err, out_of_fuel, ◌>>=◌,
}
use mathlib.Core.Option.{get_or}
use aspect.Lexer.Position.{Position}
use aspect.Lexer.Token.{Token, TokenKind}
use aspect.Preprocessor.Error.{
  DefineOrigin, builtin, cli, directive, PreprocessError, redefinition, cli_redefinition,
  Preprocess,
}

pub record Define (F : Type 0) : Type 0 where
  pub tokens : List (Token F)
  pub origin : DefineOrigin

abbrev pub DefineTable : Type 0 → Type 0
DefineTable F = List (Str × List (Define F))

-- The declared module of each file, by file id.
abbrev pub FileModules : Type 0
FileModules = List (Option Str)

-- `module_of`: the root module `""` for a file with no entry or no declaration.
unfoldable pub module_of : FileModules → ℕ → Str
module_of file_modules file_id = elim (get_elem? file_modules file_id) [
  | some (some m) ↦ m
  | _ ↦ []
]

-- `home_module`: `none` for a global.
unfoldable pub home_module : DefineOrigin → FileModules → Option Str
home_module builtin file_modules = none
home_module cli file_modules = none
home_module (directive pos) file_modules = some (module_of file_modules pos.file_id)

-- Whether defines with these homes may not share a name.
unfoldable pub collides : Option Str → Option Str → Bool
collides (some a) (some b) = str_eq a b
collides _ _ = true

unfoldable pub redefinition_error : Str → DefineOrigin → DefineOrigin → PreprocessError
redefinition_error name (directive pos) previous = redefinition name previous pos
redefinition_error name _ previous = cli_redefinition name previous

-- What a `$undefine` in `this_file` leaves in place.
unfoldable pub survives : ℕ → FileModules → DefineOrigin → Bool
survives this_file file_modules (directive pos) =
    not (str_eq (module_of file_modules pos.file_id) (module_of file_modules this_file))
survives this_file file_modules _ = true

module _ {F : Type 0} where
  unfoldable pub lookup : Str → DefineTable F → Option (List (Define F))
  lookup name [] = none
  lookup name ((key, defs) ∷ m) = if str_eq key name then some defs else lookup name m

  -- `map.entry(name).or_default().push(def)`.
  unfoldable pub push : Str → Define F → DefineTable F → DefineTable F
  push name def [] = (name, def ∷ []) ∷ []
  push name def ((key, defs) ∷ m) =
      if str_eq key name then (key, defs ++ def ∷ []) ∷ m else (key, defs) ∷ push name def m

  -- The first existing define, in list order, that collides with the new home.
  unfoldable pub collision : Option Str → FileModules → List (Define F) → Option (Define F)
  collision home file_modules [] = none
  collision home file_modules (def ∷ defs) =
      if collides home (home_module def.origin file_modules)
      then some def
      else collision home file_modules defs

  unfoldable pub defs_of : Str → DefineTable F → List (Define F)
  unfolding lookup
  defs_of name table = get_or (lookup name table) []

  -- `DefineTable::define`.
  unfoldable pub define :
      Str → List (Token F) → DefineOrigin → FileModules → DefineTable F → Preprocess (DefineTable F)
  unfolding collision push defs_of redefinition_error
  define name tokens origin file_modules table =
      elim (collision (home_module origin file_modules) file_modules (defs_of name table)) [
        | some def ↦ err (redefinition_error name origin def.origin)
        | none ↦ ok (push name (record { tokens = tokens; origin = origin }) table)
      ]

  unfoldable pub retain : ℕ → FileModules → List (Define F) → List (Define F)
  unfolding survives
  retain this_file file_modules [] = []
  retain this_file file_modules (def ∷ defs) =
      if survives this_file file_modules def.origin
      then def ∷ retain this_file file_modules defs
      else retain this_file file_modules defs

  -- A name whose list is empty has no entry.
  unfoldable pub keep : Str → List (Define F) → DefineTable F → DefineTable F
  keep key [] m = m
  keep key (d ∷ ds) m = (key, d ∷ ds) ∷ m

  -- `DefineTable::undefine`: a name whose list gets empty is removed.
  unfoldable pub undefine : Str → ℕ → FileModules → DefineTable F → DefineTable F
  unfolding retain keep
  undefine name this_file file_modules [] = []
  undefine name this_file file_modules ((key, defs) ∷ m) =
      if str_eq key name
      then keep key (retain this_file file_modules defs) m
      else (key, defs) ∷ undefine name this_file file_modules m
