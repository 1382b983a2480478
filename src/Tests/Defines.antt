-- ===== src/Tests/Defines.antt =====
-- The define table at concrete defines of two modules.
use aspect.Prelude.{
  ℕ, ◌≤◌, ◌↔◌, ◌≡◌, ◌≢◌, refl, ap, true, false, some, [], ◌∷◌, arith, Str, codes, str_eq, ok,
  out_of_fuel, ◌>>=◌, Ensures,
}
use mathlib.Core.List.{Memᴰ}
use aspect.Lexer.Position.{Position}
use aspect.Lexer.Token.{Token, TokenKind}
use aspect.Preprocessor.Error.{directive}
use aspect.Preprocessor.Defines.{
  Define, survives, retain, keep, DefineTable, FileModules, module_of, lookup, defs_of, define,
  undefine,
}
use aspect.Preprocessor.Defines.Scoped.{ScopedDefines, contains, get, expand_into}
use aspect.Preprocessor.Defines.Expansion.{expand_into_total}
use aspect.Preprocessor.Defines.Visibility.{IsConsistent, define-IsConsistent, Elsewhere}
use aspect.Preprocessor.Defines.Views.{
  undefine_iff, count_seen, at_most_one_seen, two_imports_seen, undefine-get,
}

abbrev in_file : ℕ → Position
in_file file_id = record { line = 1; column = 1; file_id = file_id }

abbrev word : Str → Token ℕ
word s = record { kind = TokenKind.identifier s; pos = in_file 0; lexeme = s }

-- File 0 is of module `a`, file 1 of module `b`.
abbrev modules : FileModules
modules = some (codes "a") ∷ some (codes "b") ∷ []

-- `LIMIT` of module `a`, which stands for itself.
abbrev limits : DefineTable ℕ
limits =
    (
      codes "LIMIT",
      record { tokens = word (codes "LIMIT") ∷ []; origin = directive (in_file 0) } ∷ [],
    )
    ∷ []

limits-IsConsistent : IsConsistent modules limits
unfolding lookup
limits-IsConsistent = ((tt, tt), refl, tt)

abbrev view : Str → ScopedDefines ℕ
view module_path = record {
  table = limits;
  module_path = module_path;
  imports = [];
  file_modules = modules;
}

define-IsConsistent_example :
    Ensures
      (IsConsistent modules)
      (define (codes "LIMIT") [] (directive (in_file 1)) modules limits)
define-IsConsistent_example =
    define-IsConsistent modules (codes "LIMIT") [] (directive (in_file 1)) limits
      limits-IsConsistent

undefine_iff_example :
    IsConsistent modules (undefine (codes "LIMIT") 0 modules limits)
    × ((other : Str) (def : Define ℕ)
        → Memᴰ def (defs_of other (undefine (codes "LIMIT") 0 modules limits)) ↔ (
            Memᴰ def (defs_of other limits)
            × (codes "LIMIT" ≡ other → Elsewhere modules 0 def.origin)))
undefine_iff_example = undefine_iff (codes "LIMIT") 0 modules limits limits-IsConsistent

-- The module that made the define removes it.
limit_gone : undefine (codes "LIMIT") 0 modules limits ≡ []
unfolding undefine retain survives keep module_of str_eq
limit_gone = refl

at_most_one_seen_example : count_seen (view (codes "a")) (defs_of (codes "LIMIT") limits) ≤ 1
at_most_one_seen_example =
    at_most_one_seen (view (codes "a")) (codes "LIMIT") limits-IsConsistent refl

modules_differ : module_of modules 0 ≢ module_of modules 1
unfolding module_of str_eq
modules_differ =
    λ e. let same : true ≡ false = ap (str_eq (codes "a")) e in absurd (ground (arith, same))

imported :
    (contains (codes "a" ∷ codes "b" ∷ []) (module_of modules 0) ≡ true)
    × (contains (codes "a" ∷ codes "b" ∷ []) (module_of modules 1) ≡ true)
unfolding contains module_of str_eq
imported = (refl, refl)

two_imports_seen_example :
    (table : DefineTable ℕ) × ((define (codes "LIMIT") [] (directive (in_file 0)) modules []
        >>= λ t. define (codes "LIMIT") [] (directive (in_file 1)) modules t)
      ≡ ok table)
    × (count_seen
          (record {
            table = table;
            module_path = codes "main";
            imports = codes "a" ∷ codes "b" ∷ [];
            file_modules = modules;
          })
          (defs_of (codes "LIMIT") table)
        ≡ 2)
two_imports_seen_example =
    two_imports_seen (codes "LIMIT") (codes "main") (codes "a" ∷ codes "b" ∷ []) modules [] []
      (in_file 0) (in_file 1) modules_differ imported.0 imported.1

not_imported : contains [] (module_of modules 1) ≡ false
unfolding contains
not_imported = refl

seen_from_a : codes "a" ≢ module_of modules 1
unfolding module_of str_eq
seen_from_a = modules_differ

undefine-get_example :
    get
      (record (view (codes "a")) { table = undefine (codes "LIMIT") 1 modules limits })
      (codes "LIMIT")
    ≡ get (view (codes "a")) (codes "LIMIT")
undefine-get_example =
    undefine-get (view (codes "a")) (codes "LIMIT") (codes "LIMIT") 1 limits-IsConsistent
      seen_from_a not_imported

expand_into_total_example : expand_into (view (codes "a")) (word (codes "LIMIT")) ≢ out_of_fuel
expand_into_total_example = expand_into_total (view (codes "a")) (word (codes "LIMIT"))
