-- ===== src/Symbol/Module/Functions.antt =====
-- The function table of src/symbol/module.rs.
use aspect.Prelude.{
  Bool, true, false, not, ◌&&◌, ◌||◌, Option, none, some, List, [], ◌∷◌, if◌then◌else◌, Str, str_eq,
  Result, ok, err,
}
use aspect.Lexer.LangType.{LangType, type_eq}
use aspect.Scope.{get}
use aspect.Symbol.Table.{SymbolError, function_already_defined, signature_mismatch}
use aspect.Symbol.Module.{FunctionSymbol, ModuleSymbols}

-- The derived `==` on `Vec<(LangType, String)>`.
unfoldable pub params_eq : List (LangType × Str) → List (LangType × Str) → Bool
params_eq [] [] = true
params_eq [] (q ∷ qs) = false
params_eq (p ∷ ps) [] = false
params_eq ((t, a) ∷ ps) ((u, b) ∷ qs) = (type_eq t u && str_eq a b) && params_eq ps qs

unfoldable pub disagrees : FunctionSymbol → FunctionSymbol → Bool
unfolding params_eq
disagrees existing func =
    not (params_eq existing.params func.params)
    || not (type_eq existing.return_type func.return_type)

-- The guards of `add_function` against what the name stands for already.
unfoldable pub refusal : Option FunctionSymbol → FunctionSymbol → Option SymbolError
unfolding disagrees
refusal none func = none
refusal (some existing) func =
    if existing.has_body && func.has_body
    then some (function_already_defined func.name)
    else if not existing.has_body && (func.has_body && disagrees existing func)
    then some (signature_mismatch func.name)
    else none

unfoldable pub insert_unless :
    Option SymbolError → ModuleSymbols → FunctionSymbol → Result SymbolError ModuleSymbols
insert_unless (some error) m func = err error
insert_unless none m func = ok (record m { functions = (func.name, func) ∷ m.functions })

unfoldable pub add_function : ModuleSymbols → FunctionSymbol → Result SymbolError ModuleSymbols
unfolding insert_unless refusal
add_function m func = insert_unless (refusal (get m.functions func.name) func) m func

unfoldable pub lookup_function : ModuleSymbols → Str → Option FunctionSymbol
lookup_function m name = get m.functions name
