-- ===== src/Symbol/Module/Redefinition.antt =====
-- The guards of `add_function` of src/symbol/module.rs.
use aspect.Prelude.{
  ◌≡◌, ◌↔◌, ◌⊎◌, refl, sym, ap, subst, ◌∙◌, inl, inr, true, false, none, some, List, [], ◌∷◌, arith,
  if◌then◌else◌, Str, str_eq, str_eq_iff, ok, err, Option-cases, some-inj,
}
use aspect.Lexer.LangType.{LangType, type_eq_iff}
use aspect.Scope.{get}
use aspect.Scope.Bindings.{get-here}
use aspect.Symbol.Table.{function_already_defined, signature_mismatch}
use aspect.Symbol.Module.{FunctionSymbol, ModuleSymbols}
use aspect.Symbol.Module.Functions.{
  params_eq, disagrees, refusal, insert_unless, add_function, lookup_function,
}

pub params_eq_iff : (ps qs : List (LangType × Str)) → (params_eq ps qs ≡ true) ↔ (ps ≡ qs)
unfolding params_eq
params_eq_iff [] [] = ground arith
params_eq_iff [] (q ∷ qs) = ground arith
params_eq_iff (p ∷ ps) [] = ground arith
params_eq_iff ((t, a) ∷ ps) ((u, b) ∷ qs) =
    ground (arith, type_eq_iff t u, str_eq_iff a b, params_eq_iff ps qs)

-- The same parameters, with their names, and the same return type.
pub record SameSignature (f g : FunctionSymbol) : Type 0 where
  pub params : f.params ≡ g.params
  pub return_type : f.return_type ≡ g.return_type

disagrees-false : (f g : FunctionSymbol) → (disagrees f g ≡ false) ↔ SameSignature f g
unfolding disagrees
disagrees-false f g =
    ground (arith, params_eq_iff f.params g.params, type_eq_iff f.return_type g.return_type)

-- A body may follow only a declaration of its own signature, if it follows anything.
pub record MayFollow (m : ModuleSymbols) (func : FunctionSymbol) : Type 0 where
  pub bodiless :
      (existing : FunctionSymbol)
      → lookup_function m func.name ≡ some existing
      → func.has_body ≡ true
      → existing.has_body ≡ false
  pub agrees :
      (existing : FunctionSymbol)
      → lookup_function m func.name ≡ some existing
      → func.has_body ≡ true
      → SameSignature existing func

abbrev with_function : ModuleSymbols → FunctionSymbol → ModuleSymbols
with_function m func = record m { functions = (func.name, func) ∷ m.functions }

refusal-cases :
    (existing func : FunctionSymbol)
    → (existing.has_body ≡ true)
        × (func.has_body ≡ true)
        × (refusal (some existing) func ≡ some (function_already_defined func.name))
      ⊎ (existing.has_body ≡ false)
        × (func.has_body ≡ true)
        × (SameSignature existing func → ⊥)
        × (refusal (some existing) func ≡ some (signature_mismatch func.name))
      ⊎ (refusal (some existing) func ≡ none)
        × (func.has_body ≡ true → (existing.has_body ≡ false) × SameSignature existing func)
unfolding refusal
refusal-cases existing func = ground (arith, disagrees-false existing func)

lookup-with :
    (m : ModuleSymbols) (func : FunctionSymbol) (other : Str)
    → lookup_function (with_function m func) other
      ≡ (if str_eq func.name other then some func else lookup_function m other)
unfolding lookup_function get
lookup-with m func other = refl

MayFollow-none :
    (m : ModuleSymbols) (func : FunctionSymbol)
    → get m.functions func.name ≡ none
    → MayFollow m func
unfolding lookup_function
MayFollow-none m func e = record {
  bodiless = λ existing h b. absurd (ground (arith, e, h));
  agrees = λ existing h b. absurd (ground (arith, e, h));
}

MayFollow-some :
    (m : ModuleSymbols) (func existing : FunctionSymbol)
    → get m.functions func.name ≡ some existing
    → (func.has_body ≡ true → (existing.has_body ≡ false) × SameSignature existing func)
    → MayFollow m func
unfolding lookup_function
MayFollow-some m func existing e fits = record {
  bodiless = λ other h b. subst (λ f. f.has_body ≡ false) (some-inj (sym e ∙ h)) (fits b).0;
  agrees = λ other h b. subst (λ f. SameSignature f func) (some-inj (sym e ∙ h)) (fits b).1;
}

-- `add_function` refuses a second body, and refuses a body that does not have the signature of the
-- declaration before it; it takes every other function, which then is what its name stands for,
-- while all other names stand for what they did.
pub add_function-cases :
    (m : ModuleSymbols) (func : FunctionSymbol)
    → ((existing : FunctionSymbol) × (lookup_function m func.name ≡ some existing)
        × (existing.has_body ≡ true)
        × (func.has_body ≡ true)
        × (add_function m func ≡ err (function_already_defined func.name)))
      ⊎ ((existing : FunctionSymbol) × (lookup_function m func.name ≡ some existing)
          × (existing.has_body ≡ false)
          × (func.has_body ≡ true)
          × (SameSignature existing func → ⊥)
          × (add_function m func ≡ err (signature_mismatch func.name)))
      ⊎ MayFollow m func
        × (after : ModuleSymbols) × (add_function m func ≡ ok after)
        × ((other : Str)
            → lookup_function after other
              ≡ (if str_eq func.name other then some func else lookup_function m other))
unfolding add_function lookup_function insert_unless refusal
add_function-cases m func = elim (Option-cases (get m.functions func.name)) [
  | inl e ↦ inr (inr (MayFollow-none m func e, with_function m func, rw e refl, lookup-with m func))
  | inr (existing, e) ↦ elim (refusal-cases existing func) [
    | inl (old, now, r) ↦ inl (existing, e, old, now, rw (e, r) refl)
    | inr (inl (old, now, differs, r)) ↦ inr (inl (existing, e, old, now, differs, rw (e, r) refl))
    | inr (inr (r, fits)) ↦ inr (
        inr (
          MayFollow-some m func existing e fits,
          with_function m func,
          rw (e, r) refl,
          lookup-with m func,
        ))
  ]
]

add_function-declared :
    (m : ModuleSymbols) (func : FunctionSymbol)
    → func.has_body ≡ false
    → add_function m func ≡ ok (with_function m func)
unfolding add_function insert_unless refusal
add_function-declared m func h = elim (Option-cases (get m.functions func.name)) [
  | inl e ↦ rw e refl
  | inr (existing, e) ↦ ground (arith, e)
]

-- What `refusal` says of a body when the name is known.
add_function-known :
    (m : ModuleSymbols) (func existing : FunctionSymbol) (name : Str)
    → func.name ≡ name
    → get m.functions name ≡ some existing
    → add_function m func ≡ insert_unless (refusal (some existing) func) m func
unfolding add_function
add_function-known m func existing name e h =
    ap (λ o. insert_unless (refusal o func) m func) (ap (get m.functions) e ∙ h)

-- A second body for a name whose body is in the table is refused; but a declaration of that name
-- without a body is taken, and after it a second body with the declaration's signature is taken
-- and is what the name then stands for.
pub add_function-second_body :
    (m : ModuleSymbols) (first declared second : FunctionSymbol)
    → lookup_function m first.name ≡ some first
    → first.has_body ≡ true
    → declared.name ≡ first.name
    → declared.has_body ≡ false
    → second.name ≡ first.name
    → second.has_body ≡ true
    → SameSignature declared second
    → (add_function m second ≡ err (function_already_defined second.name))
      × (middle : ModuleSymbols) × (after : ModuleSymbols) × (add_function m declared ≡ ok middle)
      × (add_function middle second ≡ ok after)
      × (lookup_function after first.name ≡ some second)
unfolding lookup_function insert_unless refusal
add_function-second_body m first declared second h b n d n' b' s = (
  add_function-known m second first first.name n' h ∙ rw (refusal, b, b') refl,
  with_function m declared,
  with_function (with_function m declared) second,
  add_function-declared m declared d,
  add_function-known (with_function m declared) second declared declared.name (n' ∙ sym n)
        (get-here m.functions declared.name declared)
      ∙ rw (refusal, d, b', (disagrees-false declared second).1 s) refl,
  subst (λ k. get ((second.name, second) ∷ (declared.name, declared) ∷ m.functions) k ≡ some second)
      n' (get-here ((declared.name, declared) ∷ m.functions) second.name second),
)
