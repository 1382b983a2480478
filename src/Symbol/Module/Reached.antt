-- ===== src/Symbol/Module/Reached.antt =====
-- The tables that the operations of src/symbol/module.rs build, starting from the empty one.
use aspect.Prelude.{ℕ, ◌≡◌, sym, subst, List, arith, Str, ok}
use aspect.Prelude.Checked.{returns}
use aspect.Lexer.Position.{Position}
use aspect.Lexer.LangType.{LangType}
use aspect.Scope.{get}
use aspect.Symbol.Module.{
  FieldInfo, MethodSig, SumVariant, Visibility, private, TypeKind, FunctionSymbol, FnPtrSig,
  ModuleSymbols, new, as_struct_body,
}
use aspect.Symbol.Module.Registry.{intern_type, define_alias, mark_defined}
use aspect.Symbol.Module.Bodies.{
  set_fields, set_enum_variants, set_sum_variants, add_method, kind_with_fields,
  kind_with_enum_variants, kind_with_sum_variants, kind_with_method, define_body, change_body,
}
use aspect.Symbol.Module.Functions.{add_function, insert_unless}
use aspect.Symbol.Module.Signatures.{intern_fnptr, intern_sig, sig_at}
use aspect.Symbol.Module.WellFormed.{
  WellFormed, IsWellFormed, IsIndexedKind, Changed-WellFormed, on_type-WellFormed,
}
use aspect.Symbol.Module.Fields.{
  define_body-Keeps, change_body-Keeps, mark_defined-Keeps, kind_with_fields-Fits,
  kind_with_enum_variants-Fits, kind_with_sum_variants-Fits, kind_with_method-Fits,
}
use aspect.Symbol.Module.Interning.{intern_type-Interned, Interned-WellFormed, define_alias-eq}

-- One operation that changes the table, where it returns. A new type's kind comes with a body whose
-- index fits, such as the empty one.
pub data Step (m after : ModuleSymbols) : Type 0 where
  interned_type :
      (name : Str) (file_id id : ℕ) (vis : Visibility) (pos : Position) (kind : TypeKind)
      → IsIndexedKind kind
      → intern_type m name file_id vis pos kind ≡ returns (after, id)
      → Step m after
  defined_alias :
      (name : Str) (ty : LangType) (file_id id : ℕ) (pos : Position)
      → define_alias m name ty file_id pos ≡ returns (after, id)
      → Step m after
  fields_set :
      (id : ℕ) (fields : List FieldInfo) → set_fields m id fields ≡ returns after → Step m after
  enum_variants_set :
      (id : ℕ) (variants : List Str)
      → set_enum_variants m id variants ≡ returns after
      → Step m after
  sum_variants_set :
      (id : ℕ) (variants : List SumVariant)
      → set_sum_variants m id variants ≡ returns after
      → Step m after
  method_added :
      (id : ℕ) (name : Str) (sig : MethodSig)
      → add_method m id name sig ≡ returns after
      → Step m after
  function_added : (func : FunctionSymbol) → add_function m func ≡ ok after → Step m after
  fnptr_interned :
      (params : List LangType) (return_type : LangType) (id : ℕ)
      → intern_fnptr m params return_type ≡ returns (after, id)
      → Step m after

-- Any number of operations.
pub data Steps (m : ModuleSymbols) : ModuleSymbols → Type 0 where
  none_yet : Steps m m
  then_step : {middle after : ModuleSymbols} → Steps m middle → Step middle after → Steps m after

pub data Reached : ModuleSymbols → Type 0 where
  start : Reached new
  next : {m after : ModuleSymbols} → Reached m → Step m after → Reached after

new-WellFormed : IsWellFormed new
unfolding IsWellFormed get
new-WellFormed = record {
  ids = λ i d h. cc;
  named = λ i d h. cc;
  known = λ name i h. cc;
  indexed = λ i d h. cc;
}

alias-IsIndexedKind : (ty : LangType) → IsIndexedKind (TypeKind.alias ty)
unfolding IsIndexedKind as_struct_body
alias-IsIndexedKind ty body h = cc

define_alias-WellFormed :
    (m after : ModuleSymbols) (name : Str) (ty : LangType) (file_id id : ℕ) (pos : Position)
    → IsWellFormed m
    → define_alias m name ty file_id pos ≡ returns (after, id)
    → IsWellFormed after
unfolding IsWellFormed
define_alias-WellFormed m after name ty file_id id pos w h =
    let (middle, first, changed, names) = define_alias-eq m after name ty file_id id pos h in
    subst (WellFormed after.types) (sym names) (
      Changed-WellFormed mark_defined changed middle.types_by_name mark_defined-Keeps (
        Interned-WellFormed m name file_id private pos (TypeKind.alias ty) w
          (alias-IsIndexedKind ty) first))

-- A function or a signature more leaves the named types as they are.
pub add_function-types :
    (m after : ModuleSymbols) (func : FunctionSymbol)
    → add_function m func ≡ ok after
    → (after.types ≡ m.types) × (after.types_by_name ≡ m.types_by_name)
unfolding add_function insert_unless
add_function-types m after func h = ground arith

pub intern_sig-types :
    (m after : ModuleSymbols) (sig : FnPtrSig) (id : ℕ)
    → intern_sig m sig ≡ returns (after, id)
    → (after.types ≡ m.types) × (after.types_by_name ≡ m.types_by_name)
unfolding intern_sig sig_at
intern_sig-types m after sig id h = ground arith

same-WellFormed :
    (m after : ModuleSymbols)
    → (after.types ≡ m.types) × (after.types_by_name ≡ m.types_by_name)
    → IsWellFormed m
    → IsWellFormed after
unfolding IsWellFormed
same-WellFormed m after (types, names) w =
    subst (λ ts. WellFormed ts after.types_by_name) (sym types)
      (subst (WellFormed m.types) (sym names) w)

Step-WellFormed : (m after : ModuleSymbols) → IsWellFormed m → Step m after → IsWellFormed after
unfolding set_fields set_enum_variants set_sum_variants add_method intern_fnptr
Step-WellFormed m after w (interned_type name file_id id vis pos kind fits h) =
    Interned-WellFormed m name file_id vis pos kind w fits
      (intern_type-Interned m name file_id vis pos kind after id h)
Step-WellFormed m after w (defined_alias name ty file_id id pos h) =
    define_alias-WellFormed m after name ty file_id id pos w h
Step-WellFormed m after w (fields_set id fields h) =
    on_type-WellFormed (define_body (kind_with_fields fields)) m after id
      (define_body-Keeps (kind_with_fields fields) (kind_with_fields-Fits fields)) w h
Step-WellFormed m after w (enum_variants_set id variants h) =
    on_type-WellFormed (define_body (kind_with_enum_variants variants)) m after id
      (define_body-Keeps (kind_with_enum_variants variants) (kind_with_enum_variants-Fits variants))
      w h
Step-WellFormed m after w (sum_variants_set id variants h) =
    on_type-WellFormed (define_body (kind_with_sum_variants variants)) m after id
      (define_body-Keeps (kind_with_sum_variants variants) (kind_with_sum_variants-Fits variants)) w
      h
Step-WellFormed m after w (method_added id name sig h) =
    on_type-WellFormed (change_body (kind_with_method name sig)) m after id
      (change_body-Keeps (kind_with_method name sig) (kind_with_method-Fits name sig)) w h
Step-WellFormed m after w (function_added func h) =
    same-WellFormed m after (add_function-types m after func h) w
Step-WellFormed m after w (fnptr_interned params return_type id h) =
    same-WellFormed m after
      (intern_sig-types m after (record { params = params; return_type = return_type }) id h) w

-- In every table that the operations build, a definition stands at its own id and its name leads
-- to that id, every name of the map leads to a definition of that name, and a type-struct's field
-- index leads each name to a field of that name.
pub Reached-IsWellFormed : (m : ModuleSymbols) → Reached m → IsWellFormed m
Reached-IsWellFormed m start = new-WellFormed
Reached-IsWellFormed m (next {m = before} r s) =
    Step-WellFormed before m (Reached-IsWellFormed before r) s
