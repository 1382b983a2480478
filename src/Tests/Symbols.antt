-- ===== src/Tests/Symbols.antt =====
-- The module symbols and the layout check at concrete inputs.
use aspect.Prelude.{
  ℕ, ◌≡◌, ◌↔◌, ◌⊎◌, refl, true, false, none, some, List, [], ◌∷◌, arith, Str, codes, str_eq,
  if◌then◌else◌, ok, err,
}
use aspect.Prelude.Checked.{returns, modify_at, expect_u32}
use aspect.Lexer.Position.{Position}
use aspect.Lexer.LangType
use aspect.Lexer.LangType.{LangType, i32_type, type_eq}
use aspect.Scope.{get}
use aspect.Symbol.Table.{function_already_defined, signature_mismatch}
use aspect.Symbol.Module.{
  FieldInfo, private, public, StructBody, TypeKind, FunctionSymbol, FnPtrSig, ModuleSymbols, new,
  as_struct_body,
}
use aspect.Symbol.Module.Registry.{
  with_def, interned, intern_type, lookup_type, def_at, id_of_kind, id_if, struct_id,
  is_struct_kind,
}
use aspect.Symbol.Module.Bodies.{
  index_fields, kind_with_fields, define_body, on_type, set_fields, struct_at, field,
}
use aspect.Symbol.Module.Functions.{add_function, lookup_function}
use aspect.Symbol.Module.Signatures.{intern_sig, sig_at}
use aspect.Symbol.Module.WellFormed.{IsIndexed, IsIndexedKind, IsWellFormed}
use aspect.Symbol.Module.Fields.{LastNamed, NoneNamed}
use aspect.Symbol.Module.Reached.{
  Reached, start, next, interned_type, fields_set, Steps, none_yet, then_step, Reached-IsWellFormed,
}
use aspect.Symbol.Module.Kinds.{struct_shape}
use aspect.Symbol.Module.ProofIds.{struct_named, HasBody, Minted-HasBody}
use aspect.Symbol.Module.FieldLookup.{set_fields-field}
use aspect.Symbol.Module.Redefinition.{
  SameSignature, MayFollow, add_function-cases, add_function-second_body,
}
use aspect.Symbol.Module.Signatures.{intern_fnptr}
use aspect.Symbol.Module.Reached.{fnptr_interned}
use aspect.Lexer.LangType.{type_eq}
use aspect.Symbol.Module.SigIds.{intern_sig_iff}

abbrev pub here : Position
here = record { line = 1; column = 1; file_id = 0 }

abbrev empty_body : StructBody
empty_body = record { fields = []; field_index = []; methods = [] }

abbrev pub node_type : LangType
node_type = record {
  base = LangType.struct 0;
  size_bits = 0;
  pointer_depth = 0;
  is_const = false;
  array_size = none;
}

abbrev node_field : FieldInfo
node_field = record { name = codes "next"; ty = node_type; vis = private }

abbrev pub node_fields : List FieldInfo
node_fields = node_field ∷ []

-- `type Node` before its body is parsed, and after.
abbrev reserved : ModuleSymbols
reserved = record {
  functions = [];
  types =
      record {
        id = 0;
        name = codes "Node";
        file_id = 0;
        vis = public;
        pos = here;
        defined = false;
        kind = TypeKind.struct empty_body;
      }
      ∷ [];
  types_by_name = (codes "Node", 0) ∷ [];
  fnptr_sigs = [];
}

abbrev pub filled_in : ModuleSymbols
filled_in = record reserved {
  types =
      record {
        id = 0;
        name = codes "Node";
        file_id = 0;
        vis = public;
        pos = here;
        defined = true;
        kind =
            TypeKind.struct
              (record { fields = node_fields; field_index = (codes "next", 0) ∷ []; methods = [] });
      }
      ∷ [];
}

empty_body-IsIndexedKind : IsIndexedKind (TypeKind.struct empty_body)
unfolding IsIndexedKind IsIndexed as_struct_body get
empty_body-IsIndexedKind body e name i h = ground (arith, e, h)

reserved-Reached : Reached reserved
unfolding intern_type interned with_def expect_u32 get
reserved-Reached = next start (
    interned_type (codes "Node") 0 0 public here (TypeKind.struct empty_body)
      empty_body-IsIndexedKind refl)

pub filled_in-Reached : Reached filled_in
unfolding set_fields on_type define_body kind_with_fields index_fields modify_at
filled_in-Reached = next reserved-Reached (fields_set 0 node_fields refl)

Reached-IsWellFormed_example : IsWellFormed filled_in
Reached-IsWellFormed_example = Reached-IsWellFormed filled_in filled_in-Reached

reserved-struct_id : struct_id reserved (codes "Node") ≡ returns (some 0)
unfolding struct_id id_of_kind lookup_type def_at id_if is_struct_kind get str_eq
reserved-struct_id = refl

fill_in : Steps reserved filled_in
unfolding set_fields on_type define_body kind_with_fields index_fields modify_at
fill_in = then_step none_yet (fields_set 0 node_fields refl)

Minted-HasBody_example : HasBody filled_in struct_shape 0
Minted-HasBody_example =
    Minted-HasBody reserved filled_in struct_shape 0 reserved-Reached
      (struct_named (codes "Node") reserved-struct_id) fill_in

reserved-struct_at : struct_at reserved 0 ≡ returns empty_body
unfolding struct_at as_struct_body
reserved-struct_at = refl

set_fields-field_example :
    (after : ModuleSymbols) × (set_fields reserved 0 node_fields ≡ returns after)
    × ((name : Str)
        → (NoneNamed node_fields name × (field after 0 name ≡ returns none))
          ⊎ ((i : ℕ) × (l : LastNamed node_fields name i) × (field after 0 name
                ≡ returns (some (i, l.field)))))
set_fields-field_example = set_fields-field reserved 0 node_fields empty_body reserved-struct_at

-- `extern fn f(i32 x) -> i32`, and with a body.
abbrev declared : FunctionSymbol
declared = record {
  name = codes "f";
  params = (i32_type, codes "x") ∷ [];
  return_type = i32_type;
  is_extern = true;
  has_body = false;
  vis = public;
  pos = here;
}

abbrev defined_f : FunctionSymbol
defined_f = record declared { is_extern = false; has_body = true }

abbrev with_f : ModuleSymbols
with_f = record new { functions = (codes "f", defined_f) ∷ [] }

add_function-cases_example :
    ((existing : FunctionSymbol) × (lookup_function with_f (codes "f") ≡ some existing)
      × (existing.has_body ≡ true)
      × (defined_f.has_body ≡ true)
      × (add_function with_f defined_f ≡ err (function_already_defined (codes "f"))))
    ⊎ ((existing : FunctionSymbol) × (lookup_function with_f (codes "f") ≡ some existing)
        × (existing.has_body ≡ false)
        × (defined_f.has_body ≡ true)
        × (SameSignature existing defined_f → ⊥)
        × (add_function with_f defined_f ≡ err (signature_mismatch (codes "f"))))
    ⊎ MayFollow with_f defined_f
      × (after : ModuleSymbols) × (add_function with_f defined_f ≡ ok after)
      × ((other : Str)
          → lookup_function after other
            ≡ (if str_eq (codes "f") other then some defined_f else lookup_function with_f other))
add_function-cases_example = add_function-cases with_f defined_f

with_f-lookup : lookup_function with_f (codes "f") ≡ some defined_f
unfolding lookup_function get str_eq
with_f-lookup = refl

add_function-second_body_example :
    (add_function with_f defined_f ≡ err (function_already_defined (codes "f")))
    × (middle : ModuleSymbols) × (after : ModuleSymbols) × (add_function with_f declared
        ≡ ok middle)
    × (add_function middle defined_f ≡ ok after)
    × (lookup_function after (codes "f") ≡ some defined_f)
add_function-second_body_example =
    add_function-second_body with_f defined_f declared defined_f with_f-lookup refl refl refl refl
      refl (record { params = refl; return_type = refl })

abbrev unary : FnPtrSig
unary = record { params = i32_type ∷ []; return_type = i32_type }

abbrev nullary : FnPtrSig
nullary = record { params = []; return_type = i32_type }

abbrev with_unary : ModuleSymbols
with_unary = record new { fnptr_sigs = unary ∷ [] }

abbrev with_both : ModuleSymbols
with_both = record new { fnptr_sigs = unary ∷ nullary ∷ [] }

first_sig : intern_sig new unary ≡ returns (with_unary, 0)
unfolding intern_sig sig_at expect_u32
first_sig = refl

second_sig : intern_fnptr with_unary [] i32_type ≡ returns (with_both, 1)
unfolding intern_fnptr intern_sig sig_at expect_u32
second_sig = refl

first_again : intern_sig with_both unary ≡ returns (with_both, 0)
unfolding intern_sig sig_at expect_u32 type_eq LangType.base_eq
first_again = refl

-- One signature, another one, and the first again.
intern_sig_iff_example : (◌≡◌ {A = ℕ} 0 0) ↔ (unary ≡ unary)
intern_sig_iff_example =
    intern_sig_iff new with_unary with_both with_both unary unary 0 0 (omega arith) (omega arith)
      first_sig (then_step none_yet (fnptr_interned [] i32_type 1 second_sig)) first_again
