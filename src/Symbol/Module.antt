-- ===== src/Symbol/Module.antt =====
-- The data of src/symbol/module.rs: the named types with their bodies, the functions and the
-- function-pointer signatures of a program. A `HashMap` is the list of its insertions, the newest
-- first; an id newtype (`TypeDefId`, `StructId`, `EnumId`, `SumId`, `SigId`) is its raw number.
pub mod Registry
pub mod Bodies
pub mod Functions
pub mod Signatures
pub mod WellFormed
pub mod Fields
pub mod Interning
pub mod Reached
pub mod Lookups
pub mod Redefinition
pub mod Structural
pub mod SigIds
pub mod Kinds
pub mod ProofIds
pub mod FieldLookup
pub mod Mangling
use aspect.Prelude.{ℕ, Bool, Option, none, some, List, [], ◌++◌, Str, codes}
use aspect.Lexer.Position.{Position}
use aspect.Lexer.LangType.{LangType}

unfoldable pub mangle_method : Str → Str → Str
mangle_method type_name method_name = type_name ++ codes "$" ++ method_name

unfoldable pub method_owner_prefix : Str → Str
method_owner_prefix type_name = type_name ++ codes "$"

pub data Visibility : Type 0 where
  public private : Visibility

pub record FieldInfo : Type 0 where
  pub name : Str
  pub ty : LangType
  pub vis : Visibility

pub record MethodSig : Type 0 where
  pub mangled_name : Str
  pub params : List (LangType × Str)
  pub return_type : LangType
  pub is_static : Bool
  pub is_const : Bool
  pub vis : Visibility

pub record SumVariant : Type 0 where
  pub name : Str
  pub fields : List (Str × LangType)

pub record StructBody : Type 0 where
  pub fields : List FieldInfo
  pub field_index : List (Str × ℕ)
  pub methods : List (Str × MethodSig)

pub record EnumBody : Type 0 where
  pub variants : List Str

pub record SumBody : Type 0 where
  pub variants : List SumVariant

pub data TypeKind : Type 0 where
  struct : StructBody → TypeKind
  enum : EnumBody → TypeKind
  sum : SumBody → TypeKind
  alias : LangType → TypeKind

unfoldable pub noun : TypeKind → Str
noun (struct body) = codes "type-struct"
noun (enum body) = codes "enum"
noun (sum body) = codes "sum"
noun (alias ty) = codes "type alias"

unfoldable pub keyword : TypeKind → Str
keyword (struct body) = codes "type"
keyword (enum body) = codes "enum"
keyword (sum body) = codes "sum"
keyword (alias ty) = codes "alias"

pub record TypeDef : Type 0 where
  pub id : ℕ
  pub name : Str
  pub file_id : ℕ
  pub vis : Visibility
  pub pos : Position
  pub defined : Bool
  pub kind : TypeKind

-- `TypeDef::struct_body`, `enum_body` and `sum_body`: `none` where the source's `unreachable!` panics.
unfoldable pub as_struct_body : TypeKind → Option StructBody
as_struct_body (struct body) = some body
as_struct_body _ = none

unfoldable pub as_enum_body : TypeKind → Option EnumBody
as_enum_body (enum body) = some body
as_enum_body _ = none

unfoldable pub as_sum_body : TypeKind → Option SumBody
as_sum_body (sum body) = some body
as_sum_body _ = none

unfoldable pub as_alias_target : TypeKind → Option LangType
as_alias_target (alias ty) = some ty
as_alias_target _ = none

pub record FnPtrSig : Type 0 where
  pub params : List LangType
  pub return_type : LangType

-- `FunctionSymbol` of src/symbol/table.rs.
pub record FunctionSymbol : Type 0 where
  pub name : Str
  pub params : List (LangType × Str)
  pub return_type : LangType
  pub is_extern : Bool
  pub has_body : Bool
  pub vis : Visibility
  pub pos : Position

pub record ModuleSymbols : Type 0 where
  pub functions : List (Str × FunctionSymbol)
  pub types : List TypeDef
  pub types_by_name : List (Str × ℕ)
  pub fnptr_sigs : List FnPtrSig

abbrev pub new : ModuleSymbols
new = record { functions = []; types = []; types_by_name = []; fnptr_sigs = [] }
