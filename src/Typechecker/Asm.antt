-- ===== src/Typechecker/Asm.antt =====
-- The checks of an `asm fn` in src/typechecker/checker/asm.rs. The checker's state is the list of
-- errors that it grows; a type that a message names stands for its printed form.
pub mod Accepted
pub mod Clobbers
pub mod Sound
use aspect.Prelude.{
  ℕ, ◌≡◌, Bool, true, false, not, ◌&&◌, ◌||◌, Option, none, some, List, [], ◌∷◌, ◌++◌, map,
  if◌then◌else◌, ltb, ◌==◌, any, Str, codes, str_eq,
}
use aspect.Lexer.Position.{Position}
use aspect.Lexer.LangType.{LangType, is_void_value, is_plain_int, is_plain_float, is_pointer_like}
use aspect.Asm.{
  RegClass, gpr, sse, RegInfo, memory_clobber, lookup_register, pointer_width_bits,
  is_reserved_family,
}
use aspect.Asm.Families.{class_eq}
use aspect.Symbol.Module.{Visibility}

-- `FunctionProto`, `AsmReg` and `AsmSpec` of src/parser/ast.rs.
pub record FunctionProto : Type 0 where
  pub name : Str
  pub params : List (LangType × Str)
  pub return_type : LangType
  pub vis : Visibility
  pub export_ : Bool
  pub pos : Position

pub record AsmReg : Type 0 where
  pub name : Str
  pub pos : Position

pub record AsmSpec : Type 0 where
  pub param_regs : List AsmReg
  pub return_reg : Option AsmReg
  pub clobbers : List AsmReg
  pub lines : List Str
  pub pos : Position

-- The target's architecture, where it is one that the compiler names, and its triple.
pub record TargetInfo : Type 0 where
  pub arch_define : Option Str
  pub triple : Str

pub data AsmError : Type 0 where
  unsupported_target : Str → Str → Position → AsmError
  unknown_register : Str → Str → Position → AsmError
  duplicate_register : Str → Str → Position → AsmError
  clobber_is_operand duplicate_clobber reserved_register : Str → Position → AsmError
  unpinnable_type : LangType → Position → AsmError
  register_class_mismatch : LangType → Str → RegClass → RegClass → Position → AsmError
  register_too_narrow : LangType → ℕ → Str → ℕ → Position → AsmError

unfoldable pub is_modelled : Str → Bool
is_modelled arch = str_eq arch (codes "ARCH_X86_64") || str_eq arch (codes "ARCH_I386")

-- `filter` on the target's architecture.
unfoldable pub modelled : Option Str → Option Str
unfolding is_modelled
modelled none = none
modelled (some arch) = if is_modelled arch then some arch else none

unfoldable pub is_pinnable : LangType → Bool
is_pinnable ty =
    is_pointer_like ty
    || (is_plain_int ty
          && (ty.size_bits == 8
              || (ty.size_bits == 16 || (ty.size_bits == 32 || ty.size_bits == 64)))
        || is_plain_float ty && (ty.size_bits == 32 || ty.size_bits == 64))

unfoldable pub check_pinnable_type : LangType → Position → List AsmError
unfolding is_pinnable
check_pinnable_type ty pos = if is_pinnable ty then [] else unpinnable_type ty pos ∷ []

unfoldable pub expected_class : LangType → RegClass
expected_class ty = if is_plain_float ty then sse else gpr

unfoldable pub check_register_class : LangType → RegInfo → AsmReg → List AsmError
unfolding class_eq expected_class
check_register_class ty info reg =
    if class_eq info.class (expected_class ty)
    then []
    else register_class_mismatch ty reg.name (expected_class ty) info.class reg.pos ∷ []

unfoldable pub type_bits : Str → LangType → ℕ
type_bits arch ty = if is_pointer_like ty then pointer_width_bits arch else ty.size_bits

unfoldable pub check_register_fits : Str → LangType → RegInfo → AsmReg → List AsmError
unfolding type_bits
check_register_fits arch ty info reg =
    if ltb info.width_bits (type_bits arch ty)
    then register_too_narrow ty (type_bits arch ty) reg.name info.width_bits reg.pos ∷ []
    else []

pub data Resolved : Type 0 where
  resolved : RegInfo → Resolved
  unresolved : AsmError → Resolved

unfoldable pub resolve_info : Str → AsmReg → Option RegInfo → Resolved
resolve_info arch reg none = unresolved (unknown_register reg.name arch reg.pos)
resolve_info arch reg (some info) =
    if is_reserved_family info.family
    then unresolved (reserved_register reg.name reg.pos)
    else resolved info

unfoldable pub resolve_asm_reg : Str → AsmReg → Resolved
unfolding resolve_info
resolve_asm_reg arch reg = resolve_info arch reg (lookup_register arch reg.name)

-- Families with the parameters that took them, in order.
abbrev pub Families : Type 0
Families = List (Str × Str)

-- The parameter that took a family first.
unfoldable pub owner_of : Families → Str → Option Str
owner_of [] family = none
owner_of ((f, owner) ∷ families) family =
    let rest = owner_of families family in if str_eq f family then some owner else rest

unfoldable pub claim : Families → RegInfo → AsmReg → Str → Option Str → Families × List AsmError
claim families info reg name none = (families ++ (info.family, name) ∷ [], [])
claim families info reg name (some owner) =
    (families, duplicate_register reg.name owner reg.pos ∷ [])

unfoldable pub check_resolved_param :
    Str → Families → AsmReg → LangType → Str → Resolved → Families × List AsmError
unfolding check_register_class check_register_fits owner_of claim
check_resolved_param arch families reg ty name (unresolved error) = (families, error ∷ [])
check_resolved_param arch families reg ty name (resolved info) =
    let claimed = claim families info reg name (owner_of families info.family) in
    (
      claimed.0,
      check_register_class ty info reg ++ (check_register_fits arch ty info reg ++ claimed.1),
    )

-- The loop over the parameters and their registers, which stops with the shorter list.
unfoldable pub check_params :
    Str → Families → List AsmReg → List (LangType × Str) → Families × List AsmError
unfolding check_resolved_param resolve_asm_reg
check_params arch families [] params = (families, [])
check_params arch families (reg ∷ regs) [] = (families, [])
check_params arch families (reg ∷ regs) ((ty, name) ∷ params) =
    let first = check_resolved_param arch families reg ty name (resolve_asm_reg arch reg) in
    let rest = check_params arch first.0 regs params in (rest.0, first.1 ++ rest.1)

unfoldable pub check_resolved_return :
    Str → LangType → AsmReg → Resolved → Option Str × List AsmError
unfolding check_register_class check_register_fits
check_resolved_return arch return_type reg (unresolved error) = (none, error ∷ [])
check_resolved_return arch return_type reg (resolved info) = (
  some info.family,
  if is_void_value return_type
      then []
      else check_register_class return_type info reg
        ++ check_register_fits arch return_type info reg,
)

unfoldable pub check_return : Str → LangType → Option AsmReg → Option Str × List AsmError
unfolding check_resolved_return resolve_asm_reg
check_return arch return_type none = (none, [])
check_return arch return_type (some reg) =
    check_resolved_return arch return_type reg (resolve_asm_reg arch reg)

unfoldable pub is_family : Option Str → Str → Bool
is_family none family = false
is_family (some f) family = str_eq f family

unfoldable pub is_operand : Families → Option Str → Str → Bool
unfolding is_family
is_operand families return_family family =
    any (λ (f, owner). str_eq f family) families || is_family return_family family

unfoldable pub contains : List Str → Str → Bool
contains names name = any (λ n. str_eq n name) names

-- A clobbered register: the errors, and the family where it is a new one.
unfoldable pub check_resolved_clobber :
    Families → Option Str → List Str → AsmReg → Resolved → List Str × List AsmError
unfolding is_operand contains
check_resolved_clobber families return_family seen reg (unresolved error) = (seen, error ∷ [])
check_resolved_clobber families return_family seen reg (resolved info) =
    if is_operand families return_family info.family
    then (seen, clobber_is_operand reg.name reg.pos ∷ [])
    else if contains seen info.family
    then (seen, duplicate_clobber reg.name reg.pos ∷ [])
    else (seen ++ info.family ∷ [], [])

unfoldable pub memory_again : Bool → AsmReg → List AsmError
memory_again saw_memory reg = if saw_memory then duplicate_clobber reg.name reg.pos ∷ [] else []

unfoldable pub check_clobbers :
    Str → Families → Option Str → Bool → List Str → List AsmReg → List AsmError
unfolding check_resolved_clobber resolve_asm_reg memory_again
check_clobbers arch families return_family saw_memory seen [] = []
check_clobbers arch families return_family saw_memory seen (reg ∷ clobbers) =
    let after_memory = check_clobbers arch families return_family true seen clobbers in
    let checked =
      check_resolved_clobber families return_family seen reg (resolve_asm_reg arch reg) in
    let after = check_clobbers arch families return_family saw_memory checked.0 clobbers in
    if str_eq reg.name memory_clobber
    then memory_again saw_memory reg ++ after_memory
    else checked.1 ++ after

unfoldable pub check_types : List (LangType × Str) → Position → List AsmError
unfolding check_pinnable_type
check_types [] pos = []
check_types ((ty, name) ∷ params) pos = check_pinnable_type ty pos ++ check_types params pos

unfoldable pub check_return_type : LangType → Position → List AsmError
unfolding check_pinnable_type
check_return_type ty pos = if is_void_value ty then [] else check_pinnable_type ty pos

unfoldable pub check_on_arch : Str → FunctionProto → AsmSpec → List AsmError
unfolding check_types check_return_type check_params check_return check_clobbers
check_on_arch arch proto asm =
    let params = check_params arch [] asm.param_regs proto.params in
    let return_ = check_return arch proto.return_type asm.return_reg in
    check_types proto.params proto.pos
    ++ (check_return_type proto.return_type proto.pos
        ++ (params.1
            ++ (return_.1 ++ check_clobbers arch params.0 return_.0 false [] asm.clobbers)))

unfoldable pub check_if_modelled : TargetInfo → FunctionProto → AsmSpec → Option Str → List AsmError
unfolding check_on_arch
check_if_modelled target proto asm none = unsupported_target proto.name target.triple asm.pos ∷ []
check_if_modelled target proto asm (some arch) = check_on_arch arch proto asm

unfoldable pub check_asm_function : TargetInfo → FunctionProto → AsmSpec → List AsmError
unfolding check_if_modelled modelled
check_asm_function target proto asm =
    check_if_modelled target proto asm (modelled target.arch_define)
