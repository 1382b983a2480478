-- ===== src/Tests/Assembly.antt =====
-- The checks of an `asm fn` at a concrete input.
use aspect.Prelude.{◌≡◌, refl, false, none, some, [], ◌∷◌, codes, str_eq}
use aspect.Lexer.Position.{Position}
use aspect.Lexer.LangType.{
  LangType, s_int, is_void_value, is_plain_int, is_int_base, is_plain_float, is_pointer_like,
  is_array, base_eq,
}
use aspect.Asm.{find_in, or_else, lookup_register, is_reserved_family}
use aspect.Asm.Families.{class_eq}
use aspect.Symbol.Module.{private}
use aspect.Typechecker.Asm.{
  FunctionProto, AsmSpec, TargetInfo, is_modelled, modelled, is_pinnable, check_pinnable_type,
  expected_class, check_register_class, type_bits, check_register_fits, resolve_info,
  resolve_asm_reg, owner_of, claim, check_resolved_param, check_params, check_resolved_return,
  check_return, is_family, is_operand, contains, check_resolved_clobber, memory_again,
  check_clobbers, check_types, check_return_type, check_on_arch, check_if_modelled,
  check_asm_function,
}
use aspect.Typechecker.Asm.Sound.{Accepted, check_asm_function-Accepted}

abbrev site : Position
site = record { line = 1; column = 1; file_id = 0 }

abbrev i64_type : LangType
i64_type = record {
  base = s_int;
  size_bits = 64;
  pointer_depth = 0;
  is_const = false;
  array_size = none;
}

abbrev x86_64 : TargetInfo
x86_64 = record { arch_define = some (codes "ARCH_X86_64"); triple = codes "x86_64-linux" }

-- `asm fn add(i64 a: rdi, i64 b: rsi) -> i64: rax clobbers(rcx, memory)`.
abbrev add_proto : FunctionProto
add_proto = record {
  name = codes "add";
  params = (i64_type, codes "a") ∷ (i64_type, codes "b") ∷ [];
  return_type = i64_type;
  vis = private;
  export_ = false;
  pos = site;
}

abbrev add_asm : AsmSpec
add_asm = record {
  param_regs =
      record { name = codes "rdi"; pos = site } ∷ record { name = codes "rsi"; pos = site } ∷ [];
  return_reg = some (record { name = codes "rax"; pos = site });
  clobbers =
      record { name = codes "rcx"; pos = site } ∷ record { name = codes "memory"; pos = site } ∷ [];
  lines = codes "lea rax, [rdi + rsi]" ∷ [];
  pos = site;
}

add_clean : check_asm_function x86_64 add_proto add_asm ≡ []
unfolding is_void_value is_plain_int is_int_base is_plain_float is_pointer_like is_array base_eq
    find_in or_else lookup_register is_reserved_family class_eq is_modelled modelled is_pinnable
    check_pinnable_type expected_class check_register_class type_bits check_register_fits
    resolve_info resolve_asm_reg owner_of claim check_resolved_param check_params
    check_resolved_return check_return is_family is_operand contains check_resolved_clobber
    memory_again check_clobbers check_types check_return_type check_on_arch check_if_modelled
    check_asm_function str_eq
add_clean = refl

check_asm_function-Accepted_example : Accepted x86_64 add_proto add_asm
check_asm_function-Accepted_example = check_asm_function-Accepted x86_64 add_proto add_asm add_clean
