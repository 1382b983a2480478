-- ===== src/Tests/Types.antt =====
-- Types, scopes and registers at concrete inputs.
use aspect.Prelude.{
  none, ℕ, ◌≤◌, ◌≡◌, refl, ◌⊎◌, true, false, Option, some, [], ◌∷◌, arith, if◌then◌else◌, Str,
  codes, str_eq,
}
use aspect.Lexer.Position.{Position}
use aspect.Lexer.LangType.{
  LangType, s_int, base_eq, i32_type, u8_ptr, is_some, is_array, is_opaque_ptr, void,
}
use aspect.Typechecker.Types.{types_coercible, cast_valid}
use aspect.Typechecker.Types.Coercion.{types_coercible_refl}
use aspect.Typechecker.Types.Casts.{cast_valid_comm}
use aspect.Typechecker.Types.Opaque.{types_coercible-opaque}
use aspect.Scope
use aspect.Scope.{
  ScopeStack, get, insert, insert_in, lookup, find, lookup_scoped, enter, exit, contains_in_current,
}
use aspect.Scope.Blocks.{HasGlobal, Block, bind, Block-exit}
use aspect.Scope.Bindings.{BindsHere}
use aspect.Scope.Lookups.{start, insert-lookup, locals, tag, lookup_scoped-lookup}
use aspect.Symbol.Table.{
  SymbolTable, duplicate_variable, added, refused, add_variable, lookup_variable,
  add_variable-lookup,
}
use aspect.Asm.{RegInfo, gpr, find_in, or_else, lookup_register}
use aspect.Asm.Families.{lookup_register-family}

cast_valid_comm_example : cast_valid u8_ptr i32_type ≡ cast_valid i32_type u8_ptr
cast_valid_comm_example = cast_valid_comm u8_ptr i32_type

types_coercible_refl_example : types_coercible u8_ptr u8_ptr ≡ true
types_coercible_refl_example = types_coercible_refl u8_ptr

abbrev globals : ScopeStack ℕ
globals = record { scopes = ((codes "x", 1) ∷ []) ∷ [] }

-- `x` is bound again inside.
abbrev shadowed : ScopeStack ℕ
shadowed = record { scopes = ((codes "x", 2) ∷ []) ∷ ((codes "x", 1) ∷ []) ∷ [] }

shadowing : Block (enter globals) shadowed
unfolding enter insert insert_in get
shadowing = bind (codes "x") 2 refl Block.done

globals-HasGlobal : HasGlobal globals
unfolding HasGlobal
globals-HasGlobal = omega arith

Block-exit_example : exit shadowed ≡ globals
Block-exit_example = Block-exit globals shadowed globals-HasGlobal shadowing

insert-lookup_example :
    (t : ScopeStack ℕ) × ((old : Option ℕ) × (insert Scope.new (codes "x") 1 ≡ some (old, t)))
    × ((other : Str)
        → lookup t other
          ≡ (if str_eq (codes "x") other then some 1 else lookup (Scope.new {T = ℕ}) other))
insert-lookup_example = insert-lookup Scope.new (codes "x") 1 start

lookup_scoped-lookup_example :
    lookup_scoped shadowed (codes "x")
    ≡ tag (is_some (find (locals shadowed.scopes) (codes "x"))) (lookup shadowed (codes "x"))
lookup_scoped-lookup_example = lookup_scoped-lookup shadowed (codes "x")

abbrev top_of_file : Position
top_of_file = record { line = 1; column = 1; file_id = 0 }

abbrev empty : SymbolTable
empty = record { var_scopes = Scope.new }

add_variable-lookup_example :
    (BindsHere (codes "x") empty.var_scopes.scopes
      × (add_variable empty (codes "x") i32_type top_of_file
          ≡ refused (duplicate_variable (codes "x"))))
    ⊎ ((BindsHere (codes "x") empty.var_scopes.scopes → ⊥)
        × ((after : SymbolTable) × (add_variable empty (codes "x") i32_type top_of_file
              ≡ added after)
            × ((other : Str)
                → lookup_variable after other ≡ (
                    if str_eq (codes "x") other
                    then some
                        (record { name = codes "x"; symbol_type = i32_type; pos = top_of_file })
                    else lookup_variable empty other))
            × ((type' : LangType) (pos' : Position)
                → add_variable after (codes "x") type' pos'
                  ≡ refused (duplicate_variable (codes "x")))))
add_variable-lookup_example = add_variable-lookup empty (codes "x") i32_type top_of_file start

abbrev eax : RegInfo
eax = record { family = codes "rax"; width_bits = 32; class = gpr }

eax_found : lookup_register (codes "ARCH_X86_64") (codes "eax") ≡ some eax
unfolding lookup_register or_else find_in str_eq
eax_found = refl

lookup_register-family_example :
    (head : RegInfo) × (lookup_register (codes "ARCH_X86_64") (codes "rax") ≡ some head)
    × (head.family ≡ codes "rax")
    × (32 ≤ head.width_bits)
    × (head.class ≡ gpr)
lookup_register-family_example =
    lookup_register-family (codes "ARCH_X86_64") (codes "eax") eax eax_found

abbrev u0_ptr : LangType
u0_ptr = record {
  base = void;
  size_bits = 0;
  pointer_depth = 1;
  is_const = false;
  array_size = none;
}

-- `const i32**`
abbrev deep : LangType
deep = record {
  base = s_int;
  size_bits = 32;
  pointer_depth = 2;
  is_const = true;
  array_size = none;
}

plain_pointers : (is_array deep ≡ false) × (is_opaque_ptr u0_ptr ≡ true)
unfolding is_array is_opaque_ptr base_eq
plain_pointers = (refl, refl)

types_coercible-opaque_example :
    (types_coercible deep u0_ptr ≡ false) × (types_coercible u0_ptr deep ≡ false)
types_coercible-opaque_example =
    types_coercible-opaque deep u0_ptr plain_pointers.0 plain_pointers.1 (omega arith)
