-- ===== src/Lexer/LangType.antt =====
-- Types as the lexer stamps them: `TypeBase`, `LangType` and the shape predicates of
-- src/lexer/tokens.rs. An id newtype (`StructId`, `EnumId`, `SumId`, `SigId`) is its raw number.
use aspect.Prelude.{
  ℕ, ◌+◌, ◌≡◌, ◌↔◌, refl, Bool, true, false, not, ◌&&◌, ◌||◌, Option, none, some, arith, ltb, ◌==◌,
  bool_eq,
}

pub data TypeBase : Type 0 where
  s_int u_int s_float void bool : TypeBase
  struct : ℕ → TypeBase
  enum : ℕ → TypeBase
  sum : ℕ → TypeBase
  fn_ptr : ℕ → TypeBase

-- The derived `==`.
unfoldable pub base_eq : TypeBase → TypeBase → Bool
base_eq s_int s_int = true
base_eq u_int u_int = true
base_eq s_float s_float = true
base_eq void void = true
base_eq bool bool = true
base_eq (struct i) (struct j) = i == j
base_eq (enum i) (enum j) = i == j
base_eq (sum i) (sum j) = i == j
base_eq (fn_ptr i) (fn_ptr j) = i == j
base_eq _ _ = false

pub base_eq_iff : (a b : TypeBase) → (base_eq a b ≡ true) ↔ (a ≡ b)
unfolding base_eq
base_eq_iff s_int b = ground arith
base_eq_iff _ b = ground arith

pub base_eq_refl : (a : TypeBase) → base_eq a a ≡ true
base_eq_refl a = (base_eq_iff a a).1 refl

pub record LangType : Type 0 where
  pub base : TypeBase
  pub size_bits : ℕ
  pub pointer_depth : ℕ
  pub is_const : Bool
  -- The element count of a preallocated array.
  pub array_size : Option ℕ

unfoldable pub size_eq : Option ℕ → Option ℕ → Bool
size_eq none none = true
size_eq (some m) (some n) = m == n
size_eq none (some n) = false
size_eq (some m) none = false

-- The derived `==`.
unfoldable pub type_eq : LangType → LangType → Bool
unfolding size_eq
type_eq a b =
    base_eq a.base b.base
    && (a.size_bits == b.size_bits
        && (a.pointer_depth == b.pointer_depth
            && (bool_eq a.is_const b.is_const && size_eq a.array_size b.array_size)))

pub type_eq_iff : (a b : LangType) → (type_eq a b ≡ true) ↔ (a ≡ b)
unfolding type_eq
type_eq_iff a b = ground (arith, base_eq_iff a.base b.base)

pub type_eq_refl : (a : LangType) → type_eq a a ≡ true
type_eq_refl a = (type_eq_iff a a).1 refl

-- `LangType::plain` and `LangType::new`, which agree where `is_const` is false.
unfoldable pub plain : TypeBase → ℕ → ℕ → LangType
plain base size_bits pointer_depth = record {
  base = base;
  size_bits = size_bits;
  pointer_depth = pointer_depth;
  is_const = false;
  array_size = none;
}

-- `LangType::VOID`, `I32`, `I64`, `U64`, `F64`, `BOOL` and `U8_PTR`.
abbrev pub void_type : LangType
void_type = record {
  base = void;
  size_bits = 0;
  pointer_depth = 0;
  is_const = false;
  array_size = none;
}

abbrev pub bool_type : LangType
bool_type = record {
  base = bool;
  size_bits = 8;
  pointer_depth = 0;
  is_const = false;
  array_size = none;
}

abbrev pub i32_type : LangType
i32_type = record {
  base = s_int;
  size_bits = 32;
  pointer_depth = 0;
  is_const = false;
  array_size = none;
}

abbrev pub f64_type : LangType
f64_type = record {
  base = s_float;
  size_bits = 64;
  pointer_depth = 0;
  is_const = false;
  array_size = none;
}

abbrev pub u8_ptr : LangType
u8_ptr = record {
  base = u_int;
  size_bits = 8;
  pointer_depth = 1;
  is_const = false;
  array_size = none;
}

abbrev pub is_some {ℓ} : {A : Type ℓ} → Option A → Bool
is_some none = false
is_some (some a) = true

unfoldable pub is_array : LangType → Bool
is_array t = is_some t.array_size

-- Array-to-pointer decay.
unfoldable pub decay_to_pointer : LangType → LangType
decay_to_pointer t = record t { pointer_depth = t.pointer_depth + 1; array_size = none }

unfoldable pub element_type : LangType → LangType
element_type t = record t { array_size = none }

unfoldable pub is_int_base : TypeBase → Bool
is_int_base s_int = true
is_int_base u_int = true
is_int_base _ = false

unfoldable pub is_void_value : LangType → Bool
is_void_value t = base_eq t.base void && t.pointer_depth == 0

unfoldable pub is_opaque_ptr : LangType → Bool
is_opaque_ptr t = base_eq t.base void && (t.pointer_depth == 1 && not (is_array t))

unfoldable pub is_plain_int : LangType → Bool
is_plain_int t = is_int_base t.base && (t.pointer_depth == 0 && not (is_array t))

unfoldable pub is_plain_float : LangType → Bool
is_plain_float t = base_eq t.base s_float && (t.pointer_depth == 0 && not (is_array t))

unfoldable pub is_plain_numeric : LangType → Bool
is_plain_numeric t = is_plain_int t || is_plain_float t

unfoldable pub is_pointer_like : LangType → Bool
is_pointer_like t = ltb 0 t.pointer_depth || is_array t
