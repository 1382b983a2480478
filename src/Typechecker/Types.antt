-- ===== src/Typechecker/Types.antt =====
-- Implicit coercion, literal fit and casts (src/typechecker/types.rs).
pub mod Coercion
pub mod Casts
pub mod Opaque
use aspect.Prelude.{
  ℕ, ◌+◌, ◌-◌, ◌^◌, Bool, true, false, not, ◌&&◌, ◌||◌, if◌then◌else◌, ltb, leb, ◌==◌,
}
use aspect.Prelude.Int.{ℤ, pos, negsuc, is_negative, magnitude}
use aspect.Lexer.LangType.{
  TypeBase, s_int, u_int, s_float, void, bool, struct, enum, sum, fn_ptr, LangType, base_eq,
  type_eq, is_array, is_int_base, decay_to_pointer,
}

unfoldable pub decay : LangType → LangType
decay t = if is_array t then decay_to_pointer t else t

-- Void as a value: no pointer depth after decay.
unfoldable pub is_void_after : LangType → LangType → Bool
is_void_after t decayed = base_eq t.base void && decayed.pointer_depth == 0

-- `u0*`, the universal object pointer.
unfoldable pub is_opaque_after : LangType → LangType → Bool
is_opaque_after t decayed = base_eq t.base void && decayed.pointer_depth == 1

-- Pointers of one depth: the pointee must match, and const is never removed.
unfoldable pub pointers_coercible : LangType → LangType → Bool
pointers_coercible from to =
    if not (base_eq from.base to.base) || not (from.size_bits == to.size_bits)
    then false
    else not from.is_const || to.is_const

-- Values: the match on the two bases, with the two widths.
unfoldable pub bases_coercible : TypeBase → TypeBase → ℕ → ℕ → Bool
bases_coercible s_int s_int m n = leb m n
bases_coercible s_int u_int m n = leb m n
bases_coercible u_int s_int m n = leb m n
bases_coercible u_int u_int m n = leb m n
bases_coercible s_float s_float m n = leb m n
bases_coercible bool bool m n = true
bases_coercible bool s_int m n = true
bases_coercible bool u_int m n = true
bases_coercible (enum a) (enum b) m n = a == b
bases_coercible (sum a) (sum b) m n = a == b
bases_coercible _ _ m n = false

-- The tests behind those on the decayed types.
unfoldable pub decayed_coercible : LangType → LangType → Bool
decayed_coercible from to =
    if not (from.pointer_depth == to.pointer_depth)
    then false
    else if ltb 0 from.pointer_depth
    then pointers_coercible from to
    else bases_coercible from.base to.base from.size_bits to.size_bits

-- The tests on void values and on `u0*`, on the types and their decayed forms.
unfoldable pub void_coercible : LangType → LangType → LangType → LangType → Bool
void_coercible from to dfrom dto =
    if is_void_after from dfrom || is_void_after to dto
    then is_void_after from dfrom && is_void_after to dto
    else if is_opaque_after to dto && dfrom.pointer_depth == 1
        || is_opaque_after from dfrom && dto.pointer_depth == 1
    then true
    else decayed_coercible dfrom dto

unfoldable pub types_coercible : LangType → LangType → Bool
types_coercible from to =
    let dfrom = decay from in
    let dto = decay to in
    if type_eq from to
    then true
    else if type_eq dfrom to || (type_eq dto from || type_eq dfrom dto)
    then true
    else void_coercible from to dfrom dto

-- `-(1 << (n - 1)) <= val <= (1 << (n - 1)) - 1`.
unfoldable pub in_signed : ℤ → ℕ → Bool
in_signed (pos v) n = ltb v (2 ^ (n - 1))
in_signed (negsuc v) n = ltb v (2 ^ (n - 1))

unfoldable pub base_int_fits : TypeBase → ℤ → ℕ → Bool
unfolding in_signed
base_int_fits s_int val n = if leb 64 n then true else in_signed val n
base_int_fits u_int val n =
    if is_negative val then false else if leb 64 n then true else ltb (magnitude val) (2 ^ n)
base_int_fits bool val n = not (is_negative val) && leb (magnitude val) 1
base_int_fits _ val n = false

unfoldable pub literal_int_fits : ℤ → LangType → Bool
unfolding base_int_fits
literal_int_fits val to =
    if ltb 0 to.pointer_depth || is_array to then false else base_int_fits to.base val to.size_bits

unfoldable pub literal_float_compatible : LangType → Bool
literal_float_compatible to =
    base_eq to.base s_float && (to.pointer_depth == 0 && not (is_array to))

unfoldable pub is_sum : TypeBase → Bool
is_sum (sum i) = true
is_sum _ = false

unfoldable pub is_struct : TypeBase → Bool
is_struct (struct i) = true
is_struct _ = false

unfoldable pub is_enum : TypeBase → Bool
is_enum (enum i) = true
is_enum _ = false

unfoldable pub is_fn_ptr : TypeBase → Bool
is_fn_ptr (fn_ptr i) = true
is_fn_ptr _ = false

-- A test on the base of a type that is no pointer.
unfoldable pub is_value : (TypeBase → Bool) → LangType → Bool
is_value p t = p t.base && t.pointer_depth == 0

unfoldable pub pointer_cast_valid : LangType → LangType → Bool
pointer_cast_valid from to =
    if ltb 0 from.pointer_depth || ltb 0 to.pointer_depth
    then if ltb 0 from.pointer_depth && to.pointer_depth == 0
        || from.pointer_depth == 0 && ltb 0 to.pointer_depth
      then is_int_base to.base || is_int_base from.base
      else true
    else true

unfoldable pub fn_ptr_cast_valid : LangType → Bool
unfolding is_value
fn_ptr_cast_valid other =
    is_fn_ptr other.base || (ltb 0 other.pointer_depth || is_value is_int_base other)

unfoldable pub enum_cast_valid : LangType → Bool
unfolding is_value
enum_cast_valid other = is_enum other.base || is_value is_int_base other

unfoldable pub cast_valid : LangType → LangType → Bool
cast_valid from to =
    if is_value is_sum from || is_value is_sum to
    then false
    else if is_value is_struct from || is_value is_struct to
    then type_eq from to
    else if is_value is_enum from || is_value is_enum to
    then enum_cast_valid (if is_value is_enum from then to else from)
    else if is_value is_fn_ptr from || is_value is_fn_ptr to
    then fn_ptr_cast_valid (if is_value is_fn_ptr from then to else from)
    else pointer_cast_valid from to
