-- ===== src/Typechecker/Types/Casts.antt =====
-- The casts of src/typechecker/types.rs.
use aspect.Prelude.{◌≡◌, true, arith}
use aspect.Lexer.LangType.{LangType, type_eq, type_eq_iff}
use aspect.Typechecker.Types.{
  is_enum, is_fn_ptr, is_value, pointer_cast_valid, fn_ptr_cast_valid, enum_cast_valid, cast_valid,
}

enum_cast_valid-value : (t : LangType) → is_value is_enum t ≡ true → enum_cast_valid t ≡ true
unfolding is_value enum_cast_valid
enum_cast_valid-value t h = ground arith

fn_ptr_cast_valid-value : (t : LangType) → is_value is_fn_ptr t ≡ true → fn_ptr_cast_valid t ≡ true
unfolding is_value fn_ptr_cast_valid
fn_ptr_cast_valid-value t h = ground arith

pointer_cast_valid_comm :
    (from to : LangType) → pointer_cast_valid from to ≡ pointer_cast_valid to from
unfolding pointer_cast_valid
pointer_cast_valid_comm from to = ground arith

type_eq_comm : (from to : LangType) → type_eq from to ≡ type_eq to from
type_eq_comm from to = ground (arith, type_eq_iff from to, type_eq_iff to from)

-- What may be cast to what is symmetric: a cast is valid exactly when the cast back is.
pub cast_valid_comm : (from to : LangType) → cast_valid from to ≡ cast_valid to from
unfolding cast_valid
cast_valid_comm from to = ground (
  arith,
  pointer_cast_valid_comm from to,
  type_eq_comm from to,
  enum_cast_valid-value from,
  enum_cast_valid-value to,
  fn_ptr_cast_valid-value from,
  fn_ptr_cast_valid-value to,
)
