-- ===== src/Typechecker/Types/Coercion.antt =====
-- Implicit coercion between values (src/typechecker/types.rs).
use aspect.Prelude.{◌≡◌, refl, Bool, true, false, ◌||◌, arith, if◌then◌else◌}
use aspect.Lexer.LangType.{
  void, LangType, base_eq, type_eq, type_eq_iff, type_eq_refl, is_array, is_int_base, is_plain_int,
  is_plain_float, is_plain_numeric,
}
use aspect.Typechecker.Types.{
  decay, is_void_after, is_opaque_after, bases_coercible, decayed_coercible, void_coercible,
  types_coercible,
}

-- Every type coerces to itself.
pub types_coercible_refl : (t : LangType) → types_coercible t t ≡ true
unfolding types_coercible
types_coercible_refl t = ground (arith, type_eq_refl t)

-- What a plain numeric type looks like.
abbrev PlainNumeric : LangType → Type 0
PlainNumeric t = (is_array t ≡ false) × (t.pointer_depth ≡ 0) × (base_eq t.base void ≡ false)

plain_numeric : (t : LangType) → is_plain_numeric t ≡ true → PlainNumeric t
unfolding is_plain_numeric is_plain_int is_plain_float is_int_base base_eq
plain_numeric t h = ground arith

pub decay-value : (t : LangType) → is_array t ≡ false → decay t ≡ t
unfolding decay
decay-value t h = rw h

decayed_coercible-values :
    (from to : LangType)
    → from.pointer_depth ≡ 0
    → to.pointer_depth ≡ 0
    → decayed_coercible from to ≡ bases_coercible from.base to.base from.size_bits to.size_bits
unfolding decayed_coercible
decayed_coercible-values from to p q = ground arith

void_coercible-values :
    (from to : LangType)
    → PlainNumeric from
    → PlainNumeric to
    → void_coercible from to from to ≡ bases_coercible from.base to.base from.size_bits to.size_bits
unfolding void_coercible is_void_after is_opaque_after
void_coercible-values from to f t = ground (arith, decayed_coercible-values from to f.1 t.1)

either_type : (a b c : Bool) → a ≡ b → (if a || (b || a) then true else c) ≡ (a || c)
either_type true b c e = refl
either_type false true c e = ground arith
either_type false false c e = refl

same_type :
    (a b c : Bool) → a ≡ b → (if a then true else if a || (b || a) then true else c) ≡ (a || c)
same_type true b c e = refl
same_type false b c e = either_type false b c e

-- Between plain numeric types implicit coercion holds exactly if the types are equal or the rule
-- on the two bases and the two widths holds.
pub plain_numeric-coercible :
    (from to : LangType)
    → is_plain_numeric from ≡ true
    → is_plain_numeric to ≡ true
    → types_coercible from to
      ≡ (type_eq from to || bases_coercible from.base to.base from.size_bits to.size_bits)
unfolding types_coercible
plain_numeric-coercible from to pf pt =
    let f = plain_numeric from pf in
    let t = plain_numeric to pt in
    let e : type_eq from to ≡ type_eq to from =
      ground (arith, type_eq_iff from to, type_eq_iff to from) in
    rw (decay-value from f.0, decay-value to t.0, void_coercible-values from to f t)
      (same_type (type_eq from to) (type_eq to from) _ e)
