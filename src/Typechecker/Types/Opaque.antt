-- ===== src/Typechecker/Types/Opaque.antt =====
-- Implicit coercion over `u0*` (src/typechecker/types.rs).
use aspect.Prelude.{
  ◌<◌, ◌≡◌, refl, sym, ◌⊎◌, inl, inr, Bool, true, false, ◌||◌, arith, if◌then◌else◌, ◌==◌,
}
use aspect.Lexer.LangType.{void, LangType, base_eq, type_eq, is_array, is_opaque_ptr}
use aspect.Typechecker.Types.{
  is_void_after, is_opaque_after, decayed_coercible, void_coercible, types_coercible,
}
use aspect.Typechecker.Types.Coercion.{decay-value}

type_eq-depth :
    (a b : LangType)
    → a.pointer_depth ≡ 1
    → type_eq a b ≡ true ⊎ type_eq b a ≡ true
    → (b.pointer_depth == 1) ≡ true
unfolding type_eq
type_eq-depth a b d h = ground (arith, d, h)

swap : {A B : Type 0} → A ⊎ B → B ⊎ A
swap (inl a) = inr a
swap (inr b) = inl b

-- Equal types have the answer of the rules behind the equalities.
shortcut :
    (a b v w : Bool)
    → v ≡ w
    → (a ≡ true ⊎ b ≡ true → w ≡ true)
    → (if a then true else if a || (b || a) then true else v) ≡ w
shortcut true b v w e h = sym (h (inl refl))
shortcut false true v w e h = sym (h (inr refl))
shortcut false false v w e h = e

void_coercible-opaque :
    (p o : LangType)
    → base_eq o.base void ≡ true
    → o.pointer_depth ≡ 1
    → 0 < p.pointer_depth
    → (void_coercible p o p o ≡ (p.pointer_depth == 1))
      × (void_coercible o p o p ≡ (p.pointer_depth == 1))
unfolding void_coercible is_void_after is_opaque_after decayed_coercible
void_coercible-opaque p o b d h = ground arith

-- Between a pointer and `u0*` implicit coercion goes both ways at depth one, whatever the pointee and
-- whether it is const, and neither way at any greater depth.
pub types_coercible-opaque :
    (p o : LangType)
    → is_array p ≡ false
    → is_opaque_ptr o ≡ true
    → 0 < p.pointer_depth
    → (types_coercible p o ≡ (p.pointer_depth == 1))
      × (types_coercible o p ≡ (p.pointer_depth == 1))
unfolding types_coercible is_opaque_ptr
types_coercible-opaque p o a q h =
    let not_array : is_array o ≡ false = ground (arith, q) in
    let b : base_eq o.base void ≡ true = ground (arith, q) in
    let d : o.pointer_depth ≡ 1 = ground (arith, q) in
    let (there, back) = void_coercible-opaque p o b d h in
    rw (decay-value p a, decay-value o not_array)
      (
        shortcut (type_eq p o) (type_eq o p) _ _ there (λ same. type_eq-depth o p d (swap same)),
        shortcut (type_eq o p) (type_eq p o) _ _ back (λ same. type_eq-depth o p d same),
      )
