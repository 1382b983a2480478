-- ===== src/Symbol/Module/Mangling.antt =====
-- The names of lowered methods, `mangle_method` of src/symbol/module.rs.
use aspect.Prelude.{◌≡◌, ◌≢◌, refl, sym, ap, ◌∙◌, [], ◌∷◌, ◌++◌, arith, Str, All}
use aspect.Symbol.Module.{mangle_method, method_owner_prefix}

-- No `$`, as in every identifier that the scanner reads.
unfoldable pub IsPlain : Str → Type 0
IsPlain s = All (λ c. c ≢ 36) s

split_unique :
    (s t : Str) (rest other : Str)
    → IsPlain s
    → IsPlain t
    → s ++ 36 ∷ rest ≡ t ++ 36 ∷ other
    → (s ≡ t) × (rest ≡ other)
unfolding IsPlain
split_unique [] [] rest other p q h = ground arith
split_unique [] (y ∷ t) rest other p q h = ground (arith, q)
split_unique (x ∷ s) [] rest other p q h = ground (arith, p)
split_unique (x ∷ s) (y ∷ t) rest other p q h = ground (arith, split_unique s t rest other p.1 q.1)

append_assoc : (s : Str) (m : Str) → (s ++ 36 ∷ []) ++ m ≡ s ++ 36 ∷ m
append_assoc [] m = refl
append_assoc (c ∷ s) m = ap (λ r. c ∷ r) (append_assoc s m)

-- For types whose names have no `$`, a lowered method name that starts with a type's owner prefix is
-- that of a method of that type, and the prefix is followed by the method's own name.
pub mangle_method_unique :
    (s t : Str) (method rest : Str)
    → IsPlain s
    → IsPlain t
    → mangle_method s method ≡ method_owner_prefix t ++ rest
    → (s ≡ t) × (method ≡ rest)
unfolding mangle_method method_owner_prefix
mangle_method_unique s t method rest p q h =
    split_unique s t method rest p q (sym (append_assoc s method) ∙ h ∙ append_assoc t rest)
