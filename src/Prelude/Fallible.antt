-- ===== src/Prelude/Fallible.antt =====
-- Rust's `Result`, with `?` as bind. `out_of_fuel` has no counterpart in the program: it is what
-- a model on fuel returns when the fuel is used up.
use mathlib.Core.Path.{◌≡◌, refl, subst}
use mathlib.Core.Logic.{◌≢◌}

pub data Result {ℓ} (E : Type 0) (A : Type ℓ) : Type ℓ where
  ok : A → Result E A
  err : E → Result E A
  out_of_fuel : Result E A

infixl 5 ◌>>=◌ ◌>>◌
-- The `?` operator: the first failure is the result.
abbrev pub ◌>>=◌ {ℓ κ} :
    {E : Type 0} {A : Type ℓ} {B : Type κ} → Result E A → (A → Result E B) → Result E B
out_of_fuel >>= k = out_of_fuel
err failure >>= k = err failure
ok value >>= k = k value

pub >>=-eq-ok {ℓ κ} :
    {E : Type 0} {A : Type ℓ} {B : Type κ} (r : Result E A) (k : A → Result E B) {b : B}
    → r >>= k ≡ ok b
    → (a : A) × (r ≡ ok a) × (k a ≡ ok b)
>>=-eq-ok out_of_fuel k h = cc
>>=-eq-ok (err failure) k h = cc
>>=-eq-ok (ok value) k h = (value, refl, h)

-- Both in turn, for the failure of the first only.
abbrev pub ◌>>◌ {ℓ} : {E : Type 0} {B : Type ℓ} → Result E (Unit {0}) → Result E B → Result E B
first >> second = first >>= λ done. second

-- The run kept within its fuel, and `P` holds of its value if it has one.
abbrev pub Ensures {ℓ} : {E : Type 0} {A : Type ℓ} → (A → Type 0) → Result E A → Type 0
Ensures P (ok a) = P a
Ensures P (err e) = Unit
Ensures P out_of_fuel = ⊥

pub Ensures-bind {ℓ κ} :
    {E : Type 0} {A : Type ℓ} {B : Type κ} (P : A → Type 0) (Q : B → Type 0) (r : Result E A)
    (f : A → Result E B)
    → Ensures P r
    → ((a : A) → P a → Ensures Q (f a))
    → Ensures Q (r >>= f)
Ensures-bind P Q (ok a) f h k = k a h
Ensures-bind P Q (err e) f h k = tt
Ensures-bind P Q out_of_fuel f h k = absurd h

pub Ensures-ne {ℓ} :
    {E : Type 0} {A : Type ℓ} (P : A → Type 0) (r : Result E A) → Ensures P r → r ≢ out_of_fuel
Ensures-ne P (ok a) h = cc
Ensures-ne P (err e) h = cc
Ensures-ne P out_of_fuel h = absurd h

pub >>=-ext {ℓ κ} :
    {E : Type 0} {A : Type ℓ} {B : Type κ} (m : Result E A) (f g : A → Result E B)
    → ((a : A) → f a ≡ g a)
    → (m >>= f) ≡ (m >>= g)
>>=-ext (ok a) f g h = h a
>>=-ext (err e) f g h = refl
>>=-ext out_of_fuel f g h = refl

pub >>=-assoc {ℓ κ μ} :
    {E : Type 0} {A : Type ℓ} {B : Type κ} {C : Type μ} (m : Result E A) (f : A → Result E B)
    (g : B → Result E C)
    → ((m >>= f) >>= g) ≡ (m >>= λ a. f a >>= g)
>>=-assoc (ok a) f g = refl
>>=-assoc (err e) f g = refl
>>=-assoc out_of_fuel f g = refl

pub >>=-ok {ℓ} : {E : Type 0} {A : Type ℓ} (m : Result E A) → (m >>= λ a. ok a) ≡ m
>>=-ok (ok a) = refl
>>=-ok (err e) = refl
>>=-ok out_of_fuel = refl

pub Ensures-of-ne {ℓ} :
    {E : Type 0} {A : Type ℓ} (P : A → Type 0) (r : Result E A)
    → r ≢ out_of_fuel
    → ((a : A) → r ≡ ok a → P a)
    → Ensures P r
Ensures-of-ne P (ok a) n h = h a refl
Ensures-of-ne P (err e) n h = tt
Ensures-of-ne P out_of_fuel n h = absurd (n refl)

-- As `Ensures`, and `R` holds of its failure if it has one.
abbrev pub Meets {ℓ} : {E : Type 0} {A : Type ℓ} → (A → Type 0) → (E → Type 0) → Result E A → Type 0
Meets P R (ok a) = P a
Meets P R (err e) = R e
Meets P R out_of_fuel = ⊥

pub Meets-bind {ℓ κ} :
    {E : Type 0} {A : Type ℓ} {B : Type κ} (P : A → Type 0) (Q : B → Type 0) (R : E → Type 0)
    (r : Result E A) (f : A → Result E B)
    → Meets P R r
    → ((a : A) → P a → Meets Q R (f a))
    → Meets Q R (r >>= f)
Meets-bind P Q R (ok a) f h k = k a h
Meets-bind P Q R (err e) f h k = h
Meets-bind P Q R out_of_fuel f h k = absurd h

-- Where nothing fails, no claim on the failures is in the way.
pub Meets-never {ℓ} :
    {E : Type 0} {A : Type ℓ} (P : A → Type 0) (R : E → Type 0) (r : Result E A)
    → Meets P (λ e. ⊥) r
    → Meets P R r
Meets-never P R (ok a) h = h
Meets-never P R (err e) h = absurd h
Meets-never P R out_of_fuel h = absurd h

pub Meets-ne {ℓ} :
    {E : Type 0} {A : Type ℓ} (P : A → Type 0) (R : E → Type 0) (r : Result E A)
    → Meets P R r
    → r ≢ out_of_fuel
Meets-ne P R (ok a) h = cc
Meets-ne P R (err e) h = cc
Meets-ne P R out_of_fuel h = absurd h

-- The failures that a run cannot have.
pub Meets-ne-err {ℓ} :
    {E : Type 0} {A : Type ℓ} (P : A → Type 0) (R : E → Type 0) (r : Result E A) (e : E)
    → (R e → ⊥)
    → Meets P R r
    → r ≢ err e
Meets-ne-err P R (ok a) e n h = cc
Meets-ne-err P R (err f) e n h = λ same. n (subst (Meets P R) same h)
Meets-ne-err P R out_of_fuel e n h = absurd h
