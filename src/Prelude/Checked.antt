-- ===== src/Prelude/Checked.antt =====
-- What a Rust function gives back when it can panic: an index out of range, an `expect` on nothing,
-- an `unreachable!`.
use Prim.Native.Nat.{ℕ, zero, suc, ◌≤◌}
use mathlib.Core.Path.{◌≡◌, refl, ap, subst}
use mathlib.Core.List.{List, [], ◌∷◌}
use mathlib.Core.Option.{Option, none, some}
use native.Mathlib.Omega.{arith}
use aspect.Prelude.Tests.{if◌then◌else◌, leb, ◌==◌}
use aspect.Prelude.Lists.{get_elem?, length}

pub data Checked {ℓ} (A : Type ℓ) : Type ℓ where
  returns : A → Checked A
  panics : Checked A

infixl 5 ◌>>!◌
-- A panic ends the caller too.
abbrev pub ◌>>!◌ {ℓ κ} : {A : Type ℓ} {B : Type κ} → Checked A → (A → Checked B) → Checked B
panics >>! k = panics
returns a >>! k = k a

-- `Option::expect`.
abbrev pub expect {ℓ} : {A : Type ℓ} → Option A → Checked A
expect none = panics
expect (some a) = returns a

pub returns-inj {ℓ} : {A : Type ℓ} {a b : A} → returns a ≡ returns b → a ≡ b
returns-inj e = cc

pub >>!-eq-returns {ℓ κ} :
    {A : Type ℓ} {B : Type κ} (r : Checked A) (k : A → Checked B) {b : B}
    → r >>! k ≡ returns b
    → (a : A) × (r ≡ returns a) × (k a ≡ returns b)
>>!-eq-returns panics k h = cc
>>!-eq-returns (returns a) k h = (a, refl, h)

-- `xs[i]`.
abbrev pub index {ℓ} : {A : Type ℓ} → List A → ℕ → Checked A
index xs i = expect (get_elem? xs i)

-- The element at `i` changed in place by what `f` makes of it.
unfoldable pub modify_at {ℓ} : {A : Type ℓ} → List A → ℕ → (A → Checked A) → Checked (List A)
modify_at [] i f = panics
modify_at (x ∷ xs) zero f = f x >>! λ y. returns (y ∷ xs)
modify_at (x ∷ xs) (suc i) f = modify_at xs i f >>! λ ys. returns (x ∷ ys)

-- `u32::try_from` with `expect`.
unfoldable pub expect_u32 : ℕ → Checked ℕ
expect_u32 n = if leb n 4294967295 then returns n else panics

module _ {ℓ} {A : Type ℓ} where
  -- What a change in place did: the one element it changed, and all others as they were.
  pub record Changed (f : A → Checked A) (xs : List A) (i : ℕ) (ys : List A) : Type ℓ where
    pub old : A
    pub now : A
    pub was : get_elem? xs i ≡ some old
    pub made : f old ≡ returns now
    pub reads : (j : ℕ) → get_elem? ys j ≡ (if i == j then some now else get_elem? xs j)
    pub size : length ys ≡ length xs

  reads_head :
      (x y : A) (xs : List A) (j : ℕ)
      → get_elem? (y ∷ xs) j ≡ (if 0 == j then some y else get_elem? (x ∷ xs) j)
  reads_head x y xs zero = refl
  reads_head x y xs (suc j) = ground arith

  reads_tail :
      (x : A) (o : Option A) (xs ys : List A) (i : ℕ)
      → ((j : ℕ) → get_elem? ys j ≡ (if i == j then o else get_elem? xs j))
      → (j : ℕ) → get_elem? (x ∷ ys) j ≡ (if suc i == j then o else get_elem? (x ∷ xs) j)
  reads_tail x o xs ys i h zero = ground arith
  reads_tail x o xs ys i h (suc j) = ground (arith, h j)

  pub modify_at-Changed :
      (xs : List A) (i : ℕ) (f : A → Checked A) (ys : List A)
      → modify_at xs i f ≡ returns ys
      → Changed f xs i ys
  unfolding modify_at
  modify_at-Changed [] i f ys h = cc
  modify_at-Changed (x ∷ xs) zero f ys h =
      let (y, made, e) = >>!-eq-returns (f x) (λ y. returns (y ∷ xs)) h in
      subst (Changed f (x ∷ xs) 0) (returns-inj e) (record {
        old = x;
        now = y;
        was = refl;
        made = made;
        reads = reads_head x y xs;
        size = refl;
      })
  modify_at-Changed (x ∷ xs) (suc i) f ys h =
      let (zs, rest, e) = >>!-eq-returns (modify_at xs i f) (λ zs. returns (x ∷ zs)) h in
      let c = modify_at-Changed xs i f zs rest in
      subst (Changed f (x ∷ xs) (suc i)) (returns-inj e) (record {
        old = c.old;
        now = c.now;
        was = c.was;
        made = c.made;
        reads = reads_tail x (some c.now) xs zs i c.reads;
        size = ap suc c.size;
      })

  pub modify_at-returns :
      (xs : List A) (i : ℕ) (f : A → Checked A) (x y : A)
      → get_elem? xs i ≡ some x
      → f x ≡ returns y
      → (ys : List A) × (modify_at xs i f ≡ returns ys) × (get_elem? ys i ≡ some y)
  unfolding modify_at
  modify_at-returns [] i f x y h e = cc
  modify_at-returns (z ∷ xs) zero f x y h e = (y ∷ xs, ground arith, refl)
  modify_at-returns (z ∷ xs) (suc i) f x y h e =
      let (ys, r, at_i) = modify_at-returns xs i f x y h e in (z ∷ ys, rw r refl, at_i)

pub expect_u32-eq : (n : ℕ) {id : ℕ} → expect_u32 n ≡ returns id → n ≡ id
unfolding expect_u32
expect_u32-eq n h = ground arith

pub expect_u32-returns : (n : ℕ) → n ≤ 4294967295 → expect_u32 n ≡ returns n
unfolding expect_u32
expect_u32-returns n h = ground arith

pub expect-eq {ℓ} : {A : Type ℓ} (o : Option A) {a : A} → expect o ≡ returns a → o ≡ some a
expect-eq none h = cc
expect-eq (some a) h = cc
