-- ===== src/Lexer/Scanner/Progress.antt =====
-- How much of the input each move of the cursor of src/lexer/scanner.rs leaves.
use aspect.Prelude.{
  ℕ, zero, suc, ◌≤◌, ◌<◌, ◌≡◌, refl, ap, inl, inr, Bool, true, false, none, some, List, [], ◌∷◌,
  subst, ◌+◌, arith, length, get_elem?, get_elem?-some, drop, ◌==◌, Bool-cases, Option-cases,
}
use aspect.Lexer.Scanner.{
  Scanner, is_at_end, peek, past, step_over, advance, is_char, matches, is_in, skip_in, left,
  remaining, skip_while,
}

get_elem?-lt : (xs : List ℕ) (i : ℕ) (c : ℕ) → get_elem? xs i ≡ some c → i < length xs
get_elem?-lt [] i c e = absurd (ground arith)
get_elem?-lt (x ∷ xs) zero c e = omega arith
get_elem?-lt (x ∷ xs) (suc i) c e = omega (arith, get_elem?-lt xs i c e)

past-left : (s : Scanner) (c : ℕ) → s.current < length s.input → left s ≡ suc (left (past s c))
unfolding past left
past-left s c h = ground arith

pub past-le : (s : Scanner) (c : ℕ) → left (past s c) ≤ left s
unfolding past left
past-le s c = ground arith

-- Over a character, `advance` takes exactly one.
pub advance-left : (s : Scanner) (c : ℕ) → peek s ≡ some c → left s ≡ suc (left (advance s))
unfolding advance step_over peek
advance-left s c e = rw e (past-left s c (get_elem?-lt s.input s.current c e))

-- At the end of the input it stays.
pub advance-end : (s : Scanner) → peek s ≡ none → advance s ≡ s
unfolding advance step_over
advance-end s e = rw e refl

pub advance-le : (s : Scanner) → left (advance s) ≤ left s
advance-le s = elim (Option-cases (peek s)) [
  | inl e ↦ rw (advance-end s e) (omega arith)
  | inr (c, e) ↦ omega (arith, advance-left s c e)
]

pub is_at_end-lt : (s : Scanner) → is_at_end s ≡ false → left (advance s) < left s
unfolding is_at_end peek
is_at_end-lt s h =
    let (c, e) = get_elem?-some s.input s.current (ground arith) in
    omega (arith, advance-left s c e)

pub matches-lt : (s : Scanner) (c : ℕ) → matches s c ≡ true → left (advance s) < left s
unfolding matches is_char
matches-lt s c h = elim (Option-cases (peek s)) [
  | inl e ↦ absurd (ground arith)
  | inr (d, e) ↦ omega (arith, advance-left s d e)
]

skip_in-le : (p : ℕ → Bool) (rest : List ℕ) (s : Scanner) → left (skip_in p rest s) ≤ left s
unfolding skip_in
skip_in-le p [] s = omega arith
skip_in-le p (c ∷ rest) s = ground (arith, skip_in-le p rest (past s c), past-le s c)

pub skip_while-le : (p : ℕ → Bool) (s : Scanner) → left (skip_while p s) ≤ left s
unfolding skip_while
skip_while-le p s = skip_in-le p (remaining s) s

get_elem?-drop : (xs : List ℕ) (i : ℕ) → drop i xs ≡ [] → get_elem? xs i ≡ none
get_elem?-drop [] i h = refl
get_elem?-drop (x ∷ xs) zero h = cc
get_elem?-drop (x ∷ xs) (suc i) h = get_elem?-drop xs i h

drop-cons :
    (xs : List ℕ) (i c : ℕ) (rest : List ℕ)
    → drop i xs ≡ c ∷ rest
    → (get_elem? xs i ≡ some c) × (drop (suc i) xs ≡ rest)
drop-cons [] zero c rest h = cc
drop-cons [] (suc i) c rest h = cc
drop-cons (x ∷ xs) zero c rest h = (cc, cc)
drop-cons (x ∷ xs) (suc i) c rest h = drop-cons xs i c rest h

pub remaining-nil : (s : Scanner) → remaining s ≡ [] → peek s ≡ none
unfolding remaining peek
remaining-nil s h = get_elem?-drop s.input s.current h

pub remaining-cons :
    (s : Scanner) (c : ℕ) (rest : List ℕ)
    → remaining s ≡ c ∷ rest
    → (peek s ≡ some c) × (remaining (past s c) ≡ rest)
unfolding remaining peek past
remaining-cons s c rest h =
    let (here, later) = drop-cons s.input s.current c rest h in
    let next : suc s.current ≡ s.current + 1 = omega arith in
    let behind = subst (λ k. drop k s.input ≡ rest) next later in
    elim (Bool-cases (c == 10)) [ inl e ↦ (here, rw e behind) | inr e ↦ (here, rw e behind) ]

skip_in-stops :
    (p : ℕ → Bool) (rest : List ℕ) (s : Scanner)
    → remaining s ≡ rest
    → is_in p (peek (skip_in p rest s)) ≡ false
unfolding skip_in is_in
skip_in-stops p [] s h = ap (is_in p) (remaining-nil s h)
skip_in-stops p (c ∷ rest) s h =
    let (here, behind) = remaining-cons s c rest h in
    elim (Bool-cases (p c)) [
      | inl e ↦ rw e (skip_in-stops p rest (past s c) behind)
      | inr e ↦ rw e (rw here e)
    ]

-- The loop runs until the class ends: the character it stops before is not in the class.
pub skip_while-stops : (p : ℕ → Bool) (s : Scanner) → is_in p (peek (skip_while p s)) ≡ false
unfolding skip_while
skip_while-stops p s = skip_in-stops p (remaining s) s refl
