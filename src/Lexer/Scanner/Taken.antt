-- ===== src/Lexer/Scanner/Taken.antt =====
-- How much of the input the words and types of src/lexer/scanner.rs take.
use aspect.Prelude.{
  ℕ, List, [], ◌∷◌, ◌+◌, ◌≤◌, ◌≡◌, refl, inl, inr, ◌==◌, Bool-cases, Bool, true, false, Option,
  none, some, arith, if◌then◌else◌, Str,
}
use aspect.Lexer.Position.{Position}
use aspect.Lexer.LangType.{LangType}
use aspect.Lexer.Token.{Keyword, const, Token}
use aspect.Lexer.Chars.{is_blank, is_alpha, is_digit, is_alphanumeric}
use aspect.Lexer.Scanner.{
  Scanner, peek, past, advance, matches, is_char, is_in, skip_while, left, remaining,
}
use aspect.Lexer.Scanner.Progress.{
  remaining-nil, remaining-cons, past-le, advance-le, skip_while-le,
}
use aspect.Lexer.Scanner.Trivia.{skip_inline_whitespace}
use aspect.Lexer.Scanner.Words.{
  stars_in, closed_size, array_suffix, with_suffix, parse_type_modifiers, const_type,
  scan_type_after_const, const_or, scan_keyword, scan_name, scan_word, scan_identifier_or_keyword,
}

skip_inline-le : (s : Scanner) → left (skip_inline_whitespace s) ≤ left s
unfolding skip_inline_whitespace
skip_inline-le s = skip_while-le _ s

stars_in-le : (rest : List ℕ) (depth : ℕ) (s : Scanner) → left (stars_in rest depth s).1 ≤ left s
unfolding stars_in
stars_in-le [] depth s = omega arith
stars_in-le (c ∷ rest) depth s =
    ground (
      arith,
      stars_in-le rest (depth + 1) (past s c),
      stars_in-le rest depth (past s c),
      past-le s c,
    )

-- The loop over `*` stops where there is none.
pub stars_in-stops :
    (rest : List ℕ) (depth : ℕ) (s : Scanner)
    → remaining s ≡ rest
    → matches (stars_in rest depth s).1 b'*' ≡ false
unfolding stars_in matches is_char
stars_in-stops [] depth s h = rw (remaining-nil s h) refl
stars_in-stops (c ∷ rest) depth s h =
    let (here, behind) = remaining-cons s c rest h in
    elim (Bool-cases (c == b'*')) [
      | inl e ↦ rw e (stars_in-stops rest (depth + 1) (past s c) behind)
      | inr e ↦ elim (Bool-cases (is_blank c)) [
        | inl b ↦ rw (e, b) (stars_in-stops rest depth (past s c) behind)
        | inr b ↦ rw (e, b) (rw here e)
      ]
    ]

-- What was found, if anything, left no more than `m`.
abbrev pub Within {ℓ} : {A : Type ℓ} → ℕ → Option (A × Scanner) → Type 0
Within m none = Unit
Within m (some (a, t)) = left t ≤ m

Within-weaken {ℓ} :
    {A : Type ℓ} (o : Option (A × Scanner)) (m n : ℕ) → m ≤ n → Within m o → Within n o
Within-weaken none m n h w = tt
Within-weaken (some (a, t)) m n h w = omega arith

Within-if {ℓ} :
    {A : Type ℓ} (b : Bool) (o : Option (A × Scanner)) (m : ℕ)
    → Within m o
    → Within m (if b then o else none)
Within-if true o m w = w
Within-if false o m w = tt

closed_size-Within :
    (size : Option ℕ) (s : Scanner) (m : ℕ) → left s ≤ m → Within m (closed_size size s)
unfolding closed_size
closed_size-Within none s m h = tt
closed_size-Within (some size) s m h = ground (arith, advance-le s)

array_suffix-Within : (s : Scanner) → Within (left s) (array_suffix s)
unfolding array_suffix
array_suffix-Within s =
    let start = skip_inline_whitespace (advance s) in
    let end = skip_while is_digit start in
    Within-if (matches s b'[') _ (left s) (
      closed_size-Within _ (skip_inline_whitespace end) (left s) (
        omega (
          arith,
          advance-le s,
          skip_inline-le (advance s),
          skip_while-le is_digit start,
          skip_inline-le end,
        )))

with_suffix-le :
    (found : Option (ℕ × Scanner)) (ty : LangType) (s : Scanner)
    → Within (left s) found
    → left (with_suffix found ty s).1 ≤ left s
unfolding with_suffix
with_suffix-le none ty s h = omega arith
with_suffix-le (some (size, t)) ty s h = h

parse_type_modifiers-le :
    (ty : LangType) (s : Scanner) → left (parse_type_modifiers ty s).1 ≤ left s
unfolding parse_type_modifiers
parse_type_modifiers-le ty s =
    let before = skip_inline_whitespace s in
    let t = (with_suffix (array_suffix before) ty before).1 in
    let u = skip_inline_whitespace t in
    omega (
      arith,
      skip_inline-le s,
      with_suffix-le (array_suffix before) ty before (array_suffix-Within before),
      skip_inline-le t,
      stars_in-le (remaining u) 0 u,
    )

module _ (F : Type 0) where
  const_type-Within :
      (ty : Option LangType) (p : Position) (i : ℕ) (s : Scanner) (m : ℕ)
      → left s ≤ m
      → Within m (const_type {F = F} ty p i s)
  unfolding const_type
  const_type-Within none p i s m h = tt
  const_type-Within (some ty) p i s m h =
      omega (arith, h, parse_type_modifiers-le (record ty { is_const = true }) s)

  scan_type_after_const-Within :
      (p : Position) (s : Scanner) → Within (left s) (scan_type_after_const {F = F} p s)
  unfolding scan_type_after_const
  scan_type_after_const-Within p s =
      let end = skip_while is_alphanumeric s in
      Within-if (is_in is_alpha (peek s)) _ (left s)
        (const_type-Within _ p s.current end (left s) (skip_while-le is_alphanumeric s))

  const_or-le :
      (found : Option (Token F × Scanner)) (p : Position) (text : Str) (s : Scanner) (m : ℕ)
      → Within m found
      → left s ≤ m
      → left (const_or found p text s).1 ≤ m
  unfolding const_or
  const_or-le none p text s m w h = h
  const_or-le (some (token, t)) p text s m w h = w

  scan_keyword-le :
      (k : Keyword) (p : Position) (text : Str) (s : Scanner)
      → left (scan_keyword {F = F} k p text s).1 ≤ left s
  unfolding scan_keyword
  scan_keyword-le const p text s =
      let t = skip_inline_whitespace s in
      let less = skip_inline-le s in
      const_or-le (scan_type_after_const p t) p text t (left s)
        (Within-weaken (scan_type_after_const p t) (left t) (left s) less
          (scan_type_after_const-Within p t))
        less
  scan_keyword-le k p text s = omega arith

  scan_name-le :
      (ty : Option LangType) (p : Position) (i : ℕ) (s : Scanner)
      → left (scan_name {F = F} ty p i s).1 ≤ left s
  unfolding scan_name
  scan_name-le (some ty) p i s = parse_type_modifiers-le ty s
  scan_name-le none p i s = omega arith

  scan_word-le :
      (k : Option Keyword) (p : Position) (i : ℕ) (s : Scanner)
      → left (scan_word {F = F} k p i s).1 ≤ left s
  unfolding scan_word
  scan_word-le (some k) p i s = scan_keyword-le k p _ s
  scan_word-le none p i s = scan_name-le _ p i s

  pub scan_identifier_or_keyword-le :
      (p : Position) (i : ℕ) (s : Scanner)
      → left (scan_identifier_or_keyword {F = F} p i s).1 ≤ left s
  unfolding scan_identifier_or_keyword
  scan_identifier_or_keyword-le p i s =
      omega (arith, skip_while-le _ s, scan_word-le _ p i (skip_while _ s))
