-- ===== src/Lexer/Scanner/Read.antt =====
-- How much of the input the literals of src/lexer/scanner.rs take.
use aspect.Prelude.{
  ℕ, zero, suc, ◌≤◌, ◌<◌, ◌≡◌, refl, inl, inr, Bool, true, false, ◌&&◌, ◌||◌, Option, none, some,
  [], arith, if◌then◌else◌, ◌==◌, Str, Bool-cases, Result, Ensures, Ensures-bind,
}
use aspect.Prelude.Int.{ℤ}
use aspect.Lexer.Position.{Position}
use aspect.Lexer.Token.{Token}
use aspect.Lexer.Chars.{LexerError, is_digit, is_hex_digit, is_binary_digit}
use aspect.Lexer.Scanner.{Scanner, peek, peek_ahead, advance, matches, is_in, skip_while, left}
use aspect.Lexer.Scanner.Progress.{advance-left, advance-le, skip_while-le}
use aspect.Lexer.Scanner.Literals.{
  Round, stop, fail, more, escape, escaped, escape_round, string_round, after_round, string_rounds,
  integer_token, float_token, scan_radix_number, scan_decimal, scan_number, close_string,
  scan_string_literal,
}

-- A round that goes on takes a character.
Takes : ℕ → Round → Type 0
Takes n stop = Unit
Takes n (fail e) = Unit
Takes n (more c t) = left t < n

escaped-Takes : (o : Option ℕ) (c : ℕ) (s : Scanner) (n : ℕ) → left s < n → Takes n (escaped o c s)
unfolding escaped Takes
escaped-Takes none c s n h = tt
escaped-Takes (some d) c s n h = h

escape_round-Takes :
    (p : Position) (o : Option ℕ) (s : Scanner) (n : ℕ) → left s < n → Takes n (escape_round p o s)
unfolding escape_round Takes
escape_round-Takes p none s n h = tt
escape_round-Takes p (some c) s n h =
    escaped-Takes (escape c) c (advance s) n (omega (arith, h, advance-le s))

string_round-Takes :
    (p : Position) (s : Scanner) (o : Option ℕ) → peek s ≡ o → Takes (left s) (string_round p o s)
unfolding string_round Takes
string_round-Takes p s none e = tt
string_round-Takes p s (some c) e =
    let less = advance-left s c e in
    let after =
      escape_round-Takes p (peek (advance s)) (advance s) (left s) (omega (arith, less)) in
    elim (Bool-cases (c == b'"')) [
      | inl q ↦ rw q tt
      | inr q ↦ elim (Bool-cases (c == 10)) [
        | inl l ↦ rw (q, l) tt
        | inr l ↦ elim (Bool-cases (c == 92)) [
          | inl b ↦ rw (q, l, b) after
          | inr b ↦ rw (q, l, b) (omega (arith, less))
        ]
      ]
    ]

after_round-Ensures :
    (r : Round) (value : Str) (s : Scanner) (k : Str → Scanner → Result LexerError (Str × Scanner))
    (n m : ℕ)
    → left s ≤ m
    → Takes n r
    → ((v : Str) (t : Scanner) → left t < n → Ensures (λ a. left a.1 ≤ m) (k v t))
    → Ensures (λ a. left a.1 ≤ m) (after_round r value s k)
unfolding after_round Takes
after_round-Ensures stop value s k n m h t f = h
after_round-Ensures (fail e) value s k n m h t f = tt
after_round-Ensures (more c u) value s k n m h t f = f _ u t

string_rounds-Ensures :
    (n : ℕ) (p : Position) (value : Str) (s : Scanner) (m : ℕ)
    → left s < n
    → left s ≤ m
    → Ensures (λ a. left a.1 ≤ m) (string_rounds n p value s)
unfolding string_rounds
string_rounds-Ensures zero p value s m h k = absurd (omega arith)
string_rounds-Ensures (suc n) p value s m h k =
    after_round-Ensures (string_round p (peek s) s) value s _ (left s) m k
      (string_round-Takes p s (peek s) refl)
      λ v t less. string_rounds-Ensures n p v t m (omega (arith, h, less)) (omega (arith, k, less))

module _ {F : Type 0} (parse_f64 : Str → Option F) where
  abbrev pub Leaves : ℕ → Token F × Scanner → Type 0
  Leaves m r = left r.1 ≤ m

  integer_token-Leaves :
      (o : Option ℤ) (p : Position) (text : Str) (s : Scanner) (m : ℕ)
      → left s ≤ m
      → Ensures (Leaves m) (integer_token parse_f64 o p text s)
  unfolding integer_token
  integer_token-Leaves none p text s m h = tt
  integer_token-Leaves (some v) p text s m h = h

  float_token-Leaves :
      (o : Option F) (p : Position) (text : Str) (s : Scanner) (m : ℕ)
      → left s ≤ m
      → Ensures (Leaves m) (float_token parse_f64 o p text s)
  unfolding float_token
  float_token-Leaves none p text s m h = tt
  float_token-Leaves (some v) p text s m h = h

  scan_radix_number-Leaves :
      (p : Position) (i radix : ℕ) (digit : ℕ → Bool) (s : Scanner) (m : ℕ)
      → left s ≤ m
      → Ensures (Leaves m) (scan_radix_number parse_f64 p i radix digit s)
  unfolding scan_radix_number
  scan_radix_number-Leaves p i radix digit s m h =
      integer_token-Leaves _ p _ (skip_while digit s) m (omega (arith, h, skip_while-le digit s))

  Leaves-if :
      (b : Bool) (x y : Result LexerError (Token F × Scanner)) (m : ℕ)
      → Ensures (Leaves m) x
      → Ensures (Leaves m) y
      → Ensures (Leaves m) (if b then x else y)
  Leaves-if true x y m f g = f
  Leaves-if false x y m f g = g

  scan_decimal-Leaves :
      (p : Position) (i : ℕ) (s : Scanner)
      → Ensures (Leaves (left s)) (scan_decimal parse_f64 p i s)
  unfolding scan_decimal
  scan_decimal-Leaves p i s =
      let t = skip_while is_digit s in
      let u = skip_while is_digit (advance t) in
      let digits = skip_while-le is_digit s in
      Leaves-if (matches t b'.' && is_in is_digit (peek_ahead t 1)) _ _ (left s)
        (float_token-Leaves _ p _ u (left s)
          (omega (arith, digits, advance-le t, skip_while-le is_digit (advance t))))
        (integer_token-Leaves _ p _ t (left s) digits)

  pub scan_number-Leaves :
      (c i : ℕ) (p : Position) (s : Scanner)
      → Ensures (Leaves (left s)) (scan_number parse_f64 c i p s)
  unfolding scan_number
  scan_number-Leaves c i p s =
      let behind = advance-le s in
      Leaves-if (c == b'0' && (matches s b'x' || matches s b'X')) _ _ (left s)
        (scan_radix_number-Leaves p i 16 is_hex_digit (advance s) (left s) behind)
        (Leaves-if (c == b'0' && (matches s b'b' || matches s b'B')) _ _ (left s)
          (scan_radix_number-Leaves p i 2 is_binary_digit (advance s) (left s) behind)
          (scan_decimal-Leaves p i s))

  pub scan_string_literal-Leaves :
      (p : Position) (s : Scanner) → Ensures (Leaves (left s)) (scan_string_literal parse_f64 p s)
  unfolding scan_string_literal close_string
  scan_string_literal-Leaves p s =
      Ensures-bind (λ a. left a.1 ≤ left s) (Leaves (left s)) (string_rounds (suc (left s)) p [] s)
        _ (string_rounds-Ensures (suc (left s)) p [] s (left s) (omega arith) (omega arith))
        λ a le. Leaves-if (matches a.1 b'"') _ _ (left s) (omega (arith, le, advance-le a.1)) tt
