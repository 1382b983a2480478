-- ===== src/Lexer/Scanner/Total.antt =====
-- The fuel of `scan_token` and `scan_all` (src/lexer/scanner.rs).
use aspect.Prelude.{
  ℕ, zero, suc, ◌≤◌, ◌<◌, ◌≡◌, ◌≢◌, refl, Bool, true, false, ◌||◌, Option, none, some, List, arith,
  if◌then◌else◌, ◌==◌, Str, Result, ok, out_of_fuel, ◌>>=◌, Ensures, Ensures-bind, Ensures-ne,
}
use aspect.Lexer.Position.{Position}
use aspect.Lexer.Token.{TokenKind, Token}
use aspect.Lexer.Chars.{LexerError, is_digit, is_alpha}
use aspect.Lexer.Scanner.{
  Scanner, with_file_id, current_position, is_at_end, peek, advance, matches, is_in, skip_while,
  remaining, left,
}
use aspect.Lexer.Scanner.Progress.{advance-left, advance-le, skip_while-stops}
use aspect.Lexer.Scanner.Trivia.{skip_whitespace, NoMore, skip_whitespace-Ensures}
use aspect.Lexer.Scanner.Words.{stars_in}
use aspect.Lexer.Scanner.Taken.{stars_in-stops, Within, scan_identifier_or_keyword-le}
use aspect.Lexer.Scanner.Read.{Leaves, scan_number-Leaves, scan_string_literal-Leaves}
use aspect.Lexer.Scanner.Tokens.{
  single, assign_or, doubled_or, operator, with_scanner, or_operator, punctuation, Scanned, token,
  splice, continuation, scan_other, punctuated, scan_at, after_scan, scan_token_rounds, scan_token,
  scan_rounds, scan_all, tokenize_with_file_id,
}

module _ (F : Type 0) where
  assign_or-le :
      (s : Scanner) (plain compound : TokenKind F) → left (assign_or s plain compound).1 ≤ left s
  unfolding assign_or
  assign_or-le s plain compound = ground (arith, advance-le s)

  doubled_or-le :
      (s : Scanner) (c : ℕ) (first : TokenKind F × Scanner) (plain compound : TokenKind F)
      → left first.1 ≤ left s
      → left (doubled_or s c first plain compound).1 ≤ left s
  unfolding doubled_or
  doubled_or-le s c first plain compound h = ground (arith, assign_or-le s plain compound, h)

  shifted-le :
      (s : Scanner) (plain compound : TokenKind F)
      → left (assign_or (advance s) plain compound).1 ≤ left s
  shifted-le s plain compound = omega (arith, advance-le s, assign_or-le (advance s) plain compound)

  -- Whichever of two is found, it is within the bound.
  choice :
      (b : Bool) (x : TokenKind F × Scanner) (o : Option (TokenKind F × Scanner)) (m : ℕ)
      → left x.1 ≤ m
      → Within m o
      → Within m (if b then some x else o)
  choice true x o m h w = h
  choice false x o m h w = w

  operator-Within : (c : ℕ) (s : Scanner) → Within (left s) (operator {F = F} c s)
  unfolding operator
  operator-Within c s = grind (arith, advance-le s, assign_or-le s, shifted-le s, doubled_or-le s)

  with_scanner-Within :
      (s : Scanner) (o : Option (TokenKind F)) → Within (left s) (with_scanner s o)
  unfolding with_scanner
  with_scanner-Within s none = tt
  with_scanner-Within s (some k) = omega arith

  or_operator-Within :
      (m : ℕ) (x y : Option (TokenKind F × Scanner))
      → Within m x
      → Within m y
      → Within m (or_operator x y)
  unfolding or_operator
  or_operator-Within m none y v w = w
  or_operator-Within m (some (k, t)) y v w = v

  punctuation-Within : (c : ℕ) (s : Scanner) → Within (left s) (punctuation {F = F} c s)
  unfolding punctuation
  punctuation-Within c s =
      or_operator-Within (left s) _ _ (with_scanner-Within s (single c)) (operator-Within c s)

module _ {F : Type 0} (parse_f64 : Str → Option F) where
  -- The pass took at least one character.
  abbrev Took : ℕ → Scanned F → Type 0
  Took n (token r) = left r.1 < n
  Took n (splice t) = left t < n

  continuation-Took :
      (p : Position) (s : Scanner) (n : ℕ)
      → left s < n
      → Ensures (Took n) (continuation parse_f64 p s)
  unfolding continuation
  continuation-Took p s n h = ground (arith, advance-le s, advance-le (advance s), h)

  read-Took :
      (r : Result LexerError (Token F × Scanner)) (m n : ℕ)
      → m < n
      → Ensures (Leaves parse_f64 m) r
      → Ensures (Took n) (r >>= λ a. ok (token a))
  read-Took r m n h e =
      Ensures-bind (Leaves parse_f64 m) (Took n) r _ e λ a le. omega (arith, le, h)

  Took-if :
      (b : Bool) (x y : Result LexerError (Scanned F)) (n : ℕ)
      → Ensures (Took n) x
      → Ensures (Took n) y
      → Ensures (Took n) (if b then x else y)
  Took-if true x y n f g = f
  Took-if false x y n f g = g

  scan_other-Took :
      (c : ℕ) (p : Position) (i : ℕ) (s : Scanner) (n : ℕ)
      → left s < n
      → Ensures (Took n) (scan_other parse_f64 c p i s)
  unfolding scan_other
  scan_other-Took c p i s n h = Took-if (c == 92) _ _ n (continuation-Took p s n h) (
      Took-if (c == b'"') _ _ n
        (read-Took _ (left s) n h (scan_string_literal-Leaves parse_f64 p s))
        (Took-if (is_digit c) _ _ n
          (read-Took _ (left s) n h (scan_number-Leaves parse_f64 c i p s))
          (Took-if (is_alpha c || c == b'_') _ _ n
            (omega (arith, h, scan_identifier_or_keyword-le F p i s)) tt)))

  punctuated-Took :
      (o : Option (TokenKind F × Scanner)) (p : Position) (i : ℕ)
      (other : Result LexerError (Scanned F)) (m n : ℕ)
      → m < n
      → Within m o
      → Ensures (Took n) other
      → Ensures (Took n) (punctuated parse_f64 o p i other)
  unfolding punctuated
  punctuated-Took none p i other m n h w k = k
  punctuated-Took (some (kind, t)) p i other m n h w k = omega (arith, h, w)

  scan_at-Took :
      (s : Scanner) (o : Option ℕ) → peek s ≡ o → Ensures (Took (left s)) (scan_at parse_f64 o s)
  unfolding scan_at
  scan_at-Took s none e = tt
  scan_at-Took s (some c) e =
      let less = advance-left s c e in
      punctuated-Took (punctuation c (advance s)) (current_position s) s.current _
        (left (advance s)) (left s) (omega (arith, less)) (punctuation-Within F c (advance s))
        (scan_other-Took c (current_position s) s.current (advance s) (left s)
          (omega (arith, less)))

  abbrev Shorter : ℕ → Token F × Scanner → Type 0
  Shorter n r = left r.1 < n

  after_scan-Ensures :
      (a : Scanned F) (k : Scanner → Result LexerError (Token F × Scanner)) (n m : ℕ)
      → n ≤ m
      → Took n a
      → ((t : Scanner) → left t < n → Ensures (Shorter m) (k t))
      → Ensures (Shorter m) (after_scan parse_f64 a k)
  unfolding after_scan
  after_scan-Ensures (token r) k n m h t f = omega (arith, h, t)
  after_scan-Ensures (splice s) k n m h t f = f s t

  scan_token_rounds-Ensures :
      (n : ℕ) (s : Scanner) (m : ℕ)
      → left s < n
      → left s ≤ m
      → Ensures (Shorter m) (scan_token_rounds parse_f64 n s)
  unfolding scan_token_rounds
  scan_token_rounds-Ensures zero s m h k = absurd (omega arith)
  scan_token_rounds-Ensures (suc n) s m h k =
      Ensures-bind (Took (left s)) (Shorter m) (scan_at parse_f64 (peek s) s) _
        (scan_at-Took s (peek s) refl)
        λ a took. after_scan-Ensures a _ (left s) m k took λ t less.
          Ensures-bind (NoMore (left t)) (Shorter m) (skip_whitespace t) _
            (skip_whitespace-Ensures t)
            λ u le.
              scan_token_rounds-Ensures n u m (omega (arith, h, less, le))
                (omega (arith, k, less, le))

  Ends : Result LexerError (List (Token F)) → Type 0
  Ends r = Ensures (λ tokens. Unit {0}) r

  Ends-if :
      (b : Bool) (tokens : List (Token F)) (y : Result LexerError (List (Token F)))
      → (b ≡ false → Ends y)
      → Ends (if b then ok tokens else y)
  unfolding Ends
  Ends-if true tokens y g = tt
  Ends-if false tokens y g = g refl

  scan_rounds-Ends : (n : ℕ) (s : Scanner) → left s < n → Ends (scan_rounds parse_f64 n s)
  unfolding scan_rounds scan_token Ends
  scan_rounds-Ends zero s h = absurd (omega arith)
  scan_rounds-Ends (suc n) s h = Ends-if (is_at_end s) _ _ λ more.
      Ensures-bind (NoMore (left s)) (λ tokens. Unit {0}) (skip_whitespace s) _
        (skip_whitespace-Ensures s)
        λ t le. Ends-if (is_at_end t) _ _ λ some_left.
          Ensures-bind (Shorter (left t)) (λ tokens. Unit {0}) (scan_token parse_f64 t) _
            (scan_token_rounds-Ensures (suc (left t)) t (left t) (omega arith) (omega arith))
            λ r less.
              Ensures-bind (λ tokens. Unit {0}) (λ tokens. Unit {0}) (scan_rounds parse_f64 n r.1) _
                (scan_rounds-Ends n r.1 (omega (arith, h, le, less))) λ tokens u. tt

  -- On every input and file id the scanner returns tokens or an error within its fuel. Its loops over
  -- a class of characters and over `*`, which need none, come to their own ends: in front of a
  -- character outside the class or another than `*`, or at the end of the input.
  pub tokenize_total :
      (input : List ℕ) (file_id : ℕ)
      → (tokenize_with_file_id parse_f64 input file_id ≢ out_of_fuel)
        × ((p : ℕ → Bool) (s : Scanner) → is_in p (peek (skip_while p s)) ≡ false)
        × ((depth : ℕ) (s : Scanner) → matches (stars_in (remaining s) depth s).1 b'*' ≡ false)
  unfolding tokenize_with_file_id scan_all Ends
  tokenize_total input file_id =
      let s = with_file_id input file_id in
      (
        Ensures-ne (λ tokens. Unit {0}) (scan_rounds parse_f64 (suc (left s)) s)
            (scan_rounds-Ends (suc (left s)) s (omega arith)),
        skip_while-stops,
        λ depth s. stars_in-stops (remaining s) depth s refl,
      )
