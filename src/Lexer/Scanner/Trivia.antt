-- ===== src/Lexer/Scanner/Trivia.antt =====
-- Whitespace and comments: `skip_whitespace`, `skip_comment`, `skip_block_comment` and
-- `skip_inline_whitespace` of src/lexer/scanner.rs.
use aspect.Prelude.{
  ℕ, zero, suc, ◌≤◌, ◌<◌, ◌≡◌, inl, inr, Bool, true, false, not, ◌&&◌, Option, none, some, arith,
  if◌then◌else◌, ◌==◌, Bool-cases, Option-cases, Result, ok, err, out_of_fuel, ◌>>=◌, Ensures,
  Ensures-bind,
}
use aspect.Lexer.Position.{Position}
use aspect.Lexer.Chars.{LexerError, unterminated_block_comment, is_blank}
use aspect.Lexer.Scanner.{
  Scanner, is_char, current_position, is_at_end, peek, advance, matches, match_char, skip_while,
  left,
}
use aspect.Lexer.Scanner.Progress.{
  advance-left, advance-le, is_at_end-lt, matches-lt, skip_while-le,
}

unfoldable pub skip_inline_whitespace : Scanner → Scanner
skip_inline_whitespace s = skip_while is_blank s

-- One round of the loop: `-#` closes, a `-` before anything else is skipped with what follows it.
unfoldable pub skip_block_rounds : ℕ → Position → Scanner → Result LexerError Scanner
skip_block_rounds zero start_pos s = out_of_fuel
skip_block_rounds (suc n) start_pos s =
    let (dash, t) = match_char s b'-' in
    let rest = skip_block_rounds n start_pos (advance t) in
    if is_at_end s
    then err (unterminated_block_comment start_pos)
    else if dash && matches t b'#'
    then ok (advance t)
    else rest

unfoldable pub skip_block_comment : Scanner → Result LexerError Scanner
unfolding skip_block_rounds
skip_block_comment s = skip_block_rounds (suc (left s)) (current_position s) s

unfoldable pub is_in_line : ℕ → Bool
is_in_line c = not (c == 10)

-- At a '#'.
unfoldable pub skip_comment : Scanner → Result LexerError Scanner
skip_comment s =
    if matches s b'#'
    then if matches (advance s) b'-'
      then skip_block_comment (advance (advance s))
      else ok (skip_while is_in_line (advance s))
    else ok s

-- What the loop does at a character: it stops, or goes on after the trivia.
unfoldable pub trivia : Scanner → Option ℕ → Option (Result LexerError Scanner)
unfolding skip_comment
trivia s none = none
trivia s (some c) =
    if is_blank c then some (ok (advance s)) else if c == b'#' then some (skip_comment s) else none

unfoldable pub go_on :
    Scanner
    → Option (Result LexerError Scanner)
    → (Scanner → Result LexerError Scanner)
    → Result LexerError Scanner
go_on s none k = ok s
go_on s (some r) k = r >>= k

unfoldable pub skip_trivia_rounds : ℕ → Scanner → Result LexerError Scanner
unfolding trivia go_on
skip_trivia_rounds zero s = out_of_fuel
skip_trivia_rounds (suc n) s = go_on s (trivia s (peek s)) (λ t. skip_trivia_rounds n t)

unfoldable pub skip_whitespace : Scanner → Result LexerError Scanner
unfolding skip_trivia_rounds
skip_whitespace s = skip_trivia_rounds (suc (left s)) s

-- No more of the input is left than at `s`.
abbrev pub NoMore : ℕ → Scanner → Type 0
NoMore n t = left t ≤ n

-- Less of it is left.
abbrev pub Fewer : ℕ → Scanner → Type 0
Fewer n t = left t < n

match_char-lt :
    (s : Scanner) (c : ℕ) → is_at_end s ≡ false → left (advance (match_char s c).1) < left s
unfolding match_char
match_char-lt s c h = ground (arith, is_at_end-lt s h, matches-lt s c, advance-le (advance s))

skip_block_rounds-Ensures :
    (n : ℕ) (start_pos : Position) (s : Scanner) (m : ℕ)
    → left s < n
    → left s ≤ m
    → Ensures (NoMore m) (skip_block_rounds n start_pos s)
unfolding skip_block_rounds
skip_block_rounds-Ensures zero start_pos s m h k = absurd (omega arith)
skip_block_rounds-Ensures (suc n) start_pos s m h k = elim (Bool-cases (is_at_end s)) [
  | inl e ↦ rw e tt
  | inr e ↦
      let less = match_char-lt s b'-' e in
      let rest =
        skip_block_rounds-Ensures n start_pos (advance (match_char s b'-').1) m
          (omega (arith, less, h)) (omega (arith, less, k)) in
      ground (arith, less, rest)
]

skip_block_comment-Ensures :
    (s : Scanner) (m : ℕ) → left s ≤ m → Ensures (NoMore m) (skip_block_comment s)
unfolding skip_block_comment
skip_block_comment-Ensures s m h =
    skip_block_rounds-Ensures (suc (left s)) (current_position s) s m (omega arith) h

skip_comment-Ensures :
    (s : Scanner) (m : ℕ)
    → matches s b'#' ≡ true
    → left s ≤ suc m
    → Ensures (NoMore m) (skip_comment s)
unfolding skip_comment
skip_comment-Ensures s m e h =
    let less = matches-lt s b'#' e in
    let block =
      skip_block_comment-Ensures (advance (advance s)) m
        (omega (arith, less, h, advance-le (advance s))) in
    let line = skip_while-le is_in_line (advance s) in ground (arith, less, block, line)

-- Where the loop goes on, `P` holds after the trivia.
Goes : (Scanner → Type 0) → Option (Result LexerError Scanner) → Type 0
Goes P none = Unit
Goes P (some r) = Ensures P r

go_on-Ensures :
    (P Q : Scanner → Type 0) (s : Scanner) (o : Option (Result LexerError Scanner))
    (k : Scanner → Result LexerError Scanner)
    → Q s
    → Goes P o
    → ((t : Scanner) → P t → Ensures Q (k t))
    → Ensures Q (go_on s o k)
unfolding go_on Goes
go_on-Ensures P Q s none k q g f = q
go_on-Ensures P Q s (some r) k q g f = Ensures-bind P Q r k g f

matches-peek : (s : Scanner) (c d : ℕ) → peek s ≡ some c → (c == d) ≡ true → matches s d ≡ true
unfolding matches is_char
matches-peek s c d e h = rw e h

trivia-Goes :
    (s : Scanner) (c m : ℕ) → peek s ≡ some c → left s ≡ suc m → Goes (NoMore m) (trivia s (some c))
unfolding trivia Goes
trivia-Goes s c m e h =
    let skipped = advance-left s c e in
    elim (Bool-cases (is_blank c)) [
      | inl b ↦ rw b (omega (arith, skipped, h))
      | inr b ↦ elim (Bool-cases (c == b'#')) [
        | inl d ↦
            rw (b, d) (skip_comment-Ensures s m (matches-peek s c b'#' e d) (omega (arith, h)))
        | inr d ↦ rw (b, d) tt
      ]
    ]

skip_end :
    (s : Scanner) (m : ℕ) (k : Scanner → Result LexerError Scanner)
    → left s ≤ m
    → Ensures (NoMore m) (go_on s (trivia s none) k)
unfolding trivia go_on
skip_end s m k h = h

skip_trivia_rounds-Ensures :
    (n : ℕ) (s : Scanner) (m : ℕ)
    → left s < n
    → left s ≤ m
    → Ensures (NoMore m) (skip_trivia_rounds n s)
unfolding skip_trivia_rounds
skip_trivia_rounds-Ensures zero s m h k = absurd (omega arith)
skip_trivia_rounds-Ensures (suc n) s m h k = elim (Option-cases (peek s)) [
  | inl e ↦ rw e (skip_end s m (λ t. skip_trivia_rounds n t) k)
  | inr (c, e) ↦
      let skipped = advance-left s c e in
      rw e (
        go_on-Ensures (NoMore (left (advance s))) (NoMore m) s (trivia s (some c)) _ k
          (trivia-Goes s c (left (advance s)) e skipped)
          λ t le.
            skip_trivia_rounds-Ensures n t m (omega (arith, skipped, h, le))
              (omega (arith, skipped, k, le)))
]

-- Skipping whitespace and comments always ends, and never moves back.
pub skip_whitespace-Ensures : (s : Scanner) → Ensures (NoMore (left s)) (skip_whitespace s)
unfolding skip_whitespace
skip_whitespace-Ensures s =
    skip_trivia_rounds-Ensures (suc (left s)) s (left s) (omega arith) (omega arith)
