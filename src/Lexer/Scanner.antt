-- ===== src/Lexer/Scanner.antt =====
-- The cursor of the scanner: `Scanner` and its helpers of src/lexer/scanner.rs.
pub mod Progress
pub mod Trivia
pub mod Words
pub mod Literals
pub mod Tokens
pub mod Taken
pub mod Read
pub mod Total
pub mod Operators
use aspect.Prelude.{
  ℕ, zero, suc, ◌+◌, ◌-◌, Bool, true, false, Option, none, some, List, [], ◌∷◌, if◌then◌else◌, leb,
  ◌==◌, Str, length, get_elem?, drop, take,
}
use aspect.Lexer.Position.{Position, with_file}

pub record Scanner : Type 0 where
  pub input : List ℕ
  pub current : ℕ
  pub line : ℕ
  pub column : ℕ
  pub file_id : ℕ

unfoldable pub with_file_id : List ℕ → ℕ → Scanner
with_file_id input file_id = record {
  input = input;
  current = 0;
  line = 1;
  column = 1;
  file_id = file_id;
}

unfoldable pub slice_to_string : Scanner → ℕ → Str
slice_to_string s start = take (s.current - start) (drop start s.input)

unfoldable pub current_position : Scanner → Position
unfolding with_file
current_position s = with_file s.line s.column s.file_id

unfoldable pub is_at_end : Scanner → Bool
is_at_end s = leb (length s.input) s.current

unfoldable pub peek : Scanner → Option ℕ
peek s = get_elem? s.input s.current

unfoldable pub peek_ahead : Scanner → ℕ → Option ℕ
peek_ahead s offset = get_elem? s.input (s.current + offset)

-- The scanner after a character.
unfoldable pub past : Scanner → ℕ → Scanner
past s c =
    if c == 10
    then record s { current = s.current + 1; line = s.line + 1; column = 1 }
    else record s { current = s.current + 1; column = s.column + 1 }

unfoldable pub step_over : Scanner → Option ℕ → Scanner
unfolding past
step_over s none = s
step_over s (some c) = past s c

-- The character that `advance` returns is the one that `peek` shows.
unfoldable pub advance : Scanner → Scanner
unfolding step_over
advance s = step_over s (peek s)

unfoldable pub is_char : ℕ → Option ℕ → Bool
is_char expected none = false
is_char expected (some c) = c == expected

-- Whether `match_char` matches, and the scanner after it.
unfoldable pub matches : Scanner → ℕ → Bool
unfolding is_char
matches s expected = is_char expected (peek s)

unfoldable pub match_char : Scanner → ℕ → Bool × Scanner
unfolding matches
match_char s expected = if matches s expected then (true, advance s) else (false, s)

-- A class of characters, on `peek().unwrap_or('\0')`.
unfoldable pub is_in : (ℕ → Bool) → Option ℕ → Bool
is_in p none = false
is_in p (some c) = p c

unfoldable pub left : Scanner → ℕ
left s = length s.input - s.current

-- The characters from the cursor on.
unfoldable pub remaining : Scanner → List ℕ
remaining s = drop s.current s.input

-- The loop `while p(peek) { advance }`, over the characters from the cursor on; behind the last one
-- `peek` is `None`.
unfoldable pub skip_in : (ℕ → Bool) → List ℕ → Scanner → Scanner
unfolding past
skip_in p [] s = s
skip_in p (c ∷ rest) s = let behind = skip_in p rest (past s c) in if p c then behind else s

unfoldable pub skip_while : (ℕ → Bool) → Scanner → Scanner
unfolding skip_in remaining
skip_while p s = skip_in p (remaining s) s
