-- ===== src/Tests/Lexing.antt =====
-- The scanner and the keyword table at concrete texts.
use aspect.Prelude.{
  Bool, false, refl, ok, ℕ, ◌≡◌, ◌≢◌, ◌↔◌, Option, none, some, List, Str, codes, out_of_fuel,
}
use aspect.Lexer.Token.{sizeof, left_shift_assign}
use aspect.Lexer.Keywords.{spelling, keyword_from_str, keyword_from_str_iff}
use aspect.Lexer.Scanner.{Scanner, peek, matches, is_in, skip_while, remaining}
use aspect.Lexer.Scanner.Words.{stars_in}
use aspect.Lexer.Scanner.Operators.{punctuation_text, alone, tokenize-punctuation_text}
use aspect.Lexer.Scanner.Tokens.{tokenize_with_file_id}
use aspect.Lexer.Scanner.Total.{tokenize_total}

abbrev no_floats : Str → Option ℕ
no_floats s = none

abbrev shift_text : List ℕ
shift_text = codes "a <<= 0x1F #- note -#; const u8[4]* \"x\""

tokenize_total_example :
    (tokenize_with_file_id no_floats shift_text 3 ≢ out_of_fuel)
    × ((p : ℕ → Bool) (s : Scanner) → is_in p (peek (skip_while p s)) ≡ false)
    × ((depth : ℕ) (s : Scanner) → matches (stars_in (remaining s) depth s).1 b'*' ≡ false)
tokenize_total_example = tokenize_total no_floats shift_text 3

abbrev digits : Scanner
digits = record { input = codes "123;"; current = 0; line = 1; column = 1; file_id = 0 }

keyword_from_str_iff_example :
    (keyword_from_str (codes "sizeof") ≡ some sizeof) ↔ (codes "sizeof" ≡ spelling sizeof)
keyword_from_str_iff_example = keyword_from_str_iff (codes "sizeof") sizeof

shift_printed : punctuation_text {F = ℕ} left_shift_assign ≡ some (codes "<<=")
unfolding punctuation_text
shift_printed = refl

tokenize-punctuation_text_example :
    tokenize_with_file_id no_floats (codes "<<=") 2
    ≡ ok (alone no_floats 2 left_shift_assign (codes "<<="))
tokenize-punctuation_text_example =
    tokenize-punctuation_text no_floats 2 left_shift_assign (codes "<<=") shift_printed
