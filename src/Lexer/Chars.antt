-- ===== src/Lexer/Chars.antt =====
-- Character classes of src/lexer/scanner.rs, and the number parsing of the standard library that the
-- lexer uses.
use aspect.Prelude.{
  ℕ, ◌+◌, ◌-◌, ◌*◌, ◌%◌, ◌^◌, Bool, true, false, ◌&&◌, ◌||◌, Option, none, some, [], ◌∷◌,
  if◌then◌else◌, leb, ltb, ◌==◌, Str, codes, str_eq,
}
use aspect.Prelude.Int.{ℤ}
use aspect.Lexer.Position.{Position}
use aspect.Lexer.LangType.{TypeBase, s_int, u_int, s_float, LangType, bool_type, void_type, plain}

pub data LexerError : Type 0 where
  unexpected_char : ℕ → Position → LexerError
  unterminated_string unterminated_block_comment : Position → LexerError
  invalid_number : Str → Position → LexerError
  invalid_escape : ℕ → Position → LexerError
  unexpected_eof : LexerError

unfoldable pub is_alpha : ℕ → Bool
is_alpha c = leb b'a' c && leb c b'z' || leb b'A' c && leb c b'Z'

unfoldable pub is_digit : ℕ → Bool
is_digit c = leb b'0' c && leb c b'9'

unfoldable pub is_hex_digit : ℕ → Bool
unfolding is_digit
is_hex_digit c = is_digit c || (leb b'a' c && leb c b'f' || leb b'A' c && leb c b'F')

unfoldable pub is_binary_digit : ℕ → Bool
is_binary_digit c = c == b'0' || c == b'1'

unfoldable pub is_alphanumeric : ℕ → Bool
unfolding is_alpha is_digit
is_alphanumeric c = is_alpha c || is_digit c

unfoldable pub is_word : ℕ → Bool
unfolding is_alphanumeric
is_word c = is_alphanumeric c || c == b'_'

-- ' ', '\r', '\t' and '\x0C'.
unfoldable pub is_blank : ℕ → Bool
is_blank c = c == b' ' || (c == 13 || (c == 9 || c == 12))

unfoldable pub digit_value : ℕ → ℕ
digit_value c = if leb c b'9' then c - b'0' else if leb b'a' c then c - b'a' + 10 else c - b'A' + 10

-- `from_str_radix` on text without a sign: digits of the radix only, and a value below the bound.
unfoldable pub digits_value : ℕ → ℕ → Str → ℕ
unfolding digit_value
digits_value radix acc [] = acc
digits_value radix acc (c ∷ s) = digits_value radix (acc * radix + digit_value c) s

unfoldable pub all_digits : ℕ → Str → Bool
unfolding is_hex_digit digit_value
all_digits radix [] = true
all_digits radix (c ∷ s) = is_hex_digit c && (ltb (digit_value c) radix && all_digits radix s)

unfoldable pub is_empty : Str → Bool
is_empty [] = true
is_empty (c ∷ s) = false

unfoldable pub parse_digits : ℕ → ℕ → Str → Option ℕ
unfolding is_empty all_digits digits_value
parse_digits radix bound s =
    if is_empty s
    then none
    else if all_digits radix s
    then (if ltb (digits_value radix 0 s) bound then some (digits_value radix 0 s) else none)
    else none

unfoldable pub as_integer : Option ℕ → Option ℤ
as_integer none = none
as_integer (some n) = some (ℤ.pos n)

unfoldable pub parse_i64 : ℕ → Str → Option ℤ
unfolding as_integer parse_digits
parse_i64 radix s = as_integer (parse_digits radix (2 ^ 63) s)

unfoldable pub parse_u32 : Str → Option ℕ
unfolding parse_digits
parse_u32 s = parse_digits 10 (2 ^ 32) s

unfoldable pub base_from : ℕ → Option TypeBase
base_from c =
    if c == b'i'
    then some s_int
    else if c == b'u'
    then some u_int
    else if c == b'f'
    then some s_float
    else none

unfoldable pub sized_type : TypeBase → ℕ → Option LangType
unfolding plain
sized_type u_int size =
    if size == 0 then some void_type else if size % 8 == 0 then some (plain u_int size 0) else none
sized_type base size = if size % 8 == 0 && ltb 0 size then some (plain base size 0) else none

unfoldable pub sized_from : Option TypeBase → Option ℕ → Option LangType
unfolding sized_type
sized_from none size = none
sized_from (some base) none = none
sized_from (some base) (some size) = sized_type base size

-- Only letters and digits are given to it.
unfoldable pub langtype_from_str : Str → Option LangType
unfolding base_from sized_from parse_u32
langtype_from_str [] = none
langtype_from_str (c ∷ size_str) =
    if is_empty size_str
    then none
    else if str_eq (c ∷ size_str) (codes "bool")
    then some bool_type
    else sized_from (base_from c) (parse_u32 size_str)
