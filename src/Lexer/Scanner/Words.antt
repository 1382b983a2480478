-- ===== src/Lexer/Scanner/Words.antt =====
-- Identifiers, keywords and built-in types: `scan_identifier_or_keyword`, `scan_type_after_const` and
-- `parse_type_modifiers` of src/lexer/scanner.rs.
use aspect.Prelude.{
  ℕ, ◌+◌, ◌==◌, List, [], ◌∷◌, true, Option, none, some, ◌++◌, if◌then◌else◌, Str, codes,
}
use aspect.Lexer.Position.{Position}
use aspect.Lexer.LangType.{LangType}
use aspect.Lexer.Token.{Keyword, const, keyword, lang_type, identifier, Token, new}
use aspect.Lexer.Keywords.{keyword_from_str}
use aspect.Lexer.Chars.{
  is_blank, is_alpha, is_digit, is_alphanumeric, is_word, parse_u32, langtype_from_str,
}
use aspect.Lexer.Scanner.{
  Scanner, slice_to_string, peek, past, advance, matches, is_in, skip_while, remaining,
}
use aspect.Lexer.Scanner.Trivia.{skip_inline_whitespace}

-- The loop over `*`, each with the blanks behind it, over the characters from the cursor on. It
-- starts behind blanks, so all that it skips stand behind a `*`.
unfoldable pub stars_in : List ℕ → ℕ → Scanner → ℕ × Scanner
unfolding past
stars_in [] depth s = (depth, s)
stars_in (c ∷ rest) depth s =
    let starred = stars_in rest (depth + 1) (past s c) in
    let blank = stars_in rest depth (past s c) in
    if c == b'*' then starred else if is_blank c then blank else (depth, s)

unfoldable pub closed_size : Option ℕ → Scanner → Option (ℕ × Scanner)
closed_size none s = none
closed_size (some size) s = if matches s b']' then some (size, advance s) else none

-- A well-formed `[decimal]`, or nothing.
unfoldable pub array_suffix : Scanner → Option (ℕ × Scanner)
unfolding closed_size
array_suffix s =
    let start = skip_inline_whitespace (advance s) in
    let end = skip_while is_digit start in
    let size = parse_u32 (slice_to_string end start.current) in
    if matches s b'[' then closed_size size (skip_inline_whitespace end) else none

unfoldable pub with_suffix : Option (ℕ × Scanner) → LangType → Scanner → LangType × Scanner
with_suffix none ty s = (ty, s)
with_suffix (some (size, t)) ty s = (record ty { array_size = some size }, t)

unfoldable pub parse_type_modifiers : LangType → Scanner → LangType × Scanner
unfolding with_suffix
parse_type_modifiers ty s =
    let before = skip_inline_whitespace s in
    let (sized, t) = with_suffix (array_suffix before) ty before in
    let u = skip_inline_whitespace t in
    let (depth, v) = stars_in (remaining u) 0 u in (record sized { pointer_depth = depth }, v)

module _ {F : Type 0} where
  unfoldable pub const_type : Option LangType → Position → ℕ → Scanner → Option (Token F × Scanner)
  const_type none start_pos type_start s = none
  const_type (some ty) start_pos type_start s =
      let (full, t) = parse_type_modifiers (record ty { is_const = true }) s in
      some (new (lang_type full) start_pos (codes "const " ++ slice_to_string t type_start), t)

  -- `none` is the error, which leaves the cursor where it was.
  unfoldable pub scan_type_after_const : Position → Scanner → Option (Token F × Scanner)
  unfolding const_type
  scan_type_after_const start_pos s =
      let end = skip_while is_alphanumeric s in
      if is_in is_alpha (peek s)
      then const_type (langtype_from_str (slice_to_string end s.current)) start_pos s.current end
      else none

  unfoldable pub const_or :
      Option (Token F × Scanner) → Position → Str → Scanner → Token F × Scanner
  const_or (some typed) start_pos text s = typed
  const_or none start_pos text s = (new (keyword const) start_pos text, s)

  unfoldable pub scan_keyword : Keyword → Position → Str → Scanner → Token F × Scanner
  unfolding const_or
  scan_keyword const start_pos text s =
      let t = skip_inline_whitespace s in
      const_or (scan_type_after_const start_pos t) start_pos text t
  scan_keyword k start_pos text s = (new (keyword k) start_pos text, s)

  unfoldable pub scan_name : Option LangType → Position → ℕ → Scanner → Token F × Scanner
  scan_name (some ty) start_pos start_idx s =
      let (full, t) = parse_type_modifiers ty s in
      (new (lang_type full) start_pos (slice_to_string t start_idx), t)
  scan_name none start_pos start_idx s =
      let text = slice_to_string s start_idx in (new (identifier text) start_pos text, s)

  unfoldable pub scan_word : Option Keyword → Position → ℕ → Scanner → Token F × Scanner
  unfolding scan_keyword scan_name
  scan_word (some k) start_pos start_idx s =
      scan_keyword k start_pos (slice_to_string s start_idx) s
  scan_word none start_pos start_idx s =
      scan_name (langtype_from_str (slice_to_string s start_idx)) start_pos start_idx s

  unfoldable pub scan_identifier_or_keyword : Position → ℕ → Scanner → Token F × Scanner
  unfolding scan_word
  scan_identifier_or_keyword start_pos start_idx s =
      let t = skip_while is_word s in
      scan_word (keyword_from_str (slice_to_string t start_idx)) start_pos start_idx t
