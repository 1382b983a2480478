-- ===== src/Lexer/Token.antt =====
-- Tokens: `Keyword`, `TokenKind` and `Token` of src/lexer/tokens.rs.
-- The type of `f64` values is the parameter `F`.
use aspect.Prelude.{Str}
use aspect.Prelude.Int.{ℤ}
use aspect.Lexer.Position.{Position}
use aspect.Lexer.LangType.{LangType}

pub data Keyword : Type 0 where
  fn extern asm naked const type enum struct sum alias : Keyword
  public export sizeof null while if_ else_ elif for switch : Keyword
  case default is break continue as_ return true_ false_ : Keyword

pub data TokenKind (F : Type 0) : Type 0 where
  open_paren close_paren open_brace close_brace open_bracket close_bracket : TokenKind F
  semicolon colon comma dot arrow question dollar : TokenKind F
  plus minus asterisk slash percent : TokenKind F
  equal not_equal less greater less_equal greater_equal : TokenKind F
  logical_and logical_or logical_not : TokenKind F
  ampersand pipe caret tilde left_shift right_shift : TokenKind F
  assign plus_assign minus_assign mult_assign div_assign mod_assign : TokenKind F
  and_assign or_assign xor_assign left_shift_assign right_shift_assign : TokenKind F
  integer : ℤ → TokenKind F
  float : F → TokenKind F
  string_literal : Str → TokenKind F
  identifier : Str → TokenKind F
  keyword : Keyword → TokenKind F
  lang_type : LangType → TokenKind F
  newline eof : TokenKind F

pub record Token (F : Type 0) : Type 0 where
  pub kind : TokenKind F
  pub pos : Position
  pub lexeme : Str

-- `Token::new`.
abbrev pub new : {F : Type 0} → TokenKind F → Position → Str → Token F
new kind pos lexeme = record { kind = kind; pos = pos; lexeme = lexeme }
