-- ===== src/Parser/Error.antt =====
-- The errors of src/parser/errors.rs. `TokenKind F` stands for the text that the source makes of a
-- token's kind by `Display`.
use aspect.Prelude.{ℕ, [], ◌∷◌, ◌++◌, Str, codes}
use aspect.Lexer.Position.{Position}
use aspect.Lexer.Chars.{LexerError}
use aspect.Lexer.Token.{TokenKind}
use aspect.Symbol.Table.{SymbolError}
use aspect.Symbol.Module.{TypeKind, noun, keyword}

pub record PrivateTypeDetail : Type 0 where
  pub noun : Str
  pub keyword : Str
  pub name : Str
  pub defining : Str
  pub referring : Str

pub data ParserError (F : Type 0) : Type 0 where
  unexpected_token duplicate_declaration undefined_type duplicate_type :
      Str → Position → ParserError F
  unknown_variant unknown_sum_variant : Str → Str → Position → ParserError F
  method_call_form : Str → Position → ParserError F
  expected_token : Str → TokenKind F → Position → ParserError F
  type_mismatch : Str → Str → Position → ParserError F
  undefined_variable undefined_function : Str → Position → ParserError F
  not_imported_error : Str → Str → Str → Str → Position → ParserError F
  private_named_type_error : PrivateTypeDetail → Position → ParserError F
  recursive_by_value : Str → Position → ParserError F
  private_symbol_error : Str → Str → Str → Str → Position → ParserError F
  argument_count_mismatch : Str → ℕ → ℕ → Position → ParserError F
  invalid_dereference : Position → ParserError F
  function_redefinition : Str → Position → ParserError F
  invalid_binary_operation expected_expression expected_statement : Position → ParserError F
  asm_missing_param_register asm_missing_return_register : Str → Position → ParserError F
  asm_void_return_register asm_empty_body : Str → Position → ParserError F
  unexpected_eof : ParserError F
  lexer_error : LexerError → ParserError F

unfoldable pub describe_module : Str → Str
describe_module [] = codes "the root module"
describe_module (c ∷ rest) = codes "module '" ++ ((c ∷ rest) ++ codes "'")

module _ {F : Type 0} where
  unfoldable pub from_symbol : SymbolError → Position → ParserError F
  from_symbol (SymbolError.duplicate_variable name) pos = duplicate_declaration name pos
  from_symbol (SymbolError.function_already_defined name) pos = function_redefinition name pos
  from_symbol (SymbolError.signature_mismatch name) pos = function_redefinition name pos

  unfoldable pub not_imported : Str → Str → Str → Str → Position → ParserError F
  unfolding describe_module
  not_imported kind name defining_module referring_module pos =
      not_imported_error kind name (describe_module defining_module)
        (describe_module referring_module) pos

  unfoldable pub private_named_type : TypeKind → Str → Str → Str → Position → ParserError F
  unfolding describe_module noun keyword
  private_named_type kind name defining_module referring_module pos =
      private_named_type_error
        (record {
          noun = noun kind;
          keyword = keyword kind;
          name = name;
          defining = describe_module defining_module;
          referring = describe_module referring_module;
        })
        pos

  unfoldable pub private_symbol : Str → Str → Str → Str → Position → ParserError F
  unfolding describe_module
  private_symbol kind name defining_module referring_module pos =
      private_symbol_error kind name (describe_module defining_module)
        (describe_module referring_module) pos
