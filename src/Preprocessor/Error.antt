-- ===== src/Preprocessor/Error.antt =====
-- `PreprocessError` of src/preprocessor/errors.rs, as far as the modelled parts raise it, with the
-- origin of a define (`DefineOrigin` of src/preprocessor/defines.rs).
use aspect.Prelude.{Str, Result}
use aspect.Lexer.Position.{Position}

pub data DefineOrigin : Type 0 where
  builtin : DefineOrigin
  cli : DefineOrigin
  directive : Position → DefineOrigin

-- A `previous` is the origin itself, of which the source keeps the text of `DefineOrigin::describe`.
-- `panic` is a Rust panic: an `unreachable!` that was reached.
pub data PreprocessError : Type 0 where
  expected_name : Str → Position → PreprocessError
  trailing_tokens : Str → Position → PreprocessError
  redefinition : Str → DefineOrigin → Position → PreprocessError
  cli_redefinition : Str → DefineOrigin → PreprocessError
  stray_conditional : Str → Position → PreprocessError
  conditional_after_else : Str → Position → Position → PreprocessError
  unterminated_conditional : Str → Position → PreprocessError
  undefined_in_if_expr : Str → Position → PreprocessError
  if_division_by_zero : Position → PreprocessError
  malformed_if_expr : Str → Position → PreprocessError
  panic : PreprocessError

-- `Result<A, PreprocessError>`.
abbrev pub Preprocess {ℓ} : Type ℓ → Type ℓ
Preprocess A = Result PreprocessError A
