-- ===== src/Tests/ExprEval.antt =====
-- The `$if` evaluator at concrete expressions (the tests of src/preprocessor/expr_eval.rs).
use aspect.Prelude.{Ensures, arith, ℕ, ◌≡◌, refl, List, [], ◌∷◌, Str, codes, ok}
use aspect.Prelude.Int.{ℤ}
use aspect.Lexer.Position.{Position}
use aspect.Lexer.Token.{TokenKind}
use aspect.Preprocessor.Defines.Scoped.{ScopedDefines}
use aspect.Preprocessor.ExprEval.Operators.{apply}
use aspect.Preprocessor.ExprEval.Eval.{minus, eval_if_expr}
use aspect.Preprocessor.ExprEval.Grammar.{
  bit_or, equal, mul, sub, Expr, literal, prefix, binary, value,
}
use aspect.Preprocessor.ExprEval.RoundTrip.{source, eval_if_expr-source}

abbrev here : Position
here = record { line = 1; column = 1; file_id = 0 }

abbrev no_defines : ScopedDefines ℕ
no_defines = record { table = []; module_path = []; imports = []; file_modules = [] }

abbrev spell : TokenKind ℕ → Str
spell k = []

abbrev number : ℕ → Expr
number n = literal here (ℤ.pos n)

-- `1 | 2 == 3`
abbrev or_equal : Expr
or_equal = binary here equal (binary here bit_or (number 1) (number 2)) (number 3)

-- `-3 * (5 - 7)`
abbrev product : Expr
product = binary here mul (prefix here minus (number 3)) (binary here sub (number 5) (number 7))

or_equal_value : value no_defines or_equal ≡ ok (ℤ.pos 1)
unfolding value apply aspect.Prelude.Int64.or64 aspect.Prelude.Int64.wrap
or_equal_value = refl

eval_if_expr-source_example :
    eval_if_expr (source spell product) no_defines here ≡ value no_defines product
eval_if_expr-source_example = eval_if_expr-source spell no_defines product here
