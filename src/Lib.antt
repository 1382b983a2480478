-- ===== src/Lib.antt =====
-- A model of the Aspect compiler (aspc) and what is proved of it. Paths are from the repository's
-- root. The compiler reads a file into tokens (src/lexer), runs the preprocessor over them
-- (src/preprocessor), parses and resolves names with scoped symbol tables (src/scope.rs, src/symbol),
-- checks types (src/typechecker) and emits LLVM code. Modelled are:
--
-- - Lexer: src/lexer/tokens.rs and src/lexer/scanner.rs. Lexer.LangType and Lexer.Token are the data,
--   Lexer.Keywords is `keyword_table!`, Lexer.Chars holds the character classes and
--   `langtype_from_str`, and Lexer.Scanner is `Scanner`: its cursor, and below it Trivia (whitespace
--   and comments), Words (identifiers, keywords, types), Literals (numbers, strings) and Tokens
--   (`scan_token`, `scan_all`). Text is a list of code points. The parser of floats is a parameter.
-- - Preprocessor: Preprocessor.Defines is `DefineTable` and, below it, `ScopedDefines`
--   (src/preprocessor/defines.rs); Preprocessor.ExprEval is the `$if` evaluator
--   (src/preprocessor/expr_eval.rs); Preprocessor.Conditional is `ConditionalStack`
--   (src/preprocessor/conditional.rs), which calls both. State is passed explicitly; `?` is the bind
--   of Prelude.Fallible, and a Rust panic is the error `panic`.
-- - Typechecker.Types: the coercion, literal and cast rules of src/typechecker/types.rs.
-- - Parser: Parser.Error, Parser.State and Parser.Cursor are the errors, the state and the cursor
--   with its helpers (src/parser/errors.rs, src/parser/expressions.rs); Parser.TypeExpr is
--   `parse_type` with its lookaheads (src/parser/type_expr.rs) and Parser.Recovery is `synchronize`;
--   Parser.Visibility is the gate of src/parser/visibility.rs and Parser.Cycles the layout check of
--   src/parser/cycles.rs. All but the cursor read the table of Symbol.Module.
-- - Symbol.Module: `ModuleSymbols` (src/symbol/module.rs): Registry holds the lookups and
--   `intern_type`, Bodies what fills in and reads the named types, Functions and Signatures the
--   other two tables. A function that can panic returns `Checked` of Prelude.Checked.
-- - Typechecker.Asm: the checks of an `asm fn` (src/typechecker/checker/asm.rs), which read Asm.
-- - Scope and Symbol.Table: `ScopeStack` (src/scope.rs) and the `SymbolTable` on top of it
--   (src/symbol/table.rs), with the innermost scope first.
-- - Asm: the register tables of src/asm.rs. Variants: what a `switch` can match and covers
--   (src/variants.rs, and `complete` of src/parser/switch.rs); Typechecker.Switch: the verdict on it
--   (src/typechecker/checker/switch.rs).
--
-- Numbers are native; an i64 wraps as written out in Prelude.Int64. Loops whose end is not structural
-- run on fuel: the scanner's loops over tokens, trivia, strings and block comments get one round for
-- each character left and one more, while those over a class of characters or over `*` go over the
-- list of the characters that are left and need none; the macro expansion gets one level for each
-- name of the table and one more, the `$if` evaluator a number of steps linear in the number of
-- tokens, the layout check one level for each layout and one more, the loops and the nesting of a type
-- one level for each token and one more.
-- `out_of_fuel` is what a loop returns when its fuel is used up; the results named _total and
-- -returns, and synchronize-Recovered, say where it cannot be.
--
-- Not modelled: code generation (src/codegen), which is calls of LLVM; the command line
-- (src/main.rs); file inclusion and modules (src/preprocessor/mod.rs, src/preprocessor/modules.rs);
-- the parser's expressions, statements and declarations (src/parser) and the rest of the type
-- checker's walk over the syntax tree (src/typechecker/checker); the proc macros
-- (aspect-macros) and the Aspect library.
pub mod Prelude
pub mod Lexer
pub mod Preprocessor
pub mod Parser
pub mod Typechecker
pub mod Scope
pub mod Symbol
pub mod Asm
pub mod Variants
pub mod Tests
