-- ===== src/Parser/State.antt =====
-- The parser's state and its cursor (`Parser` of src/parser/expressions.rs), and what a parsing
-- function does: it returns, fails, or panics, with the state it leaves. The `context_stack`,
-- which nothing reads, and the file names for messages are left out.
use aspect.Prelude.{ℕ, zero, suc, Bool, true, false, List, [], Str, map}
use aspect.Prelude.Checked.{Checked, returns, panics, ◌>>!◌, index}
use aspect.Lexer.Position.{Position}
use aspect.Lexer.Token.{Token, TokenKind}
use aspect.Lexer.LangType.{LangType}
use aspect.Symbol.Module.{ModuleSymbols, Visibility}
use aspect.Symbol.Module
use aspect.Symbol.Table.{SymbolTable}
use aspect.Symbol.Table
use aspect.Parser.Error.{ParserError}

pub record PendingBody : Type 0 where
  pub name : Str
  pub params : List (LangType × Str)
  pub pos : Position
  pub body_start : ℕ

pub record Parser (F : Type 0) : Type 0 where
  pub tokens : List (Token F)
  pub current : ℕ
  pub symbol_table : SymbolTable
  pub module_symbols : ModuleSymbols
  pub string_literals : List Str
  pub errors : List (ParserError F)
  pub pending_bodies : List PendingBody
  pub alias_prescan_sites : List ℕ
  pub file_modules : List Str
  pub module_imports : List (Str × List Str)
  pub global_vis : List (Str × Visibility)

pub data Parsed {ℓ} (F : Type 0) (A : Type ℓ) : Type ℓ where
  parsed : A → Parser F → Parsed F A
  failed : ParserError F → Parser F → Parsed F A
  panicked : Parsed F A
  out_of_fuel : Parsed F A

infixl 5 ◌>>-◌
-- The `?` operator: a failure, a panic and running out of fuel end the caller too.
abbrev pub ◌>>-◌ {ℓ κ} :
    {F : Type 0} {A : Type ℓ} {B : Type κ} → Parsed F A → (A → Parser F → Parsed F B) → Parsed F B
parsed a p >>- k = k a p
failed e p >>- k = failed e p
panicked >>- k = panicked
out_of_fuel >>- k = out_of_fuel

module _ {F : Type 0} where
  unfoldable pub new : List (Token F) → Parser F
  unfolding Table.new
  new tokens = record {
    tokens = tokens;
    current = 0;
    symbol_table = Table.new;
    module_symbols = Module.new;
    string_literals = [];
    errors = [];
    pending_bodies = [];
    alias_prescan_sites = [];
    file_modules = [];
    module_imports = [];
    global_vis = [];
  }

  -- The `debug_assert` on the order of the file ids is left out.
  unfoldable pub with_module_info : Parser F → List (ℕ × Str) → List (Str × List Str) → Parser F
  with_module_info p modules imports = record p {
    file_modules = map (λ (id, name). name) modules;
    module_imports = imports;
  }

  -- A read that can panic.
  abbrev pub reading {ℓ} : {A : Type ℓ} → Parser F → Checked A → Parsed F A
  reading p panics = panicked
  reading p (returns a) = parsed a p

  unfoldable pub peek : Parser F → Checked (Token F)
  peek p = index p.tokens p.current

  unfoldable pub is_eof : TokenKind F → Bool
  is_eof TokenKind.eof = true
  is_eof _ = false

  unfoldable pub is_at_end : Parser F → Checked Bool
  unfolding peek is_eof
  is_at_end p = peek p >>! λ t. returns (is_eof t.kind)

  -- The token before `at`; there is none before the first.
  unfoldable pub token_before : List (Token F) → ℕ → Checked (Token F)
  token_before tokens zero = panics
  token_before tokens (suc i) = index tokens i

  unfoldable pub previous : Parser F → Checked (Token F)
  unfolding token_before
  previous p = token_before p.tokens p.current

  abbrev pub moved : Parser F → Bool → Parser F
  moved p true = p
  moved p false = record p { current = suc p.current }

  unfoldable pub advance : Parser F → Parsed F (Token F)
  unfolding is_at_end previous
  advance p =
      reading p (is_at_end p) >>- λ at_end p. reading (moved p at_end) (previous (moved p at_end))
