-- ===== src/Parser/Recovery.antt =====
-- Recovery after an error: `synchronize` of src/parser/expressions.rs. The loop runs on fuel.
pub mod Classes
pub mod Places
use aspect.Prelude.{ℕ, zero, suc, ◌+◌, Bool, true, false, if◌then◌else◌, length}
use aspect.Prelude.Checked.{Checked, returns, panics}
use aspect.Lexer.Token.{Token, TokenKind, Keyword}
use aspect.Parser.State.{
  Parser, Parsed, parsed, failed, panicked, out_of_fuel, ◌>>-◌, reading, peek, advance,
}

-- What the loop does at a token.
pub data Recovery : Type 0 where
  stops past skips : Recovery

unfoldable pub starts_statement : Keyword → Bool
starts_statement Keyword.fn = true
starts_statement Keyword.type = true
starts_statement Keyword.alias = true
starts_statement Keyword.if_ = true
starts_statement Keyword.while = true
starts_statement Keyword.for = true
starts_statement Keyword.return = true
starts_statement Keyword.break = true
starts_statement Keyword.continue = true
starts_statement _ = false

module _ {F : Type 0} where
  unfoldable pub recovery : TokenKind F → Recovery
  unfolding starts_statement
  recovery TokenKind.eof = stops
  recovery TokenKind.close_brace = stops
  recovery (TokenKind.keyword keyword) = if starts_statement keyword then stops else skips
  recovery TokenKind.newline = past
  recovery TokenKind.semicolon = past
  recovery _ = skips

  unfoldable pub recover_as :
      (Parser F → Parsed F (Unit {0})) → Recovery → Parser F → Parsed F (Unit {0})
  unfolding advance
  recover_as again stops p = parsed tt p
  recover_as again past p = advance p >>- λ t p. parsed tt p
  recover_as again skips p = advance p >>- λ t p. again p

  unfoldable pub synchronize_within : ℕ → Parser F → Parsed F (Unit {0})
  unfolding peek recovery recover_as
  synchronize_within zero p = out_of_fuel
  synchronize_within (suc rounds) p =
      reading p (peek p) >>- λ t p. recover_as (synchronize_within rounds) (recovery t.kind) p

  unfoldable pub synchronize : Parser F → Parsed F (Unit {0})
  unfolding synchronize_within
  synchronize p = synchronize_within (suc (length p.tokens)) p
