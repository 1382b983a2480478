-- ===== src/Parser/Recovery/Classes.antt =====
-- The tokens at which src/parser/expressions.rs goes on after an error.
use aspect.Prelude.{◌≡◌, ◌↔◌, inl, inr, refl, Bool, true, false, Bool-cases, if◌then◌else◌}
use aspect.Lexer.Token.{TokenKind, Keyword}
use aspect.Parser.Recovery.{stops, past, skips, starts_statement, recovery}

-- The keywords that start a definition or a statement.
pub data StartsStatement : Keyword → Type 0 where
  fn_starts : StartsStatement Keyword.fn
  type_starts : StartsStatement Keyword.type
  alias_starts : StartsStatement Keyword.alias
  if_starts : StartsStatement Keyword.if_
  while_starts : StartsStatement Keyword.while
  for_starts : StartsStatement Keyword.for
  return_starts : StartsStatement Keyword.return
  break_starts : StartsStatement Keyword.break
  continue_starts : StartsStatement Keyword.continue

-- The kinds that the parser stops before.
pub data StopsAt {F : Type 0} : TokenKind F → Type 0 where
  end_stops : StopsAt TokenKind.eof
  brace_stops : StopsAt TokenKind.close_brace
  keyword_stops : {k : Keyword} → StartsStatement k → StopsAt (TokenKind.keyword k)

-- The kinds that the parser goes on behind.
pub data Terminates {F : Type 0} : TokenKind F → Type 0 where
  newline_ends : Terminates TokenKind.newline
  semicolon_ends : Terminates TokenKind.semicolon

starts-StartsStatement : (k : Keyword) → starts_statement k ≡ true → StartsStatement k
unfolding starts_statement
starts-StartsStatement Keyword.fn h = fn_starts
starts-StartsStatement Keyword.type h = type_starts
starts-StartsStatement Keyword.alias h = alias_starts
starts-StartsStatement Keyword.if_ h = if_starts
starts-StartsStatement Keyword.while h = while_starts
starts-StartsStatement Keyword.for h = for_starts
starts-StartsStatement Keyword.return h = return_starts
starts-StartsStatement Keyword.break h = break_starts
starts-StartsStatement Keyword.continue h = continue_starts
starts-StartsStatement _ h = cc

StartsStatement-starts : (k : Keyword) → StartsStatement k → starts_statement k ≡ true
unfolding starts_statement
StartsStatement-starts _ fn_starts = refl
StartsStatement-starts _ type_starts = refl
StartsStatement-starts _ alias_starts = refl
StartsStatement-starts _ if_starts = refl
StartsStatement-starts _ while_starts = refl
StartsStatement-starts _ for_starts = refl
StartsStatement-starts _ return_starts = refl
StartsStatement-starts _ break_starts = refl
StartsStatement-starts _ continue_starts = refl

keyword_not_past : (b : Bool) → (if b then stops else skips) ≡ past → ⊥
keyword_not_past true h = cc
keyword_not_past false h = cc

module _ {F : Type 0} where
  keyword-StopsAt :
      (k : Keyword)
      → (if starts_statement k then stops else skips) ≡ stops
      → StopsAt {F = F} (TokenKind.keyword k)
  keyword-StopsAt k h = elim (Bool-cases (starts_statement k)) [
    | inl e ↦ keyword_stops (starts-StartsStatement k e)
    | inr e ↦ cc (rw e at h)
  ]

  recovery-StopsAt : (kind : TokenKind F) → recovery kind ≡ stops → StopsAt kind
  unfolding recovery
  recovery-StopsAt TokenKind.eof h = end_stops
  recovery-StopsAt TokenKind.close_brace h = brace_stops
  recovery-StopsAt (TokenKind.keyword k) h = keyword-StopsAt k h
  recovery-StopsAt _ h = cc

  StopsAt-recovery : (kind : TokenKind F) → StopsAt kind → recovery kind ≡ stops
  unfolding recovery
  StopsAt-recovery _ end_stops = refl
  StopsAt-recovery _ brace_stops = refl
  StopsAt-recovery _ (keyword_stops {k = k} s) = rw (StartsStatement-starts k s) refl

  recovery-Terminates : (kind : TokenKind F) → recovery kind ≡ past → Terminates kind
  unfolding recovery
  recovery-Terminates TokenKind.newline h = newline_ends
  recovery-Terminates TokenKind.semicolon h = semicolon_ends
  recovery-Terminates (TokenKind.keyword k) h = absurd (keyword_not_past (starts_statement k) h)
  recovery-Terminates _ h = cc

  Terminates-recovery : (kind : TokenKind F) → Terminates kind → recovery kind ≡ past
  unfolding recovery
  Terminates-recovery _ newline_ends = refl
  Terminates-recovery _ semicolon_ends = refl

  pub stops_iff : (kind : TokenKind F) → (recovery kind ≡ stops) ↔ StopsAt kind
  stops_iff kind = (recovery-StopsAt kind, StopsAt-recovery kind)

  pub past_iff : (kind : TokenKind F) → (recovery kind ≡ past) ↔ Terminates kind
  past_iff kind = (recovery-Terminates kind, Terminates-recovery kind)
