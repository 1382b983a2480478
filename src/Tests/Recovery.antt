-- ===== src/Tests/Recovery.antt =====
-- Recovery after an error at a concrete input.
use aspect.Prelude.{
  ℕ, zero, suc, ◌≡◌, ◌<◌, refl, subst, sym, some-inj, true, false, some, List, [], ◌∷◌, codes,
  arith, length, get_elem?,
}
use aspect.Lexer.Token
use aspect.Lexer.Token.{Token, TokenKind}
use aspect.Parser.State.{Parser, parsed, is_eof, advance, peek, is_at_end, previous, token_before}
use aspect.Parser.Recovery.{stops, past, synchronize, synchronize_within, recovery, recover_as}
use aspect.Prelude.{◌↔◌}
use aspect.Parser.Recovery.Classes.{StopsAt, Terminates}
use aspect.Parser.Recovery.Places.{HasEnd, Recovered, synchronize-Recovered}
use aspect.Tests.Layouts.{gate, site}

abbrev rest_of_line : List (Token (Unit {0}))
rest_of_line =
    Token.new (TokenKind.identifier (codes "x")) site (codes "x")
    ∷ Token.new TokenKind.semicolon site (codes ";")
    ∷ Token.new TokenKind.eof site []
    ∷ []

abbrev broken : Parser (Unit {0})
broken = record gate { tokens = rest_of_line }

broken-HasEnd : HasEnd broken
unfolding is_eof
broken-HasEnd = record { inside = omega arith; more = another }
  where
    another :
        (i : ℕ) (t : Token (Unit {0}))
        → get_elem? rest_of_line i ≡ some t
        → is_eof t.kind ≡ false
        → suc i < length rest_of_line
    another zero t h e = omega arith
    another (suc zero) t h e = omega arith
    another (suc (suc zero)) t h e =
        let no : true ≡ false = subst (λ u. is_eof u.kind ≡ false) (sym (some-inj h)) e in cc
    another (suc (suc (suc i))) t h e = cc

behind_semicolon : synchronize broken ≡ parsed tt (record broken { current = 2 })
unfolding synchronize synchronize_within recovery recover_as advance peek is_at_end previous
    token_before is_eof
behind_semicolon = refl

synchronize-Recovered_example :
    ((q : Parser (Unit {0})) × (synchronize broken ≡ parsed tt q) × Recovered broken q)
    × ((kind : TokenKind (Unit {0})) → (recovery kind ≡ stops) ↔ StopsAt kind)
    × ((kind : TokenKind (Unit {0})) → (recovery kind ≡ past) ↔ Terminates kind)
synchronize-Recovered_example = synchronize-Recovered broken broken-HasEnd
