-- ===== src/Tests/Parsing.antt =====
-- Runs of the parser.
use sysmel.Parser.Blocks.{parse_block_expression}
use sysmel.Parser.Parse.{parse_tokens, env}
use sysmel.Parser.Reading.Total.{parse_tokens_ends}
use sysmel.Parser.Sends.{parse_tokens-sends, sends, last, Names}
use sysmel.Parser.State.{span_of, kind_number}
use sysmel.Parser.Syntax.{Node, identifier_reference, sequence, as_nodes}
use sysmel.Parser.Unfinished.{parse_block_expression-last}
use sysmel.Prelude.{ℕ, ◌≡◌, refl, ◌⊎◌, ◌+◌, List, [], ◌∷◌}
use sysmel.Run.{ok, err, index_out_of_bounds}
use sysmel.Scanner.Convert
use sysmel.Scanner.Token.{Token, TokenKind, identifier, lparent, lcbracket}

abbrev token : TokenKind → ℕ → List ℕ → Token
token kind start text = record {
  kind = kind;
  start = start;
  stop = start + 3;
  value = Convert.symbol text;
}

-- `foo bar baz`
abbrev foo : Token
foo = token identifier 0 (b'f' ∷ b'o' ∷ b'o' ∷ [])

abbrev bar_baz : List Token
bar_baz =
    token identifier 4 (b'b' ∷ b'a' ∷ b'r' ∷ []) ∷ token identifier 8 (b'b' ∷ b'a' ∷ b'z' ∷ []) ∷ []

-- Brackets that are never closed.
abbrev open_brackets : List Token
open_brackets = foo ∷ token lparent 4 [] ∷ token lcbracket 8 [] ∷ []

parse_tokens_ends_example :
    ((n : Node) × (parse_tokens open_brackets 12 ≡ ok n))
    ⊎ (parse_tokens open_brackets 12 ≡ err index_out_of_bounds)
parse_tokens_ends_example = parse_tokens_ends open_brackets 12

foo-Names : Names (foo ∷ bar_baz)
unfolding Names
foo-Names = (refl, (refl, (refl, tt)))

parse_tokens-sends_example :
    parse_tokens (foo ∷ bar_baz) 11
    ≡ ok (
        sequence
          (record { start = foo.start; stop = (last foo bar_baz).stop })
          (as_nodes [])
          (as_nodes (sends foo.start (identifier_reference (span_of foo) foo.value) bar_baz ∷ [])))
parse_tokens-sends_example = parse_tokens-sends foo bar_baz 11 foo-Names

parse_block_expression-last_example :
    parse_block_expression (env open_brackets 12 3) 2 ≡ err index_out_of_bounds
unfolding env kind_number
parse_block_expression-last_example =
    parse_block_expression-last (env open_brackets 12 3) 2 refl refl
