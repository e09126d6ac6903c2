-- ===== src/Parser/Parse.antt =====
-- lib/sysbvm/parser.c: the recursion of the grammar, sysbvm_parser_parseTokens and
-- sysbvm_parser_parseSourceCode.
use sysmel.Parser.Blocks.{primary_term}
use sysmel.Parser.Expressions.{assignment_expression}
use sysmel.Parser.Literals.{parse_literal_array}
use sysmel.Parser.Messages.{unary_expression, binary_expression}
use sysmel.Parser.Sequences.{parse_sequence}
use sysmel.Parser.State.{Env}
use sysmel.Parser.Syntax.{Node}
use sysmel.Prelude.{ℕ, zero, suc, List, length}
use sysmel.Run.{Run, ok, err, fault, ◌>>=◌}
use sysmel.Scanner.Scan.{scan}
use sysmel.Scanner.Token.{Token}

-- The functions under a bound on the depth of their calls; without depth left the C stack is full.
-- Every recursive call is behind a token of its caller, so a depth above the count of the tokens is
-- enough.
unfoldable pub env : List Token → ℕ → ℕ → Env
env tokens text_size zero = record {
  tokens = tokens;
  text_size = text_size;
  primary_term = λ p. fault;
  unary_expression = λ p. fault;
  binary_expression = λ p. fault;
  assignment_expression = λ p. fault;
  literal_array = λ p. fault;
}
env tokens text_size (suc depth) = record {
  tokens = tokens;
  text_size = text_size;
  primary_term = λ p. primary_term (env tokens text_size depth) p;
  unary_expression = λ p. unary_expression (env tokens text_size depth) p;
  binary_expression = λ p. binary_expression (env tokens text_size depth) p;
  assignment_expression = λ p. assignment_expression (env tokens text_size depth) p;
  literal_array = λ p. parse_literal_array (env tokens text_size depth) p;
}

unfoldable pub first_of : Run (Node × ℕ) → Run Node
first_of (ok (n, p)) = ok n
first_of (err x) = err x
first_of fault = fault

unfoldable pub parse_tokens : List Token → ℕ → Run Node
parse_tokens tokens text_size =
    first_of (parse_sequence (env tokens text_size (suc (length tokens))) 0)

unfoldable pub parse_source_code : (List ℕ → ℕ) → List ℕ → Run Node
parse_source_code atof text = do tokens ← scan atof text; parse_tokens tokens (length text)
