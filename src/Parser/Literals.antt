-- ===== src/Parser/Literals.antt =====
-- lib/sysbvm/parser.c: tokens as nodes, quotes, literal arrays and dictionaries.

use sysmel.Parser.State.{
  Parser, Test, pure, ◌>>=◌, ◌>>◌, position, skip, at_kind, at_token, when, on_kind, while,
  look_at_token, span_of, span_for_range, syntax_error, unexpected_token_at, parse_primary_term,
  parse_literal_array_expression,
}
use sysmel.Parser.Syntax.{
  Span, SyntaxError, Node, null, identifier_reference, literal, quote_node, quasi_quote_node,
  quasi_unquote_node, splice_node, make_array, make_byte_array, as_nodes, is_null,
  expected_identifier, expected_atom, expected_quote, expected_byte_array, expected_literal_array,
  expected_right_parent,
}
use sysmel.Prelude.{
  ℕ, suc, Bool, true, false, ◌&&◌, ◌||◌, not, if◌then◌else◌, Option, none, some, List, [], ◌∷◌,
  ◌++◌,
}
use sysmel.Run.{ok}
use sysmel.Scanner.Convert.{TokenValue}
use sysmel.Scanner.Token.{
  TokenKind, character, float, identifier, integer, keyword, multi_keyword, operator, string,
  symbol, lparent, rparent, rbracket, less_than, greater_than, star, colon, colon_colon, bar, comma,
  dot, ellipsis, quote, quasi_quote, quasi_unquote, splice, byte_array_start, literal_array_start,
}

-- The token at the state as a node, and the state behind it; without a token, an error node.
unfoldable pub token_node : (Span → TokenValue → Node) → SyntaxError → Parser Node
token_node make x e p = elim (look_at_token 0 e p) [
  | none ↦ syntax_error x e p
  | some t ↦ ok (make (span_of t) t.value, suc p)
]

unfoldable pub parse_identifier_reference : Parser Node
parse_identifier_reference = token_node identifier_reference expected_identifier

unfoldable pub parse_literal_token_value : Parser Node
parse_literal_token_value = token_node literal expected_atom

-- The four quoting forms, by the kind of their token and their node.
unfoldable pub parse_quoting : TokenKind → (Span → Node → Node) → Parser Node
parse_quoting kind make =
    when (at_kind kind)
      (do
        start ← position
        skip
        inner ← parse_primary_term
        stop ← position
        where_at ← span_for_range start stop
        pure (make where_at inner))
      (syntax_error expected_quote)

unfoldable pub parse_quote : Parser Node
parse_quote = parse_quoting quote quote_node

unfoldable pub parse_quasi_quote : Parser Node
parse_quasi_quote = parse_quoting quasi_quote quasi_quote_node

unfoldable pub parse_quasi_unquote : Parser Node
parse_quasi_unquote = parse_quoting quasi_unquote quasi_unquote_node

unfoldable pub parse_splice : Parser Node
parse_splice = parse_quoting splice splice_node

-- The cases of the switch of parseLiteralArrayElement.
pub data ElementCase : Type 0 where
  no_element token_element array_element byte_array_element other_element : ElementCase

unfoldable pub element_case : Option TokenKind → ElementCase
element_case none = no_element
element_case (some identifier) = token_element
element_case (some ellipsis) = token_element
element_case (some multi_keyword) = token_element
element_case (some keyword) = token_element
element_case (some operator) = token_element
element_case (some star) = token_element
element_case (some less_than) = token_element
element_case (some greater_than) = token_element
element_case (some colon) = token_element
element_case (some colon_colon) = token_element
element_case (some bar) = token_element
element_case (some comma) = token_element
element_case (some dot) = token_element
element_case (some character) = token_element
element_case (some integer) = token_element
element_case (some float) = token_element
element_case (some string) = token_element
element_case (some symbol) = token_element
element_case (some lparent) = array_element
element_case (some literal_array_start) = array_element
element_case (some byte_array_start) = byte_array_element
element_case (some k) = other_element

-- The end of a bracketed form: its closing token, and the node over the whole range.
unfoldable pub close_with : TokenKind → SyntaxError → ℕ → (Span → Node) → Parser Node
close_with kind x start make =
    when (at_kind kind)
      (do skip; stop ← position; where_at ← span_for_range start stop; pure (make where_at))
      (syntax_error x)

unfoldable pub byte_array_round : List Node → Parser (List Node × Bool)
byte_array_round elements =
    when (at_kind dot) (do skip; pure (elements, true))
      (when (at_kind integer)
        (do
          element ← parse_literal_token_value
          if is_null element then pure (elements, false) else pure (elements ++ element ∷ [], true))
        (pure (elements, false)))

unfoldable pub parse_literal_byte_array : Parser Node
parse_literal_byte_array =
    when (at_kind byte_array_start)
      (do
        start ← position
        skip
        elements ← while (λ e p. at_token e p && not (at_kind rbracket e p)) byte_array_round []
        close_with rbracket expected_right_parent start
            (λ s. make_byte_array s (as_nodes elements)))
      (syntax_error expected_byte_array)

unfoldable pub parse_element_case : ElementCase → Parser Node
parse_element_case no_element = pure null
parse_element_case token_element = parse_literal_token_value
parse_element_case array_element = parse_literal_array_expression
parse_element_case byte_array_element = parse_literal_byte_array
parse_element_case other_element = unexpected_token_at

unfoldable pub parse_literal_array_element : Parser Node
parse_literal_array_element = on_kind (λ k. parse_element_case (element_case k))

unfoldable pub literal_array_round : List Node → Parser (List Node × Bool)
literal_array_round elements = do
  element ← parse_literal_array_element
  if is_null element then pure (elements, false) else pure (elements ++ element ∷ [], true)

abbrev pub at_array : Test
at_array e p = at_kind literal_array_start e p || at_kind lparent e p

unfoldable pub parse_literal_array : Parser Node
parse_literal_array =
    when at_array
      (do
        start ← position
        skip
        elements ← while (λ e p. at_token e p && not (at_kind rparent e p)) literal_array_round []
        close_with rparent expected_right_parent start (λ s. make_array s (as_nodes elements)))
      (syntax_error expected_literal_array)
