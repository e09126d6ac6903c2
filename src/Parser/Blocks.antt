-- ===== src/Parser/Blocks.antt =====
-- lib/sysbvm/parser.c: parentheses, blocks, byte arrays, dictionaries, and the terms.
use sysmel.Parser.Literals.{
  parse_identifier_reference, parse_literal_token_value, parse_literal_array, parse_quote,
  parse_quasi_quote, parse_quasi_unquote, parse_splice, close_with,
}
use sysmel.Parser.Sequences.{
  parse_expression, parse_expression_list_until, parse_sequence_until, skip_dots,
}
use sysmel.Parser.Syntax.{
  Node, null, literal, make_array, make_byte_array, make_dictionary, make_association, argument,
  lambda, lexical_block, as_nodes, is_error_node, is_null, text_of, expected_left_parenthesis,
  expected_right_parenthesis, expected_type_end, expected_argument_colon, expected_argument_name,
  expected_left_curly, expected_right_curly, expected_block_bar, expected_byte_array_start,
  expected_right_bracket, expected_dictionary_start,
}
use sysmel.Parser.State.{
  Parser, pure, ◌>>=◌, ◌>>◌, position, skip, at_kind, next_kind, when, on_kind, while,
  look_at_token, span_of, span_for_range, syntax_error, unexpected_token_at, parse_unary_expression,
  parse_binary_expression,
}
use sysmel.Prelude.{
  ℕ, suc, ◌-◌, Bool, true, false, ◌&&◌, ◌||◌, not, ◌==◌, leb, if◌then◌else◌, Option, none, some,
  List, [], ◌∷◌, ◌++◌, length, get_or, take,
}
use sysmel.Run.{ok}
use sysmel.Scanner.Convert.{TokenValue}
use sysmel.Scanner.Convert
use sysmel.Scanner.Token.{
  TokenKind, character, float, identifier, integer, keyword, multi_keyword, operator, string,
  symbol, lparent, rparent, rbracket, lcbracket, rcbracket, less_than, greater_than, star, colon,
  colon_colon, bar, dot, ellipsis, quote, quasi_quote, quasi_unquote, splice, byte_array_start,
  dictionary_start, literal_array_start,
}

unfoldable pub parenthesized : Parser Node
parenthesized = do
  inner ← parse_expression
  when (at_kind rparent) (do skip; pure inner) (syntax_error expected_right_parenthesis)

unfoldable pub parse_parentheses : Parser Node
parse_parentheses =
    when (at_kind lparent)
      (do
        start ← position
        skip
        when (λ e p. at_kind keyword e p && next_kind rparent e p)
            (do
              result ← parse_identifier_reference
              when (at_kind rparent) (do skip; pure result)
                  (syntax_error expected_right_parenthesis))
            (when (at_kind rparent)
              (do
                skip
                stop ← position
                where_at ← span_for_range start stop
                pure (make_array where_at (as_nodes [])))
              parenthesized))
      (syntax_error expected_left_parenthesis)

-- The name of an argument, and the argument.
unfoldable pub argument_name : ℕ → Bool → Node → Parser Node
argument_name start for_all type =
    when (at_kind identifier)
      (do
        name ← parse_literal_token_value
        stop ← position
        where_at ← span_for_range start stop
        pure (argument where_at for_all name type))
      (syntax_error expected_argument_name)

-- The type in parentheses, if there is one.
unfoldable pub argument_type : ℕ → Bool → Parser Node
argument_type start for_all =
    when (at_kind lparent)
      (do
        skip
        type ← parse_expression
        when (at_kind rparent) (do skip; argument_name start for_all type)
            (syntax_error expected_type_end))
      (argument_name start for_all null)

-- `if(kind == k) { flag = true; ++state->tokenPosition; }`
unfoldable pub take_flag : TokenKind → Parser Bool
take_flag kind = when (at_kind kind) (do skip; pure true) (pure false)

unfoldable pub parse_block_argument : Parser Node
parse_block_argument =
    when (at_kind colon)
      (do start ← position; skip; for_all ← take_flag star; argument_type start for_all)
      (syntax_error expected_argument_colon)

-- The body of a block up to its bracket, and the block.
unfoldable pub block_body : ℕ → Bool → Bool → List Node → Node → Parser Node
block_body start is_lambda has_ellipsis arguments type = do
  body ← parse_sequence_until rcbracket
  close_with rcbracket expected_right_curly start (λ s.
      if is_lambda
      then lambda s has_ellipsis (as_nodes arguments) type body
      else lexical_block s body)

-- The result type, if there is one: whether there is, and the type.
unfoldable pub result_type : Parser (Bool × Node)
result_type =
    when (at_kind colon_colon) (do skip; type ← parse_unary_expression; pure (true, type))
      (pure (false, null))

unfoldable pub parse_block_expression : Parser Node
parse_block_expression =
    when (at_kind lcbracket)
      (do
        start ← position
        skip
        arguments ←
            while (at_kind colon) (λ list. do a ← parse_block_argument; pure (list ++ a ∷ [], true))
              []
        has_ellipsis ← when (λ e p. leb 1 (length arguments)) (take_flag ellipsis) (pure false)
        typed ← result_type
        has_bar ← take_flag bar
        if typed.0 && not has_bar
            then syntax_error expected_block_bar
            else block_body start has_bar has_ellipsis arguments typed.1)
      (syntax_error expected_left_curly)

unfoldable pub parse_byte_array_expression : Parser Node
parse_byte_array_expression =
    when (at_kind byte_array_start)
      (do
        start ← position
        skip
        elements ← parse_expression_list_until rbracket
        close_with rbracket expected_right_bracket start
            (λ s. make_byte_array s (as_nodes elements)))
      (syntax_error expected_byte_array_start)

-- sysbvm_string_createWithoutSuffix, with ":"
unfoldable pub without_colon : List ℕ → List ℕ
without_colon text =
    if leb 1 (length text) && get_or text (length text - 1) 0 == b':'
    then take (length text - 1) text
    else text

-- The value of an association, if there is one, and the association.
unfoldable pub association_value : ℕ → Node → Parser Node
association_value start key = do
  value ←
      when (λ e p. not (at_kind dot e p) && not (at_kind rcbracket e p)) parse_expression
        (pure null)
  stop ← position
  where_at ← span_for_range start stop
  pure (make_association where_at key value)

-- The key that a keyword token stands for.
unfoldable pub keyword_key : Parser Node
keyword_key e p = elim (look_at_token 0 e p) [
  | none ↦ ok (null, p)
  | some t ↦ ok (literal (span_of t) (Convert.symbol (without_colon (text_of t.value))), suc p)
]

-- A key that is an expression: missing or an error, without a colon, or with one.
unfoldable pub expression_key : ℕ → Parser Node
expression_key start = do
  key ← parse_binary_expression
  if is_null key || is_error_node key
      then pure key
      else when (at_kind colon) (do skip; association_value start key)
          (do
            stop ← position
            where_at ← span_for_range start stop
            pure (make_association where_at key null))

unfoldable pub parse_dictionary_element : Parser Node
parse_dictionary_element = do
  start ← position
  when (at_kind keyword) (do key ← keyword_key; association_value start key) (expression_key start)

unfoldable pub dictionary_round : List Node → Parser (List Node × Bool)
dictionary_round associations = do
  association ← parse_dictionary_element
  if is_null association
      then pure (associations, false)
      else when (λ e p. at_kind dot e p && not (is_error_node association))
          (do skip_dots; pure (associations ++ association ∷ [], true))
          (pure (associations ++ association ∷ [], false))

unfoldable pub parse_dictionary_elements : Parser (List Node)
parse_dictionary_elements = do
  skip_dots
  while (λ e p. not (at_kind rcbracket e p)) dictionary_round []

unfoldable pub parse_dictionary_expression : Parser Node
parse_dictionary_expression =
    when (at_kind dictionary_start)
      (do
        start ← position
        skip
        elements ← parse_dictionary_elements
        close_with rcbracket expected_right_bracket start
            (λ s. make_dictionary s (as_nodes elements)))
      (syntax_error expected_dictionary_start)

-- The cases of the switches of parsePrimaryTerm.
pub data TermCase : Type 0 where
  no_term reference_term literal_term parentheses_term block_term array_term : TermCase
  byte_array_term dictionary_term other_term : TermCase

unfoldable pub term_case : Option TokenKind → TermCase
term_case none = no_term
term_case (some identifier) = reference_term
term_case (some ellipsis) = reference_term
term_case (some operator) = reference_term
term_case (some bar) = reference_term
term_case (some star) = reference_term
term_case (some less_than) = reference_term
term_case (some greater_than) = reference_term
term_case (some multi_keyword) = reference_term
term_case (some character) = literal_term
term_case (some integer) = literal_term
term_case (some float) = literal_term
term_case (some string) = literal_term
term_case (some symbol) = literal_term
term_case (some lparent) = parentheses_term
term_case (some lcbracket) = block_term
term_case (some literal_array_start) = array_term
term_case (some byte_array_start) = byte_array_term
term_case (some dictionary_start) = dictionary_term
term_case (some k) = other_term

unfoldable pub parse_term_case : TermCase → Parser Node
parse_term_case no_term = pure null
parse_term_case reference_term = parse_identifier_reference
parse_term_case literal_term = parse_literal_token_value
parse_term_case parentheses_term = parse_parentheses
parse_term_case block_term = parse_block_expression
parse_term_case array_term = parse_literal_array
parse_term_case byte_array_term = parse_byte_array_expression
parse_term_case dictionary_term = parse_dictionary_expression
parse_term_case other_term = unexpected_token_at

unfoldable pub primary_term : Parser Node
primary_term = on_kind (λ k. parse_term_case (term_case k))

-- The cases of the switch of parsePrimaryExpression.
unfoldable pub parse_primary_expression : Parser Node
parse_primary_expression = when (at_kind quote) parse_quote (
    when (at_kind quasi_quote) parse_quasi_quote (
      when (at_kind quasi_unquote) parse_quasi_unquote
        (when (at_kind splice) parse_splice primary_term)))
