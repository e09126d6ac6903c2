-- ===== src/Parser/Messages.antt =====
-- lib/sysbvm/parser.c: unary and binary expressions, messages without a receiver and chains of
-- messages.
use sysmel.Parser.Blocks.{
  parse_primary_expression, parse_block_expression, parse_byte_array_expression,
  parse_dictionary_expression,
}
use sysmel.Parser.Literals.{parse_literal_token_value, parse_quasi_unquote}
use sysmel.Parser.Sequences.{parse_expression, keyword_parts}
use sysmel.Parser.Syntax.{
  Span, Node, null, literal, identifier_reference, message_send, unexpanded_s_expression,
  binary_expression_sequence, unexpanded_application, message_chain, message_chain_message,
  as_nodes, expected_left_parenthesis, expected_right_parenthesis, expected_subscript_left,
  expected_subscript_right, expected_chained_message, is_null,
}
use sysmel.Parser.State.{
  Parser, Test, pure, ◌>>=◌, ◌>>◌, position, skip, is_kind, look_kind_at, at_kind, at_token, when,
  on_kind, while, span_for_range, syntax_error, parse_assignment_expression,
}
use sysmel.Prelude.{
  ℕ, Bool, true, false, ◌&&◌, ◌||◌, not, if◌then◌else◌, Option, none, some, List, [], ◌∷◌, ◌++◌,
}
use sysmel.Scanner.Convert.{TokenValue}
use sysmel.Scanner.Convert
use sysmel.Scanner.Token.{
  TokenKind, identifier, keyword, operator, lparent, rparent, lbracket, rbracket, lcbracket,
  less_than, greater_than, star, bar, semicolon, comma, quasi_unquote, byte_array_start,
  dictionary_start,
}

abbrev make_unary_message_send : Span → Node → Node → Node
make_unary_message_send s receiver selector = message_send s receiver selector (as_nodes [])

abbrev pub make_binary_message_send : Span → Node → Node → Node → Node
make_binary_message_send s receiver selector operand =
    message_send s receiver selector (as_nodes (operand ∷ []))

-- An argument behind a comma.
unfoldable pub argument_round : List Node → Parser (List Node × Bool)
argument_round arguments = do
  skip
  argument ← parse_assignment_expression
  pure (arguments ++ argument ∷ [], true)

-- The arguments behind the receiver.
unfoldable pub call_arguments : Node → Parser (List Node)
call_arguments receiver =
    when (λ e p. at_token e p && not (at_kind rparent e p))
      (do
        argument ← parse_assignment_expression
        while (at_kind comma) argument_round (receiver ∷ argument ∷ []))
      (pure (receiver ∷ []))

unfoldable pub parse_call : Node → ℕ → Parser Node
parse_call receiver start =
    when (at_kind lparent)
      (do
        skip
        arguments ← call_arguments receiver
        when (at_kind rparent)
            (do
              skip
              stop ← position
              where_at ← span_for_range start stop
              pure (unexpanded_s_expression where_at (as_nodes arguments)))
            (syntax_error expected_right_parenthesis))
      (syntax_error expected_left_parenthesis)

-- `[]:` and `[]`
abbrev subscript_send : Span → Node → Node → Node
subscript_send s receiver index =
    if is_null index
    then make_unary_message_send s receiver (literal s (Convert.symbol (b'[' ∷ b']' ∷ [])))
    else make_binary_message_send s receiver (literal s (Convert.symbol (b'[' ∷ b']' ∷ b':' ∷ [])))
        index

unfoldable pub parse_subscript : Node → ℕ → Parser Node
parse_subscript receiver start =
    when (at_kind lbracket)
      (do
        skip
        argument ←
            when (λ e p. at_token e p && not (at_kind rbracket e p)) parse_expression (pure null)
        when (at_kind rbracket)
            (do
              skip
              stop ← position
              where_at ← span_for_range start stop
              pure (subscript_send where_at receiver argument))
            (syntax_error expected_subscript_right))
      (syntax_error expected_subscript_left)

-- A block, a byte array or a dictionary is applied with the selector of its brackets.
unfoldable pub parse_apply : Parser Node → List ℕ → Node → ℕ → Parser Node
parse_apply inner selector receiver start = do
  operand ← inner
  stop ← position
  where_at ← span_for_range start stop
  pure (
      make_binary_message_send where_at receiver (literal where_at (Convert.symbol selector))
        operand)

abbrev block_selector : List ℕ
block_selector = b'{' ∷ b'}' ∷ b':' ∷ []

abbrev byte_array_selector : List ℕ
byte_array_selector = b'#' ∷ b'[' ∷ b']' ∷ b':' ∷ []

abbrev dictionary_selector : List ℕ
dictionary_selector = b'#' ∷ b'{' ∷ b'}' ∷ b':' ∷ []

-- A selector and the message without arguments.
unfoldable pub parse_unary_send : Parser Node → Node → ℕ → Parser Node
parse_unary_send selector_parser receiver start = do
  selector ← selector_parser
  stop ← position
  where_at ← span_for_range start stop
  pure (make_unary_message_send where_at receiver selector)

-- The cases of the switch of parseUnaryExpression.
pub data UnaryCase : Type 0 where
  send_case unquote_case call_case block_case subscript_case byte_array_case dictionary_case
        end_case :
      UnaryCase

unfoldable pub unary_case : Option TokenKind → UnaryCase
unary_case none = end_case
unary_case (some identifier) = send_case
unary_case (some quasi_unquote) = unquote_case
unary_case (some lparent) = call_case
unary_case (some lcbracket) = block_case
unary_case (some lbracket) = subscript_case
unary_case (some byte_array_start) = byte_array_case
unary_case (some dictionary_start) = dictionary_case
unary_case (some k) = end_case

unfoldable pub parse_unary_case : UnaryCase → Node → ℕ → Parser Node
parse_unary_case send_case receiver start =
    parse_unary_send parse_literal_token_value receiver start
parse_unary_case unquote_case receiver start = parse_unary_send parse_quasi_unquote receiver start
parse_unary_case call_case receiver start = parse_call receiver start
parse_unary_case block_case receiver start =
    parse_apply parse_block_expression block_selector receiver start
parse_unary_case subscript_case receiver start = parse_subscript receiver start
parse_unary_case byte_array_case receiver start =
    parse_apply parse_byte_array_expression byte_array_selector receiver start
parse_unary_case dictionary_case receiver start =
    parse_apply parse_dictionary_expression dictionary_selector receiver start
parse_unary_case end_case receiver start = pure receiver

-- The cases that go on.
abbrev pub goes_on : UnaryCase → Bool
goes_on end_case = false
goes_on c = true

unfoldable pub unary_round : ℕ → Node → Parser (Node × Bool)
unary_round start receiver =
    on_kind (λ k. do next ← parse_unary_case (unary_case k) receiver start; pure (next, true))

unfoldable pub unary_expression : Parser Node
unary_expression = do
  start ← position
  receiver ← parse_primary_expression
  while (λ e p. goes_on (unary_case (look_kind_at 0 e p))) (unary_round start) receiver

unfoldable pub is_binary_operator : Option TokenKind → Bool
is_binary_operator k =
    is_kind operator k
    || is_kind star k
    || is_kind less_than k
    || is_kind greater_than k
    || is_kind bar k

abbrev pub at_operator : Test
at_operator e p = is_binary_operator (look_kind_at 0 e p)

-- Operands and operators, in the order of the source.
pub record Operations : Type 0 where
  pub operands : List Node
  pub operators : List Node

unfoldable pub operation_round : Operations → Parser (Operations × Bool)
operation_round o = do
  operator_node ← parse_literal_token_value
  operand ← unary_expression
  pure (
    record { operands = o.operands ++ operand ∷ []; operators = o.operators ++ operator_node ∷ [] },
    true,
  )

-- One operation is a message; more are kept as a sequence.
unfoldable pub binary_node : Span → List Node → List Node → Node
binary_node s (a ∷ b ∷ operands) (f ∷ []) = make_binary_message_send s a f b
binary_node s operands operators =
    binary_expression_sequence s (as_nodes operands) (as_nodes operators)

unfoldable pub binary_expression : Parser Node
binary_expression = do
  start ← position
  first ← unary_expression
  when at_operator
      (do
        o ← while at_operator operation_round (record { operands = first ∷ []; operators = [] })
        stop ← position
        where_at ← span_for_range start stop
        pure (binary_node where_at o.operands o.operators))
      (pure first)

unfoldable pub parse_message_without_receiver : Parser Node
parse_message_without_receiver =
    when (at_kind keyword)
      (do
        start ← position
        parts ← keyword_parts binary_expression
        keywords ← span_for_range start parts.keyword_end
        stop ← position
        where_at ← span_for_range start stop
        pure (
            unexpanded_application where_at
              (identifier_reference keywords (Convert.symbol parts.selector))
              (as_nodes parts.arguments)))
      (syntax_error expected_subscript_left)

-- sysbvm_parser_parseKeywordMessageParts: the selector and the arguments.
unfoldable pub parse_keyword_message_parts : Parser (Node × List Node)
parse_keyword_message_parts = do
  start ← position
  parts ← keyword_parts binary_expression
  where_at ← span_for_range start parts.keyword_end
  pure (literal where_at (Convert.symbol parts.selector), parts.arguments)

-- A message of a chain, over the range from its start.
unfoldable pub chained : ℕ → Node → List Node → Parser Node
chained start selector arguments = do
  stop ← position
  where_at ← span_for_range start stop
  pure (message_chain_message where_at selector (as_nodes arguments))

unfoldable pub chained_message : Parser Node
chained_message = do
  start ← position
  when (at_kind keyword) (do parts ← parse_keyword_message_parts; chained start parts.0 parts.1)
      (when at_operator
        (do
          selector ← parse_literal_token_value
          operand ← binary_expression
          chained start selector (operand ∷ []))
        (when (at_kind identifier)
          (do selector ← parse_literal_token_value; chained start selector [])
          (do n ← syntax_error expected_chained_message; skip; pure n)))

unfoldable pub chain_round : List Node → Parser (List Node × Bool)
chain_round list = do skip; message ← chained_message; pure (list ++ message ∷ [], true)

unfoldable pub parse_message_chain : ℕ → Node → Node → Parser Node
parse_message_chain start receiver first = do
  list ← while (at_kind semicolon) chain_round (first ∷ [])
  stop ← position
  where_at ← span_for_range start stop
  pure (message_chain where_at receiver (as_nodes list))
