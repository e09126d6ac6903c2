-- ===== src/Parser/Expressions.antt =====
-- lib/sysbvm/parser.c: message chains, low precedence operators and assignments.
use sysmel.Parser.Literals.{parse_literal_token_value}
use sysmel.Parser.Messages.{
  make_binary_message_send, is_binary_operator, binary_expression, parse_message_without_receiver,
  parse_keyword_message_parts, parse_message_chain,
}
use sysmel.Parser.Syntax.{
  Node, message_send, message_chain_message, sequence, as_nodes, expected_message_for_chain,
}
use sysmel.Parser.State.{
  Parser, Test, pure, ◌>>=◌, ◌>>◌, position, skip, look_kind_at, at_kind, when, while,
  span_for_range, syntax_error, parse_assignment_expression,
}
use sysmel.Prelude.{ℕ, Bool, true, ◌&&◌, List, [], ◌∷◌, ◌++◌}
use sysmel.Scanner.Token.{keyword, colon_colon, assignment, semicolon}

unfoldable pub receiverless_round : List Node → Parser (List Node × Bool)
receiverless_round list = do
  skip
  message ← parse_message_without_receiver
  pure (list ++ message ∷ [], true)

-- Messages without a receiver, a sequence of them where there are more.
unfoldable pub receiverless_chain : Parser Node
receiverless_chain = do
  start ← position
  first ← parse_message_without_receiver
  when (at_kind semicolon)
      (do
        list ← while (at_kind semicolon) receiverless_round (first ∷ [])
        stop ← position
        where_at ← span_for_range start stop
        pure (sequence where_at (as_nodes []) (as_nodes list)))
      (pure first)

-- A keyword message to the receiver, or the chain that it starts.
unfoldable pub keyword_send : ℕ → Node → Parser Node
keyword_send start receiver = do
  keyword_start ← position
  parts ← parse_keyword_message_parts
  when (at_kind semicolon)
      (do
        stop ← position
        where_at ← span_for_range keyword_start stop
        parse_message_chain start receiver
            (message_chain_message where_at parts.0 (as_nodes parts.1)))
      (do
        stop ← position
        where_at ← span_for_range start stop
        pure (message_send where_at receiver parts.0 (as_nodes parts.1)))

-- A chain behind a message: its receiver takes the messages of the chain, the first among them.
unfoldable pub chain_behind : ℕ → Node → Parser Node
chain_behind start (message_send s receiver selector arguments) =
    parse_message_chain start receiver (message_chain_message s selector arguments)
chain_behind start n = syntax_error expected_message_for_chain

unfoldable pub parse_chain_expression : Parser Node
parse_chain_expression = do
  start ← position
  when (at_kind keyword) receiverless_chain (do
    receiver ← binary_expression
    when (at_kind keyword) (keyword_send start receiver)
        (when (at_kind semicolon) (chain_behind start receiver) (pure receiver)))

abbrev pub at_low_operator : Test
at_low_operator e p = at_kind colon_colon e p && is_binary_operator (look_kind_at 1 e p)

unfoldable pub low_round : ℕ → Node → Parser (Node × Bool)
low_round start last = do
  skip
  operator_node ← parse_literal_token_value
  operand ← parse_chain_expression
  stop ← position
  where_at ← span_for_range start stop
  pure (make_binary_message_send where_at last operator_node operand, true)

unfoldable pub parse_low_precedence_expression : Parser Node
parse_low_precedence_expression = do
  start ← position
  first ← parse_chain_expression
  while at_low_operator (low_round start) first

unfoldable pub assignment_expression : Parser Node
assignment_expression = do
  start ← position
  reference ← parse_low_precedence_expression
  when (at_kind assignment)
      (do
        operator_node ← parse_literal_token_value
        value ← parse_assignment_expression
        stop ← position
        where_at ← span_for_range start stop
        pure (make_binary_message_send where_at reference operator_node value))
      (pure reference)
