-- ===== src/Parser/Sequences.antt =====
-- lib/sysbvm/parser.c: expressions with commas, lists of expressions, pragmas and sequences.
use sysmel.Parser.Literals.{parse_literal_token_value}
use sysmel.Parser.Syntax.{
  Node, literal, make_array, sequence, pragma, as_nodes, is_error_node, is_null, text_of,
  expected_subscript_left, expected_pragma_content, expected_pragma_end,
}
use sysmel.Parser.State.{
  Parser, pure, ◌>>=◌, ◌>>◌, position, skip, restore, at_kind, at_token, when, while, look_at_token,
  span_for_range, syntax_error, parse_unary_expression, parse_assignment_expression,
}
use sysmel.Prelude.{
  ℕ, suc, Bool, true, false, ◌&&◌, ◌||◌, not, if◌then◌else◌, Option, none, some, List, [], ◌∷◌,
  ◌++◌,
}
use sysmel.Run.{ok}
use sysmel.Scanner.Convert.{TokenValue}
use sysmel.Scanner.Convert
use sysmel.Scanner.Token.{
  Token, TokenKind, identifier, keyword, less_than, greater_than, comma, dot,
}

-- An element behind a comma; where it is missing or an error the state behind the comma is taken
-- up again.
unfoldable pub comma_round : List Node → Parser (List Node × Bool)
comma_round elements = do
  skip
  saved ← position
  element ← parse_assignment_expression
  if is_null element || is_error_node element
      then (do restore saved; pure (elements, false))
      else pure (elements ++ element ∷ [], true)

unfoldable pub parse_comma_expression : Parser Node
parse_comma_expression = do
  start ← position
  first ← parse_assignment_expression
  when (at_kind comma)
      (do
        elements ← while (at_kind comma) comma_round (first ∷ [])
        stop ← position
        where_at ← span_for_range start stop
        pure (make_array where_at (as_nodes elements)))
      (pure first)

unfoldable pub parse_expression : Parser Node
parse_expression = parse_comma_expression

-- `while(kind == SYSBVM_TOKEN_KIND_DOT) ++state->tokenPosition;`
unfoldable pub skip_dots : Parser (Unit {0})
skip_dots = while (at_kind dot) (λ a. do skip; pure (a, true)) tt

unfoldable pub list_round : List Node → Parser (List Node × Bool)
list_round expressions = do
  skip_dots
  expression ← parse_expression
  if is_null expression
      then pure (expressions, false)
      else when (at_kind dot) (do skip_dots; pure (expressions ++ expression ∷ [], true))
          (pure (expressions ++ expression ∷ [], false))

unfoldable pub parse_expression_list : Parser (List Node)
parse_expression_list = while at_token list_round []

unfoldable pub parse_expression_list_until : TokenKind → Parser (List Node)
parse_expression_list_until delimiter =
    while (λ e p. at_token e p && not (at_kind delimiter e p)) list_round []

-- The parts of a keyword message: the text of the selector, the arguments, and the position behind
-- the last keyword.
pub record Parts : Type 0 where
  pub selector : List ℕ
  pub arguments : List Node
  pub keyword_end : ℕ

abbrev token_text : Option Token → List ℕ
token_text none = []
token_text (some t) = text_of t.value

-- A keyword: its text is added to the selector.
unfoldable pub take_keyword : Parts → Parser Parts
take_keyword parts e p = ok (
  record {
    selector = parts.selector ++ token_text (look_at_token 0 e p);
    arguments = parts.arguments;
    keyword_end = suc p;
  },
  suc p,
)

unfoldable pub keyword_round : Parser Node → Parts → Parser (Parts × Bool)
keyword_round operand parts = do
  keyworded ← take_keyword parts
  argument ← operand
  pure (record keyworded { arguments = keyworded.arguments ++ argument ∷ [] }, true)

unfoldable pub keyword_parts : Parser Node → Parser Parts
keyword_parts operand = do
  start ← position
  while (at_kind keyword) (keyword_round operand)
      (record { selector = []; arguments = []; keyword_end = start })

-- `>` and the pragma.
unfoldable pub pragma_end : ℕ → Node → List Node → Parser Node
pragma_end start selector arguments =
    when (at_kind greater_than)
      (do
        skip
        stop ← position
        where_at ← span_for_range start stop
        pure (pragma where_at selector (as_nodes arguments)))
      (syntax_error expected_pragma_end)

-- The selector of keywords has the range from its first token to that token.
unfoldable pub parse_pragma : Parser Node
parse_pragma = do
  start ← position
  when (at_kind less_than)
      (do
        skip
        when (at_kind identifier)
            (do selector ← parse_literal_token_value; pragma_end start selector [])
            (when (at_kind keyword)
              (do
                first ← position
                parts ← keyword_parts parse_unary_expression
                where_at ← span_for_range first first
                pragma_end start (literal where_at (Convert.symbol parts.selector)) parts.arguments)
              (syntax_error expected_pragma_content)))
      (syntax_error expected_subscript_left)

unfoldable pub parse_pragma_list : Parser (List Node)
parse_pragma_list =
    while (at_kind less_than) (λ list. do p ← parse_pragma; pure (list ++ p ∷ [], true)) []

unfoldable pub sequence_of : Parser (List Node) → Parser Node
sequence_of list = do
  start ← position
  pragmas ← parse_pragma_list
  expressions ← list
  stop ← position
  where_at ← span_for_range start stop
  pure (sequence where_at (as_nodes pragmas) (as_nodes expressions))

unfoldable pub parse_sequence : Parser Node
parse_sequence = sequence_of parse_expression_list

unfoldable pub parse_sequence_until : TokenKind → Parser Node
parse_sequence_until delimiter = sequence_of (parse_expression_list_until delimiter)
