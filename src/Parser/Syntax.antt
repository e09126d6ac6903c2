-- ===== src/Parser/Syntax.antt =====
-- lib/sysbvm/ast.c: the nodes that the parser creates. `null` is SYSBVM_NULL_TUPLE, which the
-- parser returns at the end of the source and keeps where a part is left out.
use sysmel.Prelude.{ℕ, Bool, true, false, List, [], ◌∷◌}
use sysmel.Scanner.Convert.{TokenValue, symbol, string}

-- sysbvm_sourcePosition_t: the indices of a range of the source text.
pub record Span : Type 0 where
  pub start : ℕ
  pub stop : ℕ

-- The messages of the error nodes.
pub data SyntaxError : Type 0 where
  unexpected_end unexpected_token expected_identifier expected_atom expected_quote : SyntaxError
  expected_left_parenthesis expected_right_parenthesis expected_type_end : SyntaxError
  expected_argument_colon expected_argument_name expected_left_curly expected_right_curly :
      SyntaxError
  expected_block_bar expected_byte_array expected_literal_array expected_right_parent : SyntaxError
  expected_byte_array_start expected_right_bracket expected_dictionary_start : SyntaxError
  expected_subscript_left expected_subscript_right expected_chained_message : SyntaxError
  expected_message_for_chain expected_pragma_content expected_pragma_end : SyntaxError

mutual
  pub data Node : Type 0 where
    null : Node
    error_node : Span → SyntaxError → Node
    identifier_reference : Span → TokenValue → Node
    literal : Span → TokenValue → Node
    quote_node quasi_quote_node quasi_unquote_node splice_node : Span → Node → Node
    make_array make_byte_array make_dictionary unexpanded_s_expression : Span → Nodes → Node
    make_association : Span → Node → Node → Node
    argument : Span → Bool → Node → Node → Node
    lambda : Span → Bool → Nodes → Node → Node → Node
    lexical_block : Span → Node → Node
    message_send : Span → Node → Node → Nodes → Node
    binary_expression_sequence : Span → Nodes → Nodes → Node
    unexpanded_application : Span → Node → Nodes → Node
    message_chain : Span → Node → Nodes → Node
    message_chain_message : Span → Node → Nodes → Node
    sequence : Span → Nodes → Nodes → Node
    pragma : Span → Node → Nodes → Node

  pub data Nodes : Type 0 where
    none_left : Nodes
    node : Node → Nodes → Nodes

-- `sysbvm_orderedCollection_asArray` of the nodes that were added.
unfoldable pub as_nodes : List Node → Nodes
as_nodes [] = none_left
as_nodes (n ∷ ns) = node n (as_nodes ns)

-- sysbvm_astNode_isErrorNode
abbrev pub is_error_node : Node → Bool
is_error_node (error_node s e) = true
is_error_node n = false

abbrev pub is_null : Node → Bool
is_null null = true
is_null n = false

-- The bytes of the value of a token, for the keywords that make a selector.
abbrev pub text_of : TokenValue → List ℕ
text_of (symbol text) = text
text_of (string text) = text
text_of v = []
