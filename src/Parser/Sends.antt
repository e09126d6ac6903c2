-- ===== src/Parser/Sends.antt =====
-- Unary messages: a source of names is the first of them, which the others are sent to from the
-- left to the right.
use sysmel.Parser.Behind.{
  when-false, while-false, bind-ok, position-ok, no_send, no_kind, no_operator, no_low_operator,
}
use sysmel.Parser.Blocks.{parse_primary_expression, primary_term, term_case, parse_term_case}
use sysmel.Parser.Expressions.{
  parse_chain_expression, parse_low_precedence_expression, assignment_expression,
}
use sysmel.Parser.Literals.{token_node, parse_literal_token_value, parse_identifier_reference}
use sysmel.Parser.Messages.{
  unary_case, parse_unary_case, parse_unary_send, goes_on, unary_round, unary_expression,
  binary_expression,
}
use sysmel.Parser.Parse.{env, first_of, parse_tokens}
use sysmel.Parser.Progress.{get_elem?-inside}
use sysmel.Parser.Sequences.{
  parse_expression, parse_comma_expression, list_round, skip_dots, parse_expression_list,
  parse_pragma_list, sequence_of, parse_sequence,
}
use sysmel.Parser.State.{
  Env, pure, on_kind, while, rounds, look_kind_at, at_kind, token_at, token_before, union_span,
  span_for_range, span_of, kind_number,
}
use sysmel.Parser.Syntax.{
  Span, SyntaxError, Node, literal, identifier_reference, message_send, sequence, as_nodes, is_null,
}
use sysmel.Prelude.{
  ℕ, zero, suc, ◌+◌, ◌≤◌, ◌<◌, ◌≡◌, refl, arith, ◌==◌, ◌∙◌, ap, true, false, some, List, [], ◌∷◌,
  length, get_elem?, drop,
}
use sysmel.Run.{ok}
use sysmel.Scanner.Convert.{TokenValue}
use sysmel.Scanner.Token.{
  Token, TokenKind, identifier, quote, quasi_quote, quasi_unquote, splice, keyword, semicolon,
  assignment, comma, dot, less_than,
}

unfoldable pub Names : List Token → Type 0
Names [] = Unit {0}
Names (t ∷ ts) = (t.kind ≡ identifier) × Names ts

-- The names are sent to the receiver, whose text starts at the first token.
unfoldable pub sends : ℕ → Node → List Token → Node
sends start receiver [] = receiver
sends start receiver (t ∷ ts) =
    sends start
      (message_send (record { start = start; stop = t.stop }) receiver (literal (span_of t) t.value)
        (as_nodes []))
      ts

get_elem?-drop :
    (l : List Token) (q : ℕ) (t : Token) (ts : List Token)
    → drop q l ≡ t ∷ ts
    → get_elem? l q ≡ some t
get_elem?-drop [] zero t ts h = cc
get_elem?-drop [] (suc q) t ts h = cc
get_elem?-drop (x ∷ l) zero t ts h = cc
get_elem?-drop (x ∷ l) (suc q) t ts h = get_elem?-drop l q t ts h

drop-suc :
    (l : List Token) (q : ℕ) (t : Token) (ts : List Token) → drop q l ≡ t ∷ ts → drop (suc q) l ≡ ts
drop-suc [] zero t ts h = cc
drop-suc [] (suc q) t ts h = cc
drop-suc (x ∷ l) zero t ts h = cc
drop-suc (x ∷ l) (suc q) t ts h = drop-suc l q t ts h

module _ (e : Env) (q : ℕ) (t : Token) (here : get_elem? e.tokens (q + 0) ≡ some t) where
  token_node-here :
      (make : Span → TokenValue → Node) (x : SyntaxError)
      → token_node make x e q ≡ ok (make (span_of t) t.value, suc q)
  unfolding token_node
  token_node-here make x = rw (token_node, here) refl

  module _ (first : Token) (start : get_elem? e.tokens 0 ≡ some first)
      (name : t.kind ≡ identifier) where
    -- The range from the first token to this one.
    span_for_range-here :
        span_for_range 0 (suc q) e (suc q)
        ≡ ok (record { start = first.start; stop = t.stop }, suc q)
    unfolding span_for_range union_span token_at token_before pure
    span_for_range-here =
        let behind : get_elem? e.tokens q ≡ some t = ap (get_elem? e.tokens) (omega arith) ∙ here in
        let at_first : token_at 0 e (suc q) ≡ ok (first, suc q) = rw (token_at, start) refl in
        let at_this : token_before (suc q) e (suc q) ≡ ok (t, suc q) = rw (token_at, behind) refl in
        let some_token = get_elem?-inside e.tokens q (rw behind refl) in
        when-false _ _ _ (ground arith)
        ∙ when-false _ _ _ (ground arith)
        ∙ bind-ok _ _ at_first (bind-ok _ _ at_this refl)

    unary_round-here :
        (receiver : Node)
        → unary_round 0 receiver e q
          ≡ ok (
            (
              message_send
                  (record { start = first.start; stop = t.stop })
                  receiver
                  (literal (span_of t) t.value)
                  (as_nodes []),
              true,
            ),
            suc q,
          )
    unfolding unary_round on_kind unary_case parse_unary_case parse_unary_send
        parse_literal_token_value pure
    unary_round-here receiver =
        rw (here, name)
          (bind-ok _ _
            (bind-ok _ _ (token_node-here literal _)
              (bind-ok _ _ (position-ok e (suc q)) (bind-ok _ _ span_for_range-here refl)))
            refl)

module _ (e : Env) (first : Token) (start : get_elem? e.tokens 0 ≡ some first) where
  -- The loop of the names that are left.
  rounds-Names :
      (fuel : ℕ) (receiver : Node) (rest : List Token) (q : ℕ)
      → drop q e.tokens ≡ rest
      → q + length rest ≡ length e.tokens
      → Names rest
      → length rest < fuel
      → rounds fuel (λ e p. goes_on (unary_case (look_kind_at 0 e p))) (unary_round 0) receiver e q
        ≡ ok (sends first.start receiver rest, length e.tokens)
  unfolding rounds Names sends unary_case
  rounds-Names zero receiver rest q left total names enough = absurd (omega arith)
  rounds-Names (suc fuel) receiver [] q left total names enough =
      let at_end : length e.tokens ≡ q = omega arith in
      rw (rounds, no_send e q (omega arith), at_end) refl
  rounds-Names (suc fuel) receiver (t ∷ ts) q left total (name, names) enough =
      let here : get_elem? e.tokens (q + 0) ≡ some t =
        ap (get_elem? e.tokens) (omega arith) ∙ get_elem?-drop e.tokens q t ts left in
      rw (rounds, here, name, unary_round-here e q t here first start name receiver)
        (rounds-Names fuel _ ts (suc q) (drop-suc e.tokens q t ts left) (omega arith) names
          (omega arith))

abbrev pub last : Token → List Token → Token
last first [] = first
last first (t ∷ ts) = last t ts

get_elem?-last :
    (first : Token) (rest : List Token)
    → get_elem? (first ∷ rest) (length rest) ≡ some (last first rest)
get_elem?-last first [] = refl
get_elem?-last first (t ∷ ts) = get_elem?-last t ts

sends_not_null :
    (rest : List Token) (start : ℕ) (receiver : Node)
    → is_null receiver ≡ false
    → is_null (sends start receiver rest) ≡ false
unfolding sends
sends_not_null [] start receiver h = h
sends_not_null (t ∷ ts) start receiver h = sends_not_null ts start _ refl

abbrev reference : Token → Node
reference first = identifier_reference (span_of first) first.value

module _ (e : Env) (first : Token) (rest : List Token) (all : e.tokens ≡ first ∷ rest)
    (names : Names (first ∷ rest)) where
  start : get_elem? e.tokens 0 ≡ some first
  start = ap (λ l. get_elem? l 0) all

  start_kind :
      (k : TokenKind) → (kind_number identifier == kind_number k) ≡ false → at_kind k e 0 ≡ false
  unfolding Names
  start_kind k h = rw (start, names.0) h

  primary_expression-names : parse_primary_expression e 0 ≡ ok (reference first, 1)
  unfolding parse_primary_expression primary_term on_kind term_case parse_term_case
      parse_identifier_reference kind_number Names
  primary_expression-names =
      when-false _ _ _ (start_kind quote refl)
      ∙ when-false _ _ _ (start_kind quasi_quote refl)
      ∙ when-false _ _ _ (start_kind quasi_unquote refl)
      ∙ when-false _ _ _ (start_kind splice refl)
      ∙ rw (start, names.0) (token_node-here e 0 first start identifier_reference _)

  unary_expression-names :
      unary_expression e 0 ≡ ok (sends first.start (reference first) rest, length e.tokens)
  unfolding unary_expression while Names
  unary_expression-names =
      let total = ap length all in
      bind-ok _ _ (position-ok e 0) (
        bind-ok _ _ primary_expression-names (
          rounds-Names e first start _ (reference first) rest 1 (ap (drop 1) all) (omega arith)
            names.1 (omega arith)))

  at_end : length e.tokens ≤ length e.tokens
  at_end = omega arith

  binary_expression-names :
      binary_expression e 0 ≡ ok (sends first.start (reference first) rest, length e.tokens)
  unfolding binary_expression pure
  binary_expression-names =
      bind-ok _ _ (position-ok e 0)
        (bind-ok _ _ unary_expression-names (when-false _ _ _ (no_operator e _ at_end)))

  chain_expression-names :
      parse_chain_expression e 0 ≡ ok (sends first.start (reference first) rest, length e.tokens)
  unfolding parse_chain_expression pure kind_number
  chain_expression-names = bind-ok _ _ (position-ok e 0) (
      when-false _ _ _ (start_kind keyword refl)
      ∙ bind-ok _ _ binary_expression-names (
          when-false _ _ _ (no_kind e _ at_end keyword)
          ∙ when-false _ _ _ (no_kind e _ at_end semicolon)))

  assignment_expression-names :
      assignment_expression e 0 ≡ ok (sends first.start (reference first) rest, length e.tokens)
  unfolding assignment_expression parse_low_precedence_expression pure
  assignment_expression-names =
      let low : parse_low_precedence_expression e 0
          ≡ ok (sends first.start (reference first) rest, length e.tokens) =
        bind-ok _ _ (position-ok e 0)
          (bind-ok _ _ chain_expression-names (while-false _ _ _ (no_low_operator e _ at_end))) in
      bind-ok _ _ (position-ok e 0)
        (bind-ok _ _ low (when-false _ _ _ (no_kind e _ at_end assignment)))

-- The whole source, with the functions that the parser calls itself by.
module _ (e : Env) (first : Token) (rest : List Token) (all : e.tokens ≡ first ∷ rest)
    (names : Names (first ∷ rest))
    (calls : e.assignment_expression 0
      ≡ ok (sends first.start (reference first) rest, length e.tokens)) where
  expression-names :
      parse_expression e 0 ≡ ok (sends first.start (reference first) rest, length e.tokens)
  unfolding parse_expression parse_comma_expression pure
  expression-names =
      bind-ok _ _ (position-ok e 0)
        (bind-ok _ _ calls (when-false _ _ _ (no_kind e (length e.tokens) (omega arith) comma)))

  list_round-names :
      list_round [] e 0
      ≡ ok ((sends first.start (reference first) rest ∷ [], false), length e.tokens)
  unfolding list_round skip_dots pure kind_number
  list_round-names = bind-ok _ _ (while-false _ _ _ (start_kind e first rest all names dot refl)) (
      bind-ok _ _ expression-names (
        rw (sends_not_null rest first.start (reference first) refl)
          (when-false _ _ _ (no_kind e (length e.tokens) (omega arith) dot))))

  expression_list-names :
      parse_expression_list e 0
      ≡ ok (sends first.start (reference first) rest ∷ [], length e.tokens)
  unfolding parse_expression_list while rounds
  expression_list-names = rw (rounds, start e first rest all names, list_round-names) refl

  span_for_range-names :
      span_for_range 0 (length e.tokens) e (length e.tokens)
      ≡ ok (record { start = first.start; stop = (last first rest).stop }, length e.tokens)
  unfolding span_for_range union_span token_at token_before pure
  span_for_range-names =
      let p = length e.tokens in
      let total = ap length all in
      let at_first : token_at 0 e p ≡ ok (first, p) =
        rw (token_at, start e first rest all names) refl in
      let last_token : get_elem? e.tokens (length rest) ≡ some (last first rest) =
        ap (λ l. get_elem? l (length rest)) all ∙ get_elem?-last first rest in
      let at_last : token_before p e p ≡ ok (last first rest, p) =
        ap (λ i. token_before i e p) total ∙ rw (token_at, last_token) refl in
      when-false _ _ _ (ground arith)
      ∙ when-false _ _ _ (ground arith)
      ∙ bind-ok _ _ at_first (bind-ok _ _ at_last refl)

  sequence-names :
      parse_sequence e 0
      ≡ ok (
        sequence
            (record { start = first.start; stop = (last first rest).stop })
            (as_nodes [])
            (as_nodes (sends first.start (reference first) rest ∷ [])),
        length e.tokens,
      )
  unfolding parse_sequence sequence_of parse_pragma_list pure kind_number
  sequence-names = bind-ok _ _ (position-ok e 0) (
      bind-ok _ _ (while-false _ _ _ (start_kind e first rest all names less_than refl)) (
        bind-ok _ _ expression_list-names
          (bind-ok _ _ (position-ok e _) (bind-ok _ _ span_for_range-names refl))))

-- A source of names, one or more, is parsed to a sequence of one expression: the first name as a
-- reference, to which the others are sent one after the other as unary messages, each over the range
-- from the first token on.
pub parse_tokens-sends :
    (first : Token) (rest : List Token) (text_size : ℕ)
    → Names (first ∷ rest)
    → parse_tokens (first ∷ rest) text_size
      ≡ ok (
          sequence
            (record { start = first.start; stop = (last first rest).stop })
            (as_nodes [])
            (as_nodes
              (sends first.start (identifier_reference (span_of first) first.value) rest ∷ [])))
unfolding parse_tokens env first_of
parse_tokens-sends first rest text_size names =
    let e = env (first ∷ rest) text_size (suc (length rest)) in
    ap first_of (
      sequence-names (env (first ∷ rest) text_size (suc (suc (length rest)))) first rest refl names
        (assignment_expression-names e first rest refl names))
