-- ===== src/Parser/State.antt =====
-- lib/sysbvm/parser.c: the state of the parser. A `Parser A` works on a token sequence, from a
-- position in it, and returns an `A` with the position that is left; raised errors are those of
-- sysbvm_arraySlice_at.
use sysmel.Parser.Syntax.{Span, Node, SyntaxError, error_node, unexpected_end, unexpected_token}
use sysmel.Prelude.{
  ℕ, zero, suc, ◌+◌, Bool, true, false, ◌==◌, Option, none, some, List, length, get_elem?,
}
use sysmel.Run.{Run, ok, err, fault, index_out_of_bounds}
use sysmel.Scanner.Token.{
  Token, TokenKind, character, float, identifier, integer, keyword, multi_keyword, operator, string,
  symbol, lparent, rparent, lbracket, rbracket, lcbracket, rcbracket, less_than, greater_than, star,
  colon, colon_colon, bar, assignment, semicolon, comma, dot, ellipsis, quote, quasi_quote,
  quasi_unquote, splice, byte_array_start, dictionary_start, literal_array_start, error,
}

-- The source with the functions that the others call before they are defined: the calls by which
-- the grammar recurses.
pub record Env : Type 0 where
  pub tokens : List Token
  pub text_size : ℕ
  pub primary_term : ℕ → Run (Node × ℕ)
  pub unary_expression : ℕ → Run (Node × ℕ)
  pub binary_expression : ℕ → Run (Node × ℕ)
  pub assignment_expression : ℕ → Run (Node × ℕ)
  pub literal_array : ℕ → Run (Node × ℕ)

abbrev pub Parser {ℓ} : Type ℓ → Type ℓ
Parser A = Env → ℕ → Run (A × ℕ)

unfoldable pub pure {ℓ} : {A : Type ℓ} → A → Parser A
pure a e p = ok (a, p)

abbrev pub and_then {ℓ κ} :
    {A : Type ℓ} {B : Type κ} → Run (A × ℕ) → (A → ℕ → Run (B × ℕ)) → Run (B × ℕ)
and_then (ok (a, q)) f = f a q
and_then (err x) f = err x
and_then fault f = fault

infixl 1 ◌>>=◌ ◌>>◌
unfoldable pub ◌>>=◌ {ℓ κ} : {A : Type ℓ} {B : Type κ} → Parser A → (A → Parser B) → Parser B
(m >>= f) e p = and_then (m e p) (λ a q. f a e q)

abbrev pub ◌>>◌ {ℓ κ} : {A : Type ℓ} {B : Type κ} → Parser A → Parser B → Parser B
m >> n = m >>= λ a. n

-- Calls of the functions that are defined later.
abbrev pub parse_primary_term : Parser Node
parse_primary_term e p = e.primary_term p

abbrev pub parse_unary_expression : Parser Node
parse_unary_expression e p = e.unary_expression p

abbrev pub parse_binary_expression : Parser Node
parse_binary_expression e p = e.binary_expression p

abbrev pub parse_assignment_expression : Parser Node
parse_assignment_expression e p = e.assignment_expression p

abbrev pub parse_literal_array_expression : Parser Node
parse_literal_array_expression e p = e.literal_array p

-- `state->tokenPosition`
unfoldable pub position : Parser ℕ
position e p = ok (p, p)

-- `++state->tokenPosition`
unfoldable pub skip : Parser (Unit {0})
skip e p = ok (tt, suc p)

-- `*state = savedState`
unfoldable pub restore : ℕ → Parser (Unit {0})
restore saved e p = ok (tt, saved)

-- sysbvm_parser_lookAt
abbrev pub look_at_token : ℕ → Env → ℕ → Option Token
look_at_token offset e p = get_elem? e.tokens (p + offset)

abbrev pub kind_of : Option Token → Option TokenKind
kind_of none = none
kind_of (some t) = some t.kind

-- sysbvm_parser_lookKindAt; `none` is -1.
abbrev pub look_kind_at : ℕ → Env → ℕ → Option TokenKind
look_kind_at offset e p = kind_of (look_at_token offset e p)

-- The place of a kind in its enumeration.
unfoldable pub kind_number : TokenKind → ℕ
kind_number character = 0
kind_number float = 1
kind_number identifier = 2
kind_number integer = 3
kind_number keyword = 4
kind_number multi_keyword = 5
kind_number operator = 6
kind_number string = 7
kind_number symbol = 8
kind_number lparent = 9
kind_number rparent = 10
kind_number lbracket = 11
kind_number rbracket = 12
kind_number lcbracket = 13
kind_number rcbracket = 14
kind_number less_than = 15
kind_number greater_than = 16
kind_number star = 17
kind_number colon = 18
kind_number colon_colon = 19
kind_number bar = 20
kind_number assignment = 21
kind_number semicolon = 22
kind_number comma = 23
kind_number dot = 24
kind_number ellipsis = 25
kind_number quote = 26
kind_number quasi_quote = 27
kind_number quasi_unquote = 28
kind_number splice = 29
kind_number byte_array_start = 30
kind_number dictionary_start = 31
kind_number literal_array_start = 32
kind_number error = 33

abbrev pub Test : Type 0
Test = Env → ℕ → Bool

abbrev pub is_kind : TokenKind → Option TokenKind → Bool
is_kind k none = false
is_kind k (some j) = kind_number j == kind_number k

-- `sysbvm_parser_lookKindAt(state, 0) == k`
abbrev pub at_kind : TokenKind → Test
at_kind k e p = is_kind k (look_kind_at 0 e p)

-- `sysbvm_parser_lookKindAt(state, 1) == k`
abbrev pub next_kind : TokenKind → Test
next_kind k e p = is_kind k (look_kind_at 1 e p)

-- `sysbvm_parser_lookKindAt(state, 0) >= 0`
abbrev pub is_some {ℓ} : {A : Type ℓ} → Option A → Bool
is_some none = false
is_some (some a) = true

abbrev pub at_token : Test
at_token e p = is_some (look_kind_at 0 e p)

-- `if(test) …; else …`
unfoldable pub when {ℓ} : {A : Type ℓ} → Test → Parser A → Parser A → Parser A
when test m n e p = elim (test e p) [ true ↦ m e p | false ↦ n e p ]

-- `switch(sysbvm_parser_lookKindAt(state, 0))`
unfoldable pub on_kind {ℓ} : {A : Type ℓ} → (Option TokenKind → Parser A) → Parser A
on_kind f e p = f (look_kind_at 0 e p) e p

-- A loop whose body says whether it goes on. It runs on fuel: a round that goes on takes a token.
unfoldable pub rounds {ℓ} : {A : Type ℓ} → ℕ → Test → (A → Parser (A × Bool)) → A → Parser A
rounds zero test body a e p = fault
rounds (suc fuel) test body a e p = elim (test e p) [
  | false ↦ ok (a, p)
  | true ↦ and_then (body a e p) (λ result q. elim result.1 [
    | true ↦ rounds fuel test body result.0 e q
    | false ↦ ok (result.0, q)
  ])
]

unfoldable pub while {ℓ} : {A : Type ℓ} → Test → (A → Parser (A × Bool)) → A → Parser A
while test body a e p = rounds (suc (length e.tokens)) test body a e p

-- sysbvm_arraySlice_at of the token sequence
unfoldable pub token_at : ℕ → Parser Token
token_at i e p = elim (get_elem? e.tokens i) [ some t ↦ ok (t, p) | none ↦ err index_out_of_bounds ]

-- The token before an index; before the first there is none.
unfoldable pub token_before : ℕ → Parser Token
token_before zero e p = err index_out_of_bounds
token_before (suc i) e p = token_at i e p

abbrev pub span_of : Token → Span
span_of t = record { start = t.start; stop = t.stop }

unfoldable pub union_span : ℕ → ℕ → Parser Span
union_span start stop = do
  first ← token_at start
  last ← token_before stop
  pure (record { start = first.start; stop = last.stop })

-- sysbvm_parser_makeSourcePositionForTokenRange
unfoldable pub span_for_range : ℕ → ℕ → Parser Span
span_for_range start stop =
    when (λ e p. length e.tokens == 0) (pure (record { start = 0; stop = 0 }))
      (when (λ e p. start == stop) (do t ← token_at start; pure (span_of t))
        (union_span start stop))

abbrev pub span_at : Option Token → ℕ → Span
span_at none size = record { start = size; stop = size }
span_at (some t) size = span_of t

-- sysbvm_parser_makeSourcePositionForParserState
unfoldable pub span_for_state : Parser Span
span_for_state e p = ok (span_at (look_at_token 0 e p) e.text_size, p)

-- An error node at the state.
unfoldable pub syntax_error : SyntaxError → Parser Node
syntax_error x = do where_at ← span_for_state; pure (error_node where_at x)

-- sysbvm_parser_unexpectedTokenAt
unfoldable pub unexpected_token_at : Parser Node
unexpected_token_at =
    when at_token (do n ← syntax_error unexpected_token; skip; pure n) (syntax_error unexpected_end)
