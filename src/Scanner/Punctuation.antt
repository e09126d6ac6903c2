-- ===== src/Scanner/Punctuation.antt =====
-- lib/sysbvm/scanner.c: the last switch of sysbvm_scanner_scanNextTokenInto.
use sysmel.Prelude.{ℕ, ◌-◌, ◌&&◌, ◌==◌, if◌then◌else◌}
use sysmel.Scanner.Characters.{holds, is_character, is_operator_character}
use sysmel.Scanner.Convert.{as_symbol, unrecognized_token}
use sysmel.Scanner.Cursor.{Cursor, look_at, advance, skip_while}
use sysmel.Scanner.Token.{
  Lexeme, TokenKind, lparent, rparent, lbracket, rbracket, lcbracket, rcbracket, semicolon, comma,
  dot, ellipsis, colon, colon_colon, assignment, quote, quasi_quote, quasi_unquote, splice, bar,
  operator, less_than, greater_than, star, error,
}

-- A symbol token of `count` bytes.
abbrev lexeme : TokenKind → ℕ → Cursor → Lexeme
lexeme kind count c = record { stop = advance count c; kind = kind; conversion = as_symbol }

-- The end of the function: one byte that starts no token.
abbrev unrecognized : Cursor → Lexeme
unrecognized c = record { stop = advance 1 c; kind = error; conversion = unrecognized_token }

unfoldable pub lex_dot : Cursor → Lexeme
lex_dot c =
    if is_character b'.' (look_at c 1) && is_character b'.' (look_at c 2)
    then lexeme ellipsis 3 c
    else lexeme dot 1 c

unfoldable pub lex_colon : Cursor → Lexeme
lex_colon c =
    if is_character b':' (look_at c 1)
    then lexeme colon_colon 2 c
    else if is_character b'=' (look_at c 1)
    then lexeme assignment 2 c
    else lexeme colon 1 c

unfoldable pub lex_backquote : Cursor → Lexeme
lex_backquote c =
    let c1 = look_at c 1 in
    if is_character 39 c1
    then lexeme quote 2 c
    else if is_character b'`' c1
    then lexeme quasi_quote 2 c
    else if is_character b',' c1
    then lexeme quasi_unquote 2 c
    else if is_character b'@' c1
    then lexeme splice 2 c
    else unrecognized c

unfoldable pub lex_bar : Cursor → Lexeme
lex_bar c =
    let behind = advance 1 c in
    if holds is_operator_character (look_at behind 0)
    then record {
      stop = skip_while is_operator_character behind;
      kind = operator;
      conversion = as_symbol;
    }
    else lexeme bar 1 c

-- The kind of a binary operator: three of one byte have their own.
unfoldable pub operator_kind : ℕ → ℕ → TokenKind
operator_kind size first =
    if size == 1
    then (if first == b'<'
        then less_than
        else if first == b'>'
        then greater_than
        else if first == b'*'
        then star
        else operator)
    else operator

unfoldable pub lex_operator : ℕ → Cursor → Lexeme
unfolding operator_kind
lex_operator first c =
    let stop = skip_while is_operator_character c in
    if is_operator_character first
    then record {
      stop = stop;
      kind = operator_kind (stop.position - c.position) first;
      conversion = as_symbol;
    }
    else unrecognized c

-- `switch(c)`, with `first` the byte at the cursor.
unfoldable pub lex_punctuation : ℕ → Cursor → Lexeme
unfolding lex_dot lex_colon lex_backquote lex_bar lex_operator
lex_punctuation first c =
    if first == b'('
    then lexeme lparent 1 c
    else if first == b')'
    then lexeme rparent 1 c
    else if first == b'['
    then lexeme lbracket 1 c
    else if first == b']'
    then lexeme rbracket 1 c
    else if first == b'{'
    then lexeme lcbracket 1 c
    else if first == b'}'
    then lexeme rcbracket 1 c
    else if first == b';'
    then lexeme semicolon 1 c
    else if first == b','
    then lexeme comma 1 c
    else if first == b'.'
    then lex_dot c
    else if first == b':'
    then lex_colon c
    else if first == b'`'
    then lex_backquote c
    else if first == b'|'
    then lex_bar c
    else lex_operator first c
