-- ===== src/Scanner/Quoted.antt =====
-- lib/sysbvm/scanner.c: the branches of sysbvm_scanner_scanNextTokenInto for strings, characters
-- and for what starts with `#`.
use sysmel.Prelude.{
  ℕ, zero, suc, Bool, true, false, ◌||◌, ◌==◌, if◌then◌else◌, Option, none, some, List, [], ◌∷◌,
  length,
}
use sysmel.Scanner.Characters.{holds, is_character, is_operator_character, is_identifier_start}
use sysmel.Scanner.Convert.{
  Conversion, as_symbol, as_symbol_without_prefix, as_string, as_character, as_symbol_string,
  incomplete_string, incomplete_character,
}
use sysmel.Scanner.Cursor.{Cursor, look_at, advance, skip_while}
use sysmel.Scanner.Lex.{skip_identifier, scope_before, advance_keywords}
use sysmel.Scanner.Token.{
  Lexeme, TokenKind, string, character, symbol, error, byte_array_start, dictionary_start,
  literal_array_start,
}

-- The loop up to the closing quote: whether it is there, and the state behind it or at the end.
unfoldable pub find_quote : ℕ → ℕ → List ℕ → Bool × Cursor
find_quote quote position [] = (false, record { position = position; rest = [] })
find_quote quote position (c ∷ []) = (c == quote, record { position = suc position; rest = [] })
find_quote quote position (c ∷ d ∷ cs) =
    let escaped = find_quote quote (suc (suc position)) cs in
    let plain = find_quote quote (suc position) (d ∷ cs) in
    if c == quote
    then (true, record { position = suc position; rest = d ∷ cs })
    else if c == 92
    then escaped
    else plain

-- A quoted token whose opening takes `opening` bytes.
unfoldable pub lex_quoted : ℕ → ℕ → TokenKind → Conversion → Conversion → Cursor → Lexeme
unfolding find_quote
lex_quoted opening quote kind conversion incomplete c =
    let inside = advance opening c in
    let (closed, stop) = find_quote quote inside.position inside.rest in
    if closed
    then record { stop = stop; kind = kind; conversion = conversion }
    else record { stop = stop; kind = error; conversion = incomplete }

unfoldable pub lex_string : Cursor → Lexeme
unfolding lex_quoted
lex_string c = lex_quoted 1 b'"' string as_string incomplete_string c

unfoldable pub lex_character : Cursor → Lexeme
unfolding lex_quoted
lex_character c = lex_quoted 1 39 character as_character incomplete_character c

-- The loop over `::name` and `::operator` in a symbol; an operator ends the token.
unfoldable pub chop_symbol_scopes : ℕ → Cursor → Bool × Cursor
unfolding skip_identifier
chop_symbol_scopes zero c = (false, c)
chop_symbol_scopes (suc fuel) c =
    let inside = advance 2 c in
    elim (scope_before (λ d. is_identifier_start d || is_operator_character d) c) [
      | false ↦ (false, c)
      | true ↦ elim (holds is_operator_character (look_at inside 0)) [
        | true ↦ (true, skip_while is_operator_character inside)
        | false ↦ chop_symbol_scopes fuel (skip_identifier inside)
      ]
    ]

abbrev symbol_to : Cursor → Lexeme
symbol_to stop = record { stop = stop; kind = symbol; conversion = as_symbol_without_prefix }

unfoldable pub lex_identifier_symbol : Cursor → Lexeme
unfolding chop_symbol_scopes skip_identifier advance_keywords
lex_identifier_symbol c =
    let name = skip_identifier (advance 2 c) in
    let (ended, scoped) = chop_symbol_scopes (suc (length name.rest)) name in
    let keywords = advance 1 scoped in
    if ended
    then symbol_to scoped
    else if is_character b':' (look_at scoped 0)
    then symbol_to (advance_keywords (suc (length keywords.rest)) keywords)
    else symbol_to scoped

-- `#[`, `#{` and `#(`.
abbrev start_token : TokenKind → Cursor → Option Lexeme
start_token kind c = some (record { stop = advance 2 c; kind = kind; conversion = as_symbol })

-- From a `#` on; `none` for the fall through to the last switch.
unfoldable pub lex_hash : Cursor → Option Lexeme
unfolding lex_identifier_symbol lex_quoted
lex_hash c =
    let c1 = look_at c 1 in
    if holds is_identifier_start c1
    then some (lex_identifier_symbol c)
    else if holds is_operator_character c1
    then some (symbol_to (skip_while is_operator_character (advance 2 c)))
    else if is_character b'"' c1
    then some (lex_quoted 2 b'"' symbol as_symbol_string incomplete_string c)
    else if is_character b'[' c1
    then start_token byte_array_start c
    else if is_character b'{' c1
    then start_token dictionary_start c
    else if is_character b'(' c1
    then start_token literal_array_start c
    else none
