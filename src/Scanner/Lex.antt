-- ===== src/Scanner/Lex.antt =====
-- lib/sysbvm/scanner.c: the branches of sysbvm_scanner_scanNextTokenInto for identifiers,
-- keywords and numbers.
use sysmel.Prelude.{
  ℕ, zero, suc, Bool, true, false, ◌&&◌, ◌||◌, if◌then◌else◌, Option, none, some, length,
}
use sysmel.Scanner.Characters.{
  holds, is_character, is_operator_character, is_identifier_start, is_identifier_middle, is_digit,
  is_sign, is_digit_or_underscore, is_alphanumeric_or_underscore,
}
use sysmel.Scanner.Convert.{as_symbol, as_integer, as_float}
use sysmel.Scanner.Cursor.{Cursor, look_at, advance, skip_while, loop}
use sysmel.Scanner.Token.{Lexeme, identifier, integer, float, keyword, multi_keyword, operator}

-- `::` before a byte of the class.
abbrev pub scope_before : (ℕ → Bool) → Cursor → Bool
scope_before test c =
    is_character b':' (look_at c 0) && is_character b':' (look_at c 1) && holds test (look_at c 2)

unfoldable pub skip_identifier : Cursor → Cursor
skip_identifier c = skip_while is_identifier_middle c

-- The loop that chops `::name`.
unfoldable pub chop_scopes : Cursor → Cursor
unfolding skip_identifier loop
chop_scopes c =
    loop (suc (length c.rest)) (scope_before is_identifier_start)
      (λ d. skip_identifier (advance 3 d)) c

-- The state behind a keyword, or `none` for false.
unfoldable pub advance_keyword : Cursor → Option Cursor
unfolding skip_identifier
advance_keyword c =
    let e = skip_identifier c in
    if holds is_identifier_start (look_at c 0)
    then if is_character b':' (look_at e 0) then some (advance 1 e) else none
    else none

-- `while(advanceKeyword(state))`
unfoldable pub advance_keywords : ℕ → Cursor → Cursor
advance_keywords zero c = c
advance_keywords (suc fuel) c = elim (advance_keyword c) [
  | none ↦ c
  | some d ↦ advance_keywords fuel d
]

abbrev is_some : Option Cursor → Bool
is_some none = false
is_some (some c) = true

-- From the first byte of an identifier on.
unfoldable pub lex_identifier : Cursor → Lexeme
unfolding skip_identifier chop_scopes advance_keyword advance_keywords
lex_identifier c =
    let scoped = chop_scopes (skip_identifier (advance 1 c)) in
    let keywords = advance 1 scoped in
    if scope_before is_operator_character scoped
    then record {
      stop = skip_while is_operator_character (advance 3 scoped);
      kind = operator;
      conversion = as_symbol;
    }
    else if is_character b':' (look_at scoped 0)
    then record {
      stop = advance_keywords (suc (length keywords.rest)) keywords;
      kind = if is_some (advance_keyword keywords) then multi_keyword else keyword;
      conversion = as_symbol;
    }
    else record { stop = scoped; kind = identifier; conversion = as_symbol }

-- The fraction and exponent behind the dot at the cursor. A sign at the second place behind the
-- dot is taken in. At a sign behind the `e` the state steps back.
unfoldable pub lex_fraction : Cursor → Cursor
lex_fraction c =
    let behind_dot = advance 1 c in
    let signed =
      if holds is_sign (look_at behind_dot 1) then advance 1 behind_dot else behind_dot in
    let digits = skip_while is_digit_or_underscore (advance 1 signed) in
    let exponent = advance 1 digits in
    let unsigned = if holds is_sign (look_at exponent 0) then digits else exponent in
    if is_character b'e' (look_at digits 0) || is_character b'E' (look_at digits 0)
    then skip_while is_digit_or_underscore unsigned
    else digits

-- From the first digit or the sign before it on.
unfoldable pub lex_number : Cursor → Lexeme
unfolding lex_fraction
lex_number c =
    let digits = skip_while is_digit_or_underscore (advance 1 c) in
    if is_character b'r' (look_at digits 0) || is_character b'R' (look_at digits 0)
    then record {
      stop = skip_while is_alphanumeric_or_underscore (advance 1 digits);
      kind = integer;
      conversion = as_integer;
    }
    else if is_character b'.' (look_at digits 0)
        && (holds is_digit (look_at digits 1)
            || holds is_sign (look_at digits 1) && holds is_digit (look_at digits 2))
    then record { stop = lex_fraction digits; kind = float; conversion = as_float }
    else record { stop = digits; kind = integer; conversion = as_integer }
