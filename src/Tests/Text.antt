-- ===== src/Tests/Text.antt =====
-- Runs on texts: literals, printed integers, and a source text of four tokens.
use sysmel.Integer.Factorial.{factorial, product_to, factorial-IsNatural}
use sysmel.Integer.Parse.{
  IsNatural, IsNumeral, numeral, natural, digit_value, parse_unsigned-radix,
  parse_string-print_small,
}
use sysmel.Integer.Text.{parse_unsigned, parse_string, print_small}
use sysmel.Integer.Tuple.{Tuple, word}
use sysmel.Prelude.Int.{negsuc}
use sysmel.Prelude.{take, ℕ, ◌≡◌, inl, inr, refl, true, false, arith, List, [], ◌∷◌, ◌++◌, length}
use sysmel.Run.{ok}
use sysmel.Scanner.Cursor.{Cursor, skip_while, skip_bytes}
use sysmel.Scanner.Convert.{count_size, unescape_bytes, convert, symbol}
use sysmel.Scanner.Skip.{skip_white_and_comments, skip_loop, skip_white}
use sysmel.Scanner.Punctuation.{lex_punctuation}
use sysmel.Scanner.Characters.{is_identifier_start, is_digit, is_sign}
use sysmel.Scanner.Marks.{Moves, lex_token-Moves}
use sysmel.Scanner.Order.{InOrder, scan-InOrder, scan_loop-stable}
use sysmel.Scanner.Scan.{find_next, after_skip, emit, lex_token, scan_after, scan_loop, scan}
use sysmel.Scanner.Strings.{length-unescape_bytes}
use sysmel.Scanner.Token.{Token, lparent, rbracket}
use sysmel.Word.{encode_small}

-- `4_2`
abbrev decimal : List ℕ
decimal = b'4' ∷ b'_' ∷ b'2' ∷ []

decimal-IsNumeral : IsNumeral 10 true decimal
unfolding digit_value
decimal-IsNumeral = (inr (4, refl, omega arith), (inl refl, (inr (2, refl, omega arith), tt)))

-- `16` and `fF`
abbrev radix : List ℕ
radix = b'1' ∷ b'6' ∷ []

abbrev letters : List ℕ
letters = b'f' ∷ b'F' ∷ []

radix-IsNumeral : IsNumeral 10 true radix
unfolding digit_value
radix-IsNumeral = (inr (1, refl, omega arith), (inr (6, refl, omega arith), tt))

letters-IsNumeral : IsNumeral (numeral 10 true 0 radix) false letters
unfolding digit_value numeral
letters-IsNumeral = (inr (15, refl, omega arith), (inr (15, refl, omega arith), tt))

parse_unsigned-radix_example :
    (t : Tuple) × (parse_unsigned (radix ++ b'r' ∷ letters) ≡ ok t)
    × IsNatural t (numeral (numeral 10 true 0 radix) false 0 letters)
parse_unsigned-radix_example =
    parse_unsigned-radix radix letters radix-IsNumeral letters-IsNumeral
      (unfold numeral digit_value in inl (omega arith))

parse_string-print_small_example :
    parse_string (print_small (negsuc 41)) ≡ ok (word (encode_small (negsuc 41)))
parse_string-print_small_example = parse_string-print_small (negsuc 41) (omega arith) (omega arith)

factorial-IsNatural_example :
    (t : Tuple) × (factorial 40 (natural 30) ≡ ok t) × IsNatural t (product_to 30)
factorial-IsNatural_example = factorial-IsNatural 30 40 (omega arith) (omega arith)

-- `a::b <= ## c`
abbrev source : List ℕ
source = b'a' ∷ b':' ∷ b':' ∷ b'b' ∷ b' ' ∷ b'<' ∷ b'=' ∷ b' ' ∷ b'#' ∷ b'#' ∷ b' ' ∷ b'c' ∷ []

abbrev source_start : Cursor
source_start = record { position = 0; rest = source }

abbrev behind_name : Cursor
behind_name = record { position = 1; rest = b':' ∷ b':' ∷ b'b' ∷ b' ' ∷ [] }

abbrev no_float : List ℕ → ℕ
no_float text = 0

lex_token-Moves_example : Moves source_start (lex_token b'a' source_start)
lex_token-Moves_example = lex_token-Moves b'a' source_start refl

scan_loop-stable_example : scan_loop no_float 13 source_start ≡ scan_loop no_float 1000 source_start
scan_loop-stable_example =
    scan_loop-stable no_float 13 1000 source_start (omega arith) (omega arith)

-- `( ]`
abbrev brackets : List ℕ
brackets = b'(' ∷ b' ' ∷ b']' ∷ []

abbrev bracket_tokens : List Token
bracket_tokens =
    record { kind = lparent; start = 0; stop = 1; value = symbol (b'(' ∷ []) }
    ∷ record { kind = rbracket; start = 2; stop = 3; value = symbol (b']' ∷ []) }
    ∷ []

scan-brackets : scan no_float brackets ≡ ok bracket_tokens
unfolding scan scan_loop scan_after find_next after_skip skip_white_and_comments skip_loop
    skip_white skip_while skip_bytes emit convert lex_token lex_punctuation is_identifier_start
    is_digit is_sign
scan-brackets = refl

scan-InOrder_example : InOrder 0 (length brackets) bracket_tokens
scan-InOrder_example = scan-InOrder no_float brackets bracket_tokens scan-brackets

-- An escape in the middle, and one that the end of the string cuts off.
abbrev escapes : List ℕ
escapes = b'a' ∷ 92 ∷ b'n' ∷ b'b' ∷ 92 ∷ b'"' ∷ []

length-unescape_bytes_example : length (unescape_bytes 5 escapes) ≡ count_size (take 5 escapes)
length-unescape_bytes_example = length-unescape_bytes 5 escapes
