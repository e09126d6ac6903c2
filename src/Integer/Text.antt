-- ===== src/Integer/Text.antt =====
-- lib/sysbvm/integer.c: integers as text. A string is the list of its bytes.
use sysmel.Integer.Arithmetic.{add, multiply, negated, greater_equals}
use sysmel.Integer.Tuple.{Tuple, word}
use sysmel.Prelude.Int.{ℤ, pos, ltb_ℤ, abs_ℕ}
use sysmel.Prelude.{
  ℕ, zero, suc, ◌+◌, ◌-◌, ◌/◌, ◌%◌, Bool, true, false, ◌&&◌, not, leb, ◌==◌, if◌then◌else◌, List,
  [], ◌∷◌, ◌++◌, reverse,
}
use sysmel.Run.{Run, ok, err, ◌>>=◌, digit_beyond_radix, invalid_integer_literal}
use sysmel.Word.{encode_small}

-- The variables of the loop of sysbvm_integer_parseString.
pub record ParseState : Type 0 where
  pub result : Tuple
  pub radix : Tuple
  pub can_parse_radix : Bool

-- One digit: the three branches for digits differ in the value alone.
unfoldable pub parse_digit : ParseState → ℕ → Run ParseState
parse_digit s digit = do
  let digit_value = word (encode_small (pos digit))
  beyond ← greater_equals digit_value s.radix
  if beyond then err digit_beyond_radix else (do
    product ← multiply s.result s.radix
    sum ← add product digit_value
    ok (record s { result = sum }))

unfoldable pub parse_character : ParseState → ℕ → Run ParseState
parse_character s c =
    if leb b'0' c && leb c b'9'
    then parse_digit s (c - b'0')
    else if not s.can_parse_radix && leb b'a' c && leb c b'z'
    then parse_digit s (c - b'a' + 10)
    else if not s.can_parse_radix && leb b'A' c && leb c b'Z'
    then parse_digit s (c - b'A' + 10)
    else if c == b'_'
    then ok s
    else if s.can_parse_radix && c == b'r'
    then ok
        (record { result = word (encode_small (pos 0)); radix = s.result; can_parse_radix = false })
    else err invalid_integer_literal

unfoldable pub parse_loop : ParseState → List ℕ → Run ParseState
parse_loop s [] = ok s
parse_loop s (c ∷ cs) = parse_character s c >>= λ t. parse_loop t cs

abbrev pub parse_start : ParseState
parse_start = record {
  result = word (encode_small (pos 0));
  radix = word (encode_small (pos 10));
  can_parse_radix = true;
}

unfoldable pub parse_unsigned : List ℕ → Run Tuple
parse_unsigned text = do s ← parse_loop parse_start text; ok s.result

unfoldable pub parse_string : List ℕ → Run Tuple
parse_string [] = parse_unsigned []
parse_string (c ∷ text) =
    if c == b'-'
    then parse_unsigned text >>= negated
    else if c == b'+'
    then parse_unsigned text
    else parse_unsigned (c ∷ text)

-- The digits of a number, the last one first: `while (value != 0 || bufferSize == 0)`. A number
-- has at most as many digits as the fuel.
unfoldable pub digits_reversed : ℕ → ℕ → List ℕ
digits_reversed zero value = []
digits_reversed (suc fuel) value =
    let rest = digits_reversed fuel (value / 10) in
    (b'0' + value % 10) ∷ (if value / 10 == 0 then [] else rest)

-- The text of a small integer is built from its end. Large integers have no text yet.
unfoldable pub print_small : ℤ → List ℕ
unfolding digits_reversed
print_small value =
    let digits = digits_reversed 64 (abs_ℕ value) in
    reverse (if ltb_ℤ value (pos 0) then digits ++ b'-' ∷ [] else digits)
