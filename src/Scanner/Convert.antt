-- ===== src/Scanner/Convert.antt =====
-- lib/sysbvm/scanner.c: the values of tokens. A conversion function is the constructor that names
-- it, and `convert` is their calls. Symbols are given by their text: two symbols of one text are
-- one object, which the table of interned symbols sees to.
use sysmel.Integer.Text.{parse_string}
use sysmel.Integer.Tuple.{Tuple}
use sysmel.Prelude.{
  ℕ, zero, suc, ◌-◌, ◌&&◌, List, [], ◌∷◌, length, get_or, drop, leb, ◌==◌, if◌then◌else◌,
}
use sysmel.Scanner.Messages.{
  incomplete_multiline_comment_message, unrecognized_token_message, incomplete_character_message,
  incomplete_string_message,
}
use sysmel.Run.{Run, ok, err, assertion_failure, ◌>>=◌}

pub data Conversion : Type 0 where
  as_symbol as_symbol_without_prefix as_integer as_float as_character as_string as_symbol_string :
      Conversion
  incomplete_multiline_comment unrecognized_token incomplete_character incomplete_string :
      Conversion

-- `float` holds the bits of a double.
pub data TokenValue : Type 0 where
  symbol : List ℕ → TokenValue
  integer : Tuple → TokenValue
  float : ℕ → TokenValue
  character : ℕ → TokenValue
  string : List ℕ → TokenValue

-- The byte that an escaped character stands for.
unfoldable pub unescape : ℕ → ℕ
unescape c = if c == b't' then 9 else if c == b'r' then 13 else if c == b'n' then 10 else c

-- The loop of countSizeRequiredForString.
unfoldable pub count_size : List ℕ → ℕ
count_size [] = 0
count_size (c ∷ []) = 1
count_size (c ∷ d ∷ cs) =
    let escaped = count_size cs in
    let plain = count_size (d ∷ cs) in if c == 92 then suc escaped else suc plain

-- The loop of tokenAsString over the bytes from inside the opening quote up to `size` of them; the
-- byte behind a backslash is read also where it is the closing quote.
unfoldable pub unescape_bytes : ℕ → List ℕ → List ℕ
unfolding unescape
unescape_bytes zero cs = []
unescape_bytes (suc size) [] = []
unescape_bytes (suc size) (c ∷ []) = c ∷ []
unescape_bytes (suc zero) (c ∷ d ∷ cs) = (if c == 92 then unescape d else c) ∷ []
unescape_bytes (suc (suc size)) (c ∷ d ∷ cs) =
    let escaped = unescape_bytes size cs in
    let plain = unescape_bytes (suc size) (d ∷ cs) in
    if c == 92 then unescape d ∷ escaped else c ∷ plain

unfoldable pub token_as_character : List ℕ → Run TokenValue
unfolding unescape
token_as_character text =
    if length text == 2
    then ok (character 0)
    else if leb 4 (length text) && get_or text 1 0 == 92
    then ok (character (unescape (get_or text 2 0)))
    else if leb 2 (length text)
    then ok (character (get_or text 1 0))
    else err assertion_failure

unfoldable pub token_as_string : List ℕ → Run TokenValue
unfolding unescape_bytes
token_as_string text =
    if leb 2 (length text)
    then ok (string (unescape_bytes (length text - 2) (drop 1 text)))
    else err assertion_failure

unfoldable pub token_as_symbol_string : List ℕ → Run TokenValue
unfolding unescape_bytes
token_as_symbol_string text =
    if leb 3 (length text)
    then ok (symbol (unescape_bytes (length text - 3) (drop 2 text)))
    else err assertion_failure

-- `atof`, a function of the C library, is a parameter.
module _ (atof : List ℕ → ℕ) where
  unfoldable pub convert : Conversion → List ℕ → Run TokenValue
  convert as_symbol text = ok (symbol text)
  convert as_symbol_without_prefix text = ok (symbol (drop 1 text))
  convert as_integer text = do value ← parse_string text; ok (integer value)
  convert as_float text = ok (float (atof text))
  convert as_character text = token_as_character text
  convert as_string text = token_as_string text
  convert as_symbol_string text = token_as_symbol_string text
  convert incomplete_multiline_comment text = ok (symbol incomplete_multiline_comment_message)
  convert unrecognized_token text = ok (symbol unrecognized_token_message)
  convert incomplete_character text = ok (symbol incomplete_character_message)
  convert incomplete_string text = ok (symbol incomplete_string_message)
