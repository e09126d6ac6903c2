-- ===== src/Scanner/Scan.antt =====
-- lib/sysbvm/scanner.c: sysbvm_scanner_scanNextTokenInto and sysbvm_scanner_scan. The text is the
-- list of the bytes of the source code, and the list of tokens is what the calls add.
use sysmel.Prelude.{
  ℕ, zero, suc, ◌-◌, ◌&&◌, ◌||◌, ◌==◌, if◌then◌else◌, none, some, List, [], ◌∷◌, length, take,
}
use sysmel.Run.{Run, ok, ◌>>=◌}
use sysmel.Scanner.Characters.{holds, is_identifier_start, is_digit, is_sign}
use sysmel.Scanner.Convert.{convert, incomplete_multiline_comment}
use sysmel.Scanner.Cursor.{Cursor, look_at}
use sysmel.Scanner.Lex.{lex_identifier, lex_number}
use sysmel.Scanner.Punctuation.{lex_punctuation}
use sysmel.Scanner.Quoted.{lex_string, lex_character, lex_hash}
use sysmel.Scanner.Skip.{Skipped, skipped, incomplete, skip_white_and_comments}
use sysmel.Scanner.Token.{Token, Lexeme, error}

-- The branches at the first byte of a token.
unfoldable pub lex_token : ℕ → Cursor → Lexeme
lex_token first c =
    if is_identifier_start first
    then lex_identifier c
    else if is_digit first || is_sign first && holds is_digit (look_at c 1)
    then lex_number c
    else if first == b'"'
    then lex_string c
    else if first == 39
    then lex_character c
    else if first == b'#'
    then elim (lex_hash c) [ some l ↦ l | none ↦ lex_punctuation first c ]
    else lex_punctuation first c

-- How a call of scanNextTokenInto ends: with false at the end of the text, with false behind an
-- incomplete comment, or with true behind a token. The first cursor is where the range starts.
pub data Scanned : Type 0 where
  ended : Scanned
  cut_off : Cursor → Cursor → Scanned
  lexed : Cursor → Lexeme → Scanned

-- What follows the white space and the comments.
unfoldable pub after_skip : Skipped → Scanned
after_skip (incomplete start stop) = cut_off start stop
after_skip (skipped c) = elim (look_at c 0) [
  | none ↦ ended
  | some first ↦ lexed c (lex_token first c)
]

unfoldable pub find_next : Cursor → Scanned
find_next c = after_skip (skip_white_and_comments c)

module _ (atof : List ℕ → ℕ) where
  -- sysbvm_scanner_emitTokenForStateRange
  unfoldable pub emit : Cursor → Lexeme → Run Token
  emit c l = do
    value ← convert atof l.conversion (take (l.stop.position - c.position) c.rest)
    ok (record { kind = l.kind; start = c.position; stop = l.stop.position; value = value })

  -- What a call of scanNextTokenInto adds, and the calls behind it.
  unfoldable pub scan_after : (Cursor → Run (List Token)) → Scanned → Run (List Token)
  scan_after next ended = ok []
  scan_after next (cut_off start stop) = do
    token ←
        emit start (record { stop = stop; kind = error; conversion = incomplete_multiline_comment })
    ok (token ∷ [])
  scan_after next (lexed start l) = do
    token ← emit start l
    tokens ← next l.stop
    ok (token ∷ tokens)

  -- The loop of sysbvm_scanner_scan. Every token takes a byte or more, so the length of the rest
  -- and one more is fuel enough.
  unfoldable pub scan_loop : ℕ → Cursor → Run (List Token)
  unfolding scan_after
  scan_loop zero c = ok []
  scan_loop (suc fuel) c = scan_after (λ d. scan_loop fuel d) (find_next c)

  unfoldable pub scan : List ℕ → Run (List Token)
  unfolding scan_loop
  scan text = scan_loop (suc (length text)) (record { position = 0; rest = text })
