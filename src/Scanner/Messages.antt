-- ===== src/Scanner/Messages.antt =====
-- lib/sysbvm/scanner.c: the texts of the symbols that stand for errors.
use sysmel.Prelude.{ℕ, List, [], ◌∷◌}

-- Incomplete multiline comment.
abbrev pub incomplete_multiline_comment_message : List ℕ
incomplete_multiline_comment_message =
    b'I' ∷ b'n' ∷ b'c' ∷ b'o' ∷ b'm' ∷ b'p' ∷ b'l' ∷ b'e' ∷ b't' ∷ b'e' ∷ b' ' ∷ b'm' ∷ b'u' ∷ b'l'
    ∷ b't' ∷ b'i' ∷ b'l' ∷ b'i' ∷ b'n' ∷ b'e' ∷ b' ' ∷ b'c' ∷ b'o' ∷ b'm' ∷ b'm' ∷ b'e' ∷ b'n'
    ∷ b't' ∷ b'.' ∷ []

-- Unrecognized token.
abbrev pub unrecognized_token_message : List ℕ
unrecognized_token_message =
    b'U' ∷ b'n' ∷ b'r' ∷ b'e' ∷ b'c' ∷ b'o' ∷ b'g' ∷ b'n' ∷ b'i' ∷ b'z' ∷ b'e' ∷ b'd' ∷ b' ' ∷ b't'
    ∷ b'o' ∷ b'k' ∷ b'e' ∷ b'n' ∷ b'.' ∷ []

-- Incomplete character.
abbrev pub incomplete_character_message : List ℕ
incomplete_character_message =
    b'I' ∷ b'n' ∷ b'c' ∷ b'o' ∷ b'm' ∷ b'p' ∷ b'l' ∷ b'e' ∷ b't' ∷ b'e' ∷ b' ' ∷ b'c' ∷ b'h' ∷ b'a'
    ∷ b'r' ∷ b'a' ∷ b'c' ∷ b't' ∷ b'e' ∷ b'r' ∷ b'.' ∷ []

-- Incomplete string.
abbrev pub incomplete_string_message : List ℕ
incomplete_string_message =
    b'I' ∷ b'n' ∷ b'c' ∷ b'o' ∷ b'm' ∷ b'p' ∷ b'l' ∷ b'e' ∷ b't' ∷ b'e' ∷ b' ' ∷ b's' ∷ b't' ∷ b'r'
    ∷ b'i' ∷ b'n' ∷ b'g' ∷ b'.' ∷ []
