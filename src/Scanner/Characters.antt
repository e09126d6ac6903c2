-- ===== src/Scanner/Characters.antt =====
-- lib/sysbvm/scanner.c: the classes of characters. `sysbvm_scanner_lookAt` gives -1 past the end,
-- which is in none of them; here it gives `none`.
use sysmel.Prelude.{ℕ, Bool, false, ◌&&◌, ◌||◌, leb, ◌==◌, Option, none, some, List, [], ◌∷◌}

-- A test of a byte, on what lookAt gives.
abbrev pub holds : (ℕ → Bool) → Option ℕ → Bool
holds test none = false
holds test (some c) = test c

abbrev pub is_character : ℕ → Option ℕ → Bool
is_character c = holds (λ d. d == c)

unfoldable pub one_of : List ℕ → ℕ → Bool
one_of [] c = false
one_of (d ∷ ds) c = c == d || one_of ds c

unfoldable pub is_operator_character : ℕ → Bool
unfolding one_of
is_operator_character = one_of (
    b'+' ∷ b'-' ∷ b'/' ∷ 92 ∷ b'*' ∷ b'~' ∷ b'<' ∷ b'>' ∷ b'=' ∷ b'@' ∷ b'%' ∷ b'|' ∷ b'&' ∷ b'?'
    ∷ b'!' ∷ b'^' ∷ [])

unfoldable pub is_identifier_start : ℕ → Bool
is_identifier_start c = leb b'A' c && leb c b'Z' || leb b'a' c && leb c b'z' || b'_' == c

unfoldable pub is_alpha : ℕ → Bool
is_alpha c = leb b'A' c && leb c b'Z' || leb b'a' c && leb c b'z'

unfoldable pub is_digit : ℕ → Bool
is_digit c = leb b'0' c && leb c b'9'

unfoldable pub is_digit_or_underscore : ℕ → Bool
is_digit_or_underscore c = leb b'0' c && leb c b'9' || c == b'_'

unfoldable pub is_alphanumeric_or_underscore : ℕ → Bool
unfolding is_digit is_alpha
is_alphanumeric_or_underscore c = is_digit c || is_alpha c || c == b'_'

unfoldable pub is_sign : ℕ → Bool
is_sign c = b'+' == c || c == b'-'

unfoldable pub is_identifier_middle : ℕ → Bool
unfolding is_identifier_start is_digit
is_identifier_middle c = is_identifier_start c || is_digit c
