-- ===== src/Scanner/Skip.antt =====
-- lib/sysbvm/scanner.c: white space and comments.
use sysmel.Prelude.{
  ℕ, zero, suc, true, false, ◌&&◌, ◌||◌, not, leb, ◌==◌, if◌then◌else◌, List, [], ◌∷◌, length,
}
use sysmel.Scanner.Characters.{is_character}
use sysmel.Scanner.Cursor.{Cursor, look_at, advance, skip_while}

unfoldable pub skip_white : Cursor → Cursor
unfolding skip_while
skip_white c = skip_while (λ d. leb d b' ') c

-- Up to the end of the line, and over it.
unfoldable pub skip_line : ℕ → List ℕ → Cursor
skip_line position [] = record { position = position; rest = [] }
skip_line position (c ∷ cs) =
    if c == 10 || c == 13
    then record { position = suc position; rest = cs }
    else skip_line (suc position) cs

unfoldable pub skip_single_line_comment : Cursor → Cursor
unfolding skip_line
skip_single_line_comment c = let d = advance 2 c in skip_line d.position d.rest

-- How the skipping ends: behind the comments, or at the end of the text inside the comment that
-- starts at the first cursor.
pub data Skipped : Type 0 where
  skipped : Cursor → Skipped
  incomplete : Cursor → Cursor → Skipped

-- Up to the end of the comment that starts at `start`.
unfoldable pub find_comment_end : Cursor → ℕ → List ℕ → Skipped
find_comment_end start position [] = incomplete start (record { position = position; rest = [] })
find_comment_end start position (c ∷ []) =
    incomplete start (record { position = suc position; rest = [] })
find_comment_end start position (c ∷ d ∷ cs) =
    if c == b'*' && d == b'#'
    then skipped (record { position = suc (suc position); rest = cs })
    else find_comment_end start (suc position) (d ∷ cs)

unfoldable pub skip_multi_line_comment : Cursor → Skipped
unfolding find_comment_end
skip_multi_line_comment c =
    if not (is_character b'#' (look_at c 0)) && not (is_character b'*' (look_at c 1))
    then skipped c
    else (let d = advance 2 c in find_comment_end c d.position d.rest)

-- The `do … while(hasSeenComment)` loop. Every comment takes two bytes or more, so the length of
-- the rest and one more is fuel enough.
unfoldable pub skip_loop : ℕ → Cursor → Skipped
skip_loop zero c = skipped c
skip_loop (suc fuel) c =
    let w = skip_white c in
    elim (is_character b'#' (look_at w 0)) [
      | false ↦ skipped w
      | true ↦ elim (is_character b'#' (look_at w 1)) [
        | true ↦ skip_loop fuel (skip_single_line_comment w)
        | false ↦ elim (is_character b'*' (look_at w 1)) [
          | false ↦ skipped w
          | true ↦ elim (skip_multi_line_comment w) [
            | skipped d ↦ skip_loop fuel d
            | incomplete s e ↦ incomplete s e
          ]
        ]
      ]
    ]

unfoldable pub skip_white_and_comments : Cursor → Skipped
unfolding skip_loop skip_white skip_single_line_comment skip_multi_line_comment
skip_white_and_comments c = skip_loop (suc (length c.rest)) c
