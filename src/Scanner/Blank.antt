-- ===== src/Scanner/Blank.antt =====
-- White space and comments: where the skipping stops.
use sysmel.Prelude.{
  ℕ, zero, suc, ◌≡◌, Bool, true, ◌&&◌, ◌||◌, not, ◌==◌, leb, arith, List, [], ◌∷◌, length,
  Bool-cases, inl, inr,
}
use sysmel.Scanner.Characters.{holds, is_character}
use sysmel.Scanner.Cursor.{Cursor, look_at, advance}
use sysmel.Scanner.Reach.{
  Reaches, Reaches-refl, Reaches-on, Reaches-weaken, advance-Reaches, holds-lt, skip_while-Reaches,
  step_Reaches,
}
use sysmel.Scanner.Skip.{
  Skipped, skipped, incomplete, skip_white, skip_line, skip_single_line_comment, find_comment_end,
  skip_multi_line_comment, skip_loop, skip_white_and_comments,
}

-- Where the skipping from `c` may end.
pub data Skips (c : Cursor) : Skipped → Type 0 where
  to_token : (d : Cursor) → Reaches 0 c d → Skips c (skipped d)
  in_comment : (s e : Cursor) → Reaches 0 c s → Reaches 1 s e → Skips c (incomplete s e)

Skips-before : {c d : Cursor} {s : Skipped} → Reaches 0 c d → Skips d s → Skips c s
Skips-before m (to_token e n) = to_token e (Reaches-on m n)
Skips-before m (in_comment s e n k) = in_comment s e (Reaches-on m n) k

skip_line-Reaches :
    (position : ℕ) (l : List ℕ)
    → Reaches 0 (record { position = position; rest = l }) (skip_line position l)
unfolding skip_line
skip_line-Reaches position [] = Reaches-refl _
skip_line-Reaches position (x ∷ l) = elim (Bool-cases (x == 10 || x == 13)) [
  | inl e ↦ rw e (step_Reaches position x l _ (Reaches-refl _))
  | inr e ↦ rw e (step_Reaches position x l _ (skip_line-Reaches (suc position) l))
]

two-Reaches :
    (test : ℕ → Bool) (c : Cursor) → holds test (look_at c 1) ≡ true → Reaches 2 c (advance 2 c)
two-Reaches test c h = let bound = holds-lt test 1 c.rest h in advance-Reaches 2 c (omega arith)

find_comment_end-Skips :
    (start : Cursor) (position : ℕ) (l : List ℕ)
    → Reaches 1 start (record { position = position; rest = l })
    → Skips start (find_comment_end start position l)
unfolding find_comment_end
find_comment_end-Skips start position [] m = in_comment _ _ (Reaches-refl _) m
find_comment_end-Skips start position (x ∷ []) m =
    in_comment _ _ (Reaches-refl _) (Reaches-on m (step_Reaches position x [] _ (Reaches-refl _)))
find_comment_end-Skips start position (x ∷ y ∷ l) m = elim (Bool-cases (x == b'*' && y == b'#')) [
  | inl e ↦ rw e (
      to_token _ (
        Reaches-weaken 0 (omega arith) (
          Reaches-on m (
            step_Reaches position x (y ∷ l) _
              (step_Reaches (suc position) y l _ (Reaches-refl _))))))
  | inr e ↦ rw e (
      find_comment_end-Skips start (suc position) (y ∷ l)
        (Reaches-on m (step_Reaches position x (y ∷ l) _ (Reaches-refl _))))
]

skip_multi_line_comment-Skips :
    (c : Cursor) → is_character b'*' (look_at c 1) ≡ true → Skips c (skip_multi_line_comment c)
unfolding skip_multi_line_comment
skip_multi_line_comment-Skips c h =
    elim (Bool-cases
      (not (is_character b'#' (look_at c 0)) && not (is_character b'*' (look_at c 1)))) [
        | inl e ↦ rw e (to_token c (Reaches-refl c))
        | inr e ↦
            let d = advance 2 c in
            rw e (
              find_comment_end-Skips c d.position d.rest
                (Reaches-weaken 1 (omega arith) (two-Reaches _ c h)))
      ]

-- The loop behind a comment between stars.
comment_then-Skips :
    (fuel : ℕ) (c w : Cursor) (s : Skipped)
    → Reaches 0 c w
    → Skips w s
    → ((d : Cursor) → Skips d (skip_loop fuel d))
    → Skips c (elim s [ skipped d ↦ skip_loop fuel d | incomplete a b ↦ incomplete a b ])
comment_then-Skips fuel c w (skipped d) m (to_token _ n) again =
    Skips-before (Reaches-on m n) (again d)
comment_then-Skips fuel c w (incomplete a b) m (in_comment _ _ n k) again =
    in_comment a b (Reaches-on m n) k

skip_loop-Skips : (fuel : ℕ) (c : Cursor) → Skips c (skip_loop fuel c)
unfolding skip_loop skip_white skip_single_line_comment
skip_loop-Skips zero c = to_token c (Reaches-refl c)
skip_loop-Skips (suc fuel) c =
    let w = skip_white c in
    let white : Reaches 0 c w = skip_while-Reaches (λ d. leb d b' ') c in
    elim (Bool-cases (is_character b'#' (look_at w 0))) [
      | inr e ↦ rw (skip_loop, e) (to_token w white)
      | inl e ↦ elim (Bool-cases (is_character b'#' (look_at w 1))) [
        | inl f ↦
            let two = Reaches-weaken 0 (omega arith) (two-Reaches _ w f) in
            let d = advance 2 w in
            let line = Reaches-on white (Reaches-on two (skip_line-Reaches d.position d.rest)) in
            rw (skip_loop, e, f)
              (Skips-before line (skip_loop-Skips fuel (skip_single_line_comment w)))
        | inr f ↦ elim (Bool-cases (is_character b'*' (look_at w 1))) [
          | inr g ↦ rw (skip_loop, e, f, g) (to_token w white)
          | inl g ↦
              rw (skip_loop, e, f, g)
                (comment_then-Skips fuel c w (skip_multi_line_comment w) white
                  (skip_multi_line_comment-Skips w g) (λ d. skip_loop-Skips fuel d))
        ]
      ]
    ]

-- White space and comments are left behind inside the text; an incomplete comment starts inside
-- the text and is not empty.
pub skip_white_and_comments-Skips : (c : Cursor) → Skips c (skip_white_and_comments c)
unfolding skip_white_and_comments
skip_white_and_comments-Skips c = skip_loop-Skips (suc (length c.rest)) c
