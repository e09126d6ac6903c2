-- ===== src/Scanner/Progress.antt =====
-- The branches of sysbvm_scanner_scanNextTokenInto move forward, and stay inside the text.
use sysmel.Prelude.{
  ℕ, zero, suc, ◌<◌, ◌≡◌, Bool, true, false, ◌&&◌, arith, none, some, length, Bool-cases,
  Option-cases, inl, inr, if◌then◌else◌,
}
use sysmel.Scanner.Characters.{holds, is_character, is_identifier_start, is_operator_character}
use sysmel.Scanner.Cursor.{Cursor, look_at, advance}
use sysmel.Scanner.Lex.{
  scope_before, skip_identifier, chop_scopes, advance_keyword, advance_keywords, lex_identifier,
}
use sysmel.Scanner.Reach.{
  Reaches, Reaches-refl, Reaches-trans, Reaches-on, Reaches-weaken, advance-Reaches, holds-lt,
  skip_while-Reaches, loop-Reaches, loop-ends,
}

none_not_some : {c : Cursor} → none ≡ some c → ⊥
none_not_some h = grind arith

some_injective : {c d : Cursor} → some c ≡ some d → c ≡ d
some_injective h = grind arith

pub &&-right : (a b : Bool) → (a && b) ≡ true → b ≡ true
&&-right true b h = h
&&-right false b h = absurd (ground arith)

pub scope_before-lt :
    (test : ℕ → Bool) (c : Cursor) → scope_before test c ≡ true → 2 < length c.rest
scope_before-lt test c h =
    let first = is_character b':' (look_at c 0) in
    let second = is_character b':' (look_at c 1) in
    let third = holds test (look_at c 2) in
    holds-lt test 2 c.rest (&&-right (first && second) third h)

pub skip_identifier-Reaches : (c : Cursor) → Reaches 0 c (skip_identifier c)
unfolding skip_identifier
skip_identifier-Reaches c = skip_while-Reaches _ c

chop_body-Reaches :
    (c : Cursor)
    → scope_before is_identifier_start c ≡ true
    → Reaches 1 c (skip_identifier (advance 3 c))
chop_body-Reaches c h =
    let bound = scope_before-lt is_identifier_start c h in
    Reaches-on (Reaches-weaken 1 (omega arith) (advance-Reaches 3 c (omega arith)))
      (skip_identifier-Reaches (advance 3 c))

chop_scopes-Reaches : (c : Cursor) → Reaches 0 c (chop_scopes c)
unfolding chop_scopes
chop_scopes-Reaches c = loop-Reaches _ _ chop_body-Reaches (suc (length c.rest)) c

-- The loop that takes scoped names ends at a place where no further scope and name follow, so its
-- fuel is enough.
pub chop_scopes-ends : (c : Cursor) → scope_before is_identifier_start (chop_scopes c) ≡ false
unfolding chop_scopes
chop_scopes-ends c = loop-ends _ _ chop_body-Reaches (suc (length c.rest)) c (omega arith)

-- One byte, by a test that it passes.
pub byte-Reaches :
    (test : ℕ → Bool) (c : Cursor) → holds test (look_at c 0) ≡ true → Reaches 1 c (advance 1 c)
byte-Reaches test c h = let bound = holds-lt test 0 c.rest h in advance-Reaches 1 c (omega arith)

keyword_end-Reaches :
    (c d e : Cursor)
    → Reaches 0 c e
    → (if is_character b':' (look_at e 0) then some (advance 1 e) else none) ≡ some d
    → Reaches 1 c d
keyword_end-Reaches c d e m h = elim (Bool-cases (is_character b':' (look_at e 0))) [
  | inl x ↦ rw (← some_injective (rw x at h)) (Reaches-trans m (byte-Reaches _ e x))
  | inr x ↦ absurd (none_not_some (rw x at h))
]

advance_keyword-Reaches : (c d : Cursor) → advance_keyword c ≡ some d → Reaches 1 c d
unfolding advance_keyword
advance_keyword-Reaches c d h = elim (Bool-cases (holds is_identifier_start (look_at c 0))) [
  | inl x ↦ keyword_end-Reaches c d (skip_identifier c) (skip_identifier-Reaches c) (rw x at h)
  | inr x ↦ absurd (none_not_some (rw x at h))
]

pub advance_keywords-Reaches : (fuel : ℕ) (c : Cursor) → Reaches 0 c (advance_keywords fuel c)
unfolding advance_keywords
advance_keywords-Reaches zero c = Reaches-refl c
advance_keywords-Reaches (suc fuel) c = elim (Option-cases (advance_keyword c)) [
  | inl e ↦ rw (advance_keywords, e) (Reaches-refl c)
  | inr (d, e) ↦
      rw (advance_keywords, e)
        (Reaches-weaken 0 (omega arith)
          (Reaches-on (advance_keyword-Reaches c d e) (advance_keywords-Reaches fuel d)))
]

pub lex_identifier-Reaches :
    (c : Cursor)
    → holds is_identifier_start (look_at c 0) ≡ true
    → Reaches 1 c (lex_identifier c).stop
unfolding lex_identifier
lex_identifier-Reaches c h =
    let scoped = chop_scopes (skip_identifier (advance 1 c)) in
    let to_scoped : Reaches 1 c scoped =
      Reaches-on (Reaches-on (byte-Reaches _ c h) (skip_identifier-Reaches (advance 1 c)))
        (chop_scopes-Reaches (skip_identifier (advance 1 c))) in
    elim (Bool-cases (scope_before is_operator_character scoped)) [
      | inl x ↦
          let bound = scope_before-lt is_operator_character scoped x in
          rw x (
            Reaches-on to_scoped (
              Reaches-weaken 0 (omega arith)
                (Reaches-on (advance-Reaches 3 scoped (omega arith)) (skip_while-Reaches _ _))))
      | inr x ↦ elim (Bool-cases (is_character b':' (look_at scoped 0))) [
        | inl y ↦
            rw (x, y)
              (Reaches-on to_scoped (
                Reaches-weaken 0 (omega arith) (
                  Reaches-on (byte-Reaches _ scoped y) (
                    advance_keywords-Reaches (suc (length (advance 1 scoped).rest))
                      (advance 1 scoped)))))
        | inr y ↦ rw (x, y) to_scoped
      ]
    ]
