-- ===== src/Scanner/Numbers.antt =====
-- The branches for numbers, quoted tokens and punctuation move forward, and stay inside the text.
use sysmel.Prelude.{
  ℕ, ◌<◌, ◌≡◌, ◌⊎◌, refl, Bool, true, false, ◌&&◌, ◌||◌, ◌==◌, arith, length, Bool-cases, inl, inr,
  if◌then◌else◌,
}
use sysmel.Scanner.Characters.{holds, is_character, is_digit, is_sign, is_digit_or_underscore}
use sysmel.Scanner.Cursor.{Cursor, look_at, advance, skip_while}
use sysmel.Scanner.Lex.{lex_fraction, lex_number}
use sysmel.Scanner.Progress.{&&-right, byte-Reaches}
use sysmel.Scanner.Reach.{
  Reaches, Reaches-refl, Reaches-trans, Reaches-on, Reaches-weaken, Reaches-length, advance-Reaches,
  holds-lt, skip_while-Reaches,
}

||-cases : (a b : Bool) → (a || b) ≡ true → (a ≡ true) ⊎ (b ≡ true)
||-cases true b h = inl refl
||-cases false b h = inr h

&&-left : (a b : Bool) → (a && b) ≡ true → a ≡ true
&&-left true b h = refl
&&-left false b h = absurd (ground arith)

-- The test before a fraction, and what it says of the bytes behind the dot.
fraction_bytes :
    (c : Cursor)
    → (holds is_digit (look_at c 1) || holds is_sign (look_at c 1) && holds is_digit (look_at c 2))
      ≡ true
    → 1 < length c.rest
fraction_bytes c h =
    elim (||-cases _ (holds is_sign (look_at c 1) && holds is_digit (look_at c 2)) h) [
      | inl d ↦ holds-lt is_digit 1 c.rest d
      | inr d ↦ holds-lt is_sign 1 c.rest (&&-left _ (holds is_digit (look_at c 2)) d)
    ]

fraction_start-Reaches :
    (c : Cursor)
    → 0 < length c.rest
    → Reaches 0 c (advance 1 (if holds is_sign (look_at c 1) then advance 1 c else c))
fraction_start-Reaches c h = elim (Bool-cases (holds is_sign (look_at c 1))) [
  | inl x ↦
      let bound = holds-lt is_sign 1 c.rest x in
      let first = advance-Reaches 1 c (omega arith) in
      let left = Reaches-length first in
      rw x (
        Reaches-weaken 0 (omega arith)
          (Reaches-trans first (advance-Reaches 1 (advance 1 c) (omega arith))))
  | inr x ↦ rw x (Reaches-weaken 0 (omega arith) (advance-Reaches 1 c (omega arith)))
]

either_byte-Reaches :
    (a b : ℕ) (c : Cursor)
    → (is_character a (look_at c 0) || is_character b (look_at c 0)) ≡ true
    → Reaches 1 c (advance 1 c)
either_byte-Reaches a b c h = elim (||-cases (is_character a (look_at c 0)) _ h) [
  | inl x ↦ byte-Reaches (λ d. d == a) c x
  | inr x ↦ byte-Reaches (λ d. d == b) c x
]

exponent-Reaches :
    (c : Cursor)
    → Reaches 0 c (
        if is_character b'e' (look_at c 0) || is_character b'E' (look_at c 0)
        then skip_while is_digit_or_underscore
            (if holds is_sign (look_at (advance 1 c) 0) then c else advance 1 c)
        else c)
exponent-Reaches c =
    elim (Bool-cases (is_character b'e' (look_at c 0) || is_character b'E' (look_at c 0))) [
      | inl x ↦ elim (Bool-cases (holds is_sign (look_at (advance 1 c) 0))) [
        | inl y ↦ rw (x, y) (skip_while-Reaches _ c)
        | inr y ↦
            rw (x, y)
              (Reaches-weaken 0 (omega arith)
                (Reaches-on (either_byte-Reaches _ _ c x) (skip_while-Reaches _ (advance 1 c))))
      ]
      | inr x ↦ rw x (Reaches-refl c)
    ]

lex_fraction-Reaches : (c : Cursor) → 1 < length c.rest → Reaches 0 c (lex_fraction c)
unfolding lex_fraction
lex_fraction-Reaches c h =
    let dot = advance-Reaches 1 c (omega arith) in
    let left = Reaches-length dot in
    Reaches-on
      (Reaches-on
        (Reaches-on (Reaches-weaken 0 (omega arith) dot)
          (fraction_start-Reaches (advance 1 c) (omega arith)))
        (skip_while-Reaches is_digit_or_underscore _))
      (exponent-Reaches _)

pub lex_number-Reaches : (c : Cursor) → 0 < length c.rest → Reaches 1 c (lex_number c).stop
unfolding lex_number
lex_number-Reaches c h =
    let digits = skip_while is_digit_or_underscore (advance 1 c) in
    let to_digits : Reaches 1 c digits =
      Reaches-on (advance-Reaches 1 c (omega arith))
        (skip_while-Reaches is_digit_or_underscore (advance 1 c)) in
    let fraction =
      holds is_digit (look_at digits 1)
      || holds is_sign (look_at digits 1) && holds is_digit (look_at digits 2) in
    elim (Bool-cases
      (is_character b'r' (look_at digits 0) || is_character b'R' (look_at digits 0))) [
        | inl x ↦ rw x (
            Reaches-on to_digits (
              Reaches-weaken 0 (omega arith) (
                Reaches-on (either_byte-Reaches b'r' b'R' digits x)
                  (skip_while-Reaches _ (advance 1 digits)))))
        | inr x ↦ elim (Bool-cases (is_character b'.' (look_at digits 0) && fraction)) [
          | inl y ↦
              rw (x, y)
                (Reaches-on to_digits (
                  lex_fraction-Reaches digits (
                    fraction_bytes digits
                      (&&-right (is_character b'.' (look_at digits 0)) fraction y))))
          | inr y ↦ rw (x, y) to_digits
        ]
      ]
