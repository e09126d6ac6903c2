-- ===== src/Scanner/Closed.antt =====
-- The branches for quoted tokens and for what starts with `#` move forward, and stay inside the
-- text.
use sysmel.Prelude.{
  ℕ, zero, suc, ◌≤◌, ◌<◌, ◌||◌, ◌==◌, arith, List, [], ◌∷◌, length, Bool-cases, inl, inr,
}
use sysmel.Scanner.Characters.{holds, is_character, is_identifier_start, is_operator_character}
use sysmel.Scanner.Cursor.{Cursor, look_at, advance}
use sysmel.Scanner.Lex.{skip_identifier, scope_before}
use sysmel.Scanner.Progress.{
  byte-Reaches, scope_before-lt, skip_identifier-Reaches, advance_keywords-Reaches,
}
use sysmel.Scanner.Quoted.{find_quote, lex_quoted, chop_symbol_scopes, lex_identifier_symbol}
use sysmel.Scanner.Convert.{Conversion}
use sysmel.Scanner.Token.{TokenKind}
use sysmel.Scanner.Reach.{
  Reaches, Reaches-refl, Reaches-on, Reaches-weaken, advance-Reaches, skip_while-Reaches,
  step_Reaches,
}

-- A step over one byte, from its number to the end of a search behind it.
find_quote-Reaches :
    (quote position : ℕ) (l : List ℕ)
    → Reaches 0 (record { position = position; rest = l }) (find_quote quote position l).1
unfolding find_quote
find_quote-Reaches quote position [] = Reaches-refl _
find_quote-Reaches quote position (x ∷ []) = step_Reaches position x [] _ (Reaches-refl _)
find_quote-Reaches quote position (x ∷ y ∷ l) =
    let plain =
      step_Reaches position x (y ∷ l) _ (find_quote-Reaches quote (suc position) (y ∷ l)) in
    let escaped =
      step_Reaches position x (y ∷ l) _
        (step_Reaches (suc position) y l _ (find_quote-Reaches quote (suc (suc position)) l)) in
    let here = step_Reaches position x (y ∷ l) _ (Reaches-refl _) in
    elim (Bool-cases (x == quote)) [
      | inl e ↦ rw e here
      | inr e ↦ elim (Bool-cases (x == 92)) [ inl f ↦ rw (e, f) escaped | inr f ↦ rw (e, f) plain ]
    ]

pub lex_quoted-Reaches :
    (opening quote : ℕ) (kind : TokenKind) (conversion incomplete : Conversion) (c : Cursor)
    → opening ≤ length c.rest
    → Reaches opening c (lex_quoted opening quote kind conversion incomplete c).stop
unfolding lex_quoted
lex_quoted-Reaches opening quote kind conversion incomplete c h =
    let inside = advance opening c in
    let ends =
      Reaches-on (advance-Reaches opening c h)
        (find_quote-Reaches quote inside.position inside.rest) in
    elim (Bool-cases (find_quote quote inside.position inside.rest).0) [
      | inl e ↦ rw e ends
      | inr e ↦ rw e ends
    ]

chop_symbol_scopes-Reaches : (fuel : ℕ) (c : Cursor) → Reaches 0 c (chop_symbol_scopes fuel c).1
unfolding chop_symbol_scopes
chop_symbol_scopes-Reaches zero c = Reaches-refl c
chop_symbol_scopes-Reaches (suc fuel) c =
    let test = λ (d : ℕ). is_identifier_start d || is_operator_character d in
    let inside = advance 2 c in
    elim (Bool-cases (scope_before test c)) [
      | inr e ↦ rw (chop_symbol_scopes, e) (Reaches-refl c)
      | inl e ↦
          let bound = scope_before-lt test c e in
          let colons : Reaches 0 c (advance 2 c) =
            Reaches-weaken 0 (omega arith) (advance-Reaches 2 c (omega arith)) in
          elim (Bool-cases (holds is_operator_character (look_at inside 0))) [
            | inl f ↦
                rw (chop_symbol_scopes, e, f) (Reaches-on colons (skip_while-Reaches _ inside))
            | inr f ↦
                rw (chop_symbol_scopes, e, f)
                  (Reaches-on (Reaches-on colons (skip_identifier-Reaches inside))
                    (chop_symbol_scopes-Reaches fuel (skip_identifier inside)))
          ]
    ]

pub lex_identifier_symbol-Reaches :
    (c : Cursor) → 1 < length c.rest → Reaches 1 c (lex_identifier_symbol c).stop
unfolding lex_identifier_symbol
lex_identifier_symbol-Reaches c h =
    let name = skip_identifier (advance 2 c) in
    let chopped = chop_symbol_scopes (suc (length name.rest)) name in
    let scoped = chopped.1 in
    let to_scoped : Reaches 1 c scoped =
      Reaches-on
        (Reaches-on (Reaches-weaken 1 (omega arith) (advance-Reaches 2 c (omega arith)))
          (skip_identifier-Reaches (advance 2 c)))
        (chop_symbol_scopes-Reaches (suc (length name.rest)) name) in
    elim (Bool-cases chopped.0) [
      | inl x ↦ rw x to_scoped
      | inr x ↦ elim (Bool-cases (is_character b':' (look_at scoped 0))) [
        | inl y ↦
            rw (x, y)
              (Reaches-on to_scoped (
                Reaches-weaken 0 (omega arith) (
                  Reaches-on (byte-Reaches _ scoped y) (
                    advance_keywords-Reaches (suc (length (advance 1 scoped).rest))
                      (advance 1 scoped)))))
        | inr y ↦ rw (x, y) to_scoped
      ]
    ]
