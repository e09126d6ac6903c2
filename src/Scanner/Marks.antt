-- ===== src/Scanner/Marks.antt =====
-- sysbvm_scanner_scanNextTokenInto moves forward, and stays inside the text, in every branch.
use sysmel.Prelude.{
  ℕ, suc, ◌<◌, ◌≡◌, refl, Bool, true, false, ◌&&◌, ◌||◌, ◌==◌, arith, none, some, List, [], ◌∷◌,
  length, get_elem?, Bool-cases, inl, inr, if◌then◌else◌,
}
use sysmel.Scanner.Characters.{
  holds, is_character, is_identifier_start, is_operator_character, is_digit, is_sign,
}
use sysmel.Scanner.Closed.{lex_quoted-Reaches, lex_identifier_symbol-Reaches}
use sysmel.Scanner.Convert.{
  Conversion, as_string, as_character, as_symbol_string, incomplete_string, incomplete_character,
}
use sysmel.Scanner.Cursor.{Cursor, look_at, advance, skip_while, skip_bytes}
use sysmel.Scanner.Numbers.{lex_number-Reaches}
use sysmel.Scanner.Progress.{&&-right, lex_identifier-Reaches}
use sysmel.Scanner.Punctuation.{
  lex_dot, lex_colon, lex_backquote, lex_bar, lex_operator, lex_punctuation,
}
use sysmel.Scanner.Quoted.{lex_hash, lex_string, lex_character}
use sysmel.Scanner.Reach.{
  Reaches, Reaches-on, Reaches-weaken, advance-Reaches, holds-lt, skip_while-Reaches,
  skip_bytes-Reaches,
}
use sysmel.Scanner.Scan.{lex_token}
use sysmel.Scanner.Token.{Lexeme, TokenKind, string, character, symbol}

-- A token that starts at `c` ends behind it, inside the text.
pub record Moves (c : Cursor) (l : Lexeme) : Type 0 where
  pub move : Reaches 1 c l.stop

-- Both ways of a test.
if_Moves :
    {c : Cursor} {a b : Lexeme} (t : Bool)
    → (t ≡ true → Moves c a)
    → (t ≡ false → Moves c b)
    → Moves c (if t then a else b)
if_Moves true f g = f refl
if_Moves false f g = g refl

-- Up to `n` bytes, where the byte at the last of them passes a test.
bytes-Reaches :
    (test : ℕ → Bool) (n : ℕ) (c : Cursor)
    → holds test (look_at c n) ≡ true
    → Reaches 1 c (advance (suc n) c)
bytes-Reaches test n c h =
    let bound = holds-lt test n c.rest h in
    Reaches-weaken 1 (omega arith) (advance-Reaches (suc n) c (omega arith))

first-Reaches : (c : Cursor) → 0 < length c.rest → Reaches 1 c (advance 1 c)
first-Reaches c h = advance-Reaches 1 c (omega arith)

first-Moves :
    (c : Cursor) {kind : TokenKind} {conversion : Conversion}
    → 0 < length c.rest
    → Moves c (record { stop = advance 1 c; kind = kind; conversion = conversion })
first-Moves c h = record { move = first-Reaches c h }

lex_dot-Moves : (c : Cursor) → 0 < length c.rest → Moves c (lex_dot c)
unfolding lex_dot
lex_dot-Moves c h =
    if_Moves (is_character b'.' (look_at c 1) && is_character b'.' (look_at c 2))
      (λ e. record {
        move =
            bytes-Reaches (λ x. x == b'.') 2 c
              (&&-right (is_character b'.' (look_at c 1)) (is_character b'.' (look_at c 2)) e);
      })
      (λ e. first-Moves c h)

lex_colon-Moves : (c : Cursor) → 0 < length c.rest → Moves c (lex_colon c)
unfolding lex_colon
lex_colon-Moves c h =
    if_Moves (is_character b':' (look_at c 1))
      (λ e. record { move = bytes-Reaches (λ x. x == b':') 1 c e })
      (λ d.
        if_Moves (is_character b'=' (look_at c 1))
          (λ e. record { move = bytes-Reaches (λ x. x == b'=') 1 c e }) (λ e. first-Moves c h))

lex_backquote-Moves : (c : Cursor) → 0 < length c.rest → Moves c (lex_backquote c)
unfolding lex_backquote
lex_backquote-Moves c h =
    if_Moves (is_character 39 (look_at c 1))
      (λ e. record { move = bytes-Reaches (λ x. x == 39) 1 c e })
      (λ d.
        if_Moves (is_character b'`' (look_at c 1))
          (λ e. record { move = bytes-Reaches (λ x. x == b'`') 1 c e })
          (λ d.
            if_Moves (is_character b',' (look_at c 1))
              (λ e. record { move = bytes-Reaches (λ x. x == b',') 1 c e })
              (λ d.
                if_Moves (is_character b'@' (look_at c 1))
                  (λ e. record { move = bytes-Reaches (λ x. x == b'@') 1 c e })
                  (λ e. first-Moves c h))))

lex_bar-Moves : (c : Cursor) → 0 < length c.rest → Moves c (lex_bar c)
unfolding lex_bar
lex_bar-Moves c h =
    if_Moves (holds is_operator_character (look_at (advance 1 c) 0))
      (λ e. record {
        move =
            Reaches-on (first-Reaches c h) (skip_while-Reaches is_operator_character (advance 1 c));
      })
      (λ e. first-Moves c h)

none_not_some : {x : ℕ} → none ≡ some x → ⊥
none_not_some h = grind arith

some_holds : (first : ℕ) (l : List ℕ) → get_elem? l 0 ≡ some first → 0 < length l
some_holds first [] h = absurd (none_not_some h)
some_holds first (x ∷ l) h = omega arith

some_injective : {x y : ℕ} → some x ≡ some y → x ≡ y
some_injective h = grind arith

Reaches-step :
    (position x : ℕ) (l : List ℕ)
    → Reaches 1
        (record { position = position; rest = x ∷ l })
        (record { position = suc position; rest = l })
Reaches-step position x l = record {
  count = 1;
  enough = omega arith;
  behind = omega arith;
  same = refl;
  inside = omega arith;
}

run_bytes :
    (test : ℕ → Bool) (first position : ℕ) (l : List ℕ)
    → get_elem? l 0 ≡ some first
    → test first ≡ true
    → Reaches 1 (record { position = position; rest = l }) (skip_bytes test position l)
unfolding skip_bytes
run_bytes test first position [] at e = absurd (none_not_some at)
run_bytes test first position (x ∷ l) at e =
    let same : x ≡ first = some_injective at in
    rw (same, e)
      (Reaches-on (Reaches-step position first l) (skip_bytes-Reaches test (suc position) l))

-- At a byte that passes the test, a run of such bytes is not empty.
run-Reaches :
    (test : ℕ → Bool) (first : ℕ) (c : Cursor)
    → look_at c 0 ≡ some first
    → test first ≡ true
    → Reaches 1 c (skip_while test c)
unfolding skip_while
run-Reaches test first c at e = run_bytes test first c.position c.rest at e

lex_operator-Moves :
    (first : ℕ) (c : Cursor) → look_at c 0 ≡ some first → Moves c (lex_operator first c)
unfolding lex_operator
lex_operator-Moves first c at =
    if_Moves (is_operator_character first)
      (λ e. record { move = run-Reaches is_operator_character first c at e })
      (λ e. first-Moves c (some_holds first c.rest at))

lex_punctuation-Moves :
    (first : ℕ) (c : Cursor)
    → look_at c 0 ≡ some first
    → 0 < length c.rest
    → Moves c (lex_punctuation first c)
unfolding lex_punctuation
lex_punctuation-Moves first c at h =
    if_Moves (first == b'(') (λ e. first-Moves c h)
      (λ d.
        if_Moves (first == b')') (λ e. first-Moves c h)
          (λ d.
            if_Moves (first == b'[') (λ e. first-Moves c h)
              (λ d.
                if_Moves (first == b']') (λ e. first-Moves c h)
                  (λ d.
                    if_Moves (first == b'{') (λ e. first-Moves c h)
                      (λ d.
                        if_Moves (first == b'}') (λ e. first-Moves c h)
                          (λ d.
                            if_Moves (first == b';') (λ e. first-Moves c h)
                              (λ d.
                                if_Moves (first == b',') (λ e. first-Moves c h)
                                  (λ d.
                                    if_Moves (first == b'.') (λ e. lex_dot-Moves c h)
                                      (λ d.
                                        if_Moves (first == b':') (λ e. lex_colon-Moves c h)
                                          (λ d.
                                            if_Moves (first == b'`') (λ e. lex_backquote-Moves c h)
                                              (λ d.
                                                if_Moves (first == b'|') (λ e. lex_bar-Moves c h)
                                                  (λ d. lex_operator-Moves first c at))))))))))))

lex_string-Moves : (c : Cursor) → 0 < length c.rest → Moves c (lex_string c)
unfolding lex_string
lex_string-Moves c h = record {
  move = lex_quoted-Reaches 1 b'"' string as_string incomplete_string c (omega arith);
}

lex_character-Moves : (c : Cursor) → 0 < length c.rest → Moves c (lex_character c)
unfolding lex_character
lex_character-Moves c h = record {
  move = lex_quoted-Reaches 1 39 character as_character incomplete_character c (omega arith);
}

lex_hash-Moves :
    (c : Cursor) (l : Lexeme)
    → 0 < length c.rest
    → Moves c l
    → Moves c (elim (lex_hash c) [ some k ↦ k | none ↦ l ])
unfolding lex_hash
lex_hash-Moves c l h other =
    let c1 = look_at c 1 in
    elim (Bool-cases (holds is_identifier_start c1)) [
      | inl e ↦
          let bound = holds-lt is_identifier_start 1 c.rest e in
          rw e (record { move = lex_identifier_symbol-Reaches c bound })
      | inr e ↦ elim (Bool-cases (holds is_operator_character c1)) [
        | inl f ↦
            rw (e, f)
              (record {
                move =
                    Reaches-on (bytes-Reaches is_operator_character 1 c f)
                      (skip_while-Reaches is_operator_character (advance 2 c));
              })
        | inr f ↦ elim (Bool-cases (is_character b'"' c1)) [
          | inl g ↦
              let bound = holds-lt (λ x. x == b'"') 1 c.rest g in
              rw (e, f, g)
                (record {
                  move = Reaches-weaken 1 (omega arith) (
                      lex_quoted-Reaches 2 b'"' symbol as_symbol_string incomplete_string c
                        (omega arith));
                })
          | inr g ↦ elim (Bool-cases (is_character b'[' c1)) [
            | inl k ↦ rw (e, f, g, k) (record { move = bytes-Reaches (λ x. x == b'[') 1 c k })
            | inr k ↦ elim (Bool-cases (is_character b'{' c1)) [
              | inl m ↦ rw (e, f, g, k, m) (record { move = bytes-Reaches (λ x. x == b'{') 1 c m })
              | inr m ↦ elim (Bool-cases (is_character b'(' c1)) [
                | inl n ↦
                    rw (e, f, g, k, m, n) (record { move = bytes-Reaches (λ x. x == b'(') 1 c n })
                | inr n ↦ rw (e, f, g, k, m, n) other
              ]
            ]
          ]
        ]
      ]
    ]

-- Whatever the first byte at the cursor is, the token that is scanned from it ends one byte or
-- more behind the cursor, inside the text, with the text from there on.
pub lex_token-Moves :
    (first : ℕ) (c : Cursor) → look_at c 0 ≡ some first → Moves c (lex_token first c)
unfolding lex_token
lex_token-Moves first c at =
    let h = some_holds first c.rest at in
    let marks = lex_punctuation-Moves first c at h in
    if_Moves (is_identifier_start first) (λ e. record { move = lex_identifier-Reaches c (rw at e) })
      (λ d.
        if_Moves (is_digit first || is_sign first && holds is_digit (look_at c 1))
          (λ e. record { move = lex_number-Reaches c h })
          (λ d.
            if_Moves (first == b'"') (λ e. lex_string-Moves c h)
              (λ d.
                if_Moves (first == 39) (λ e. lex_character-Moves c h)
                  (λ d.
                    if_Moves (first == b'#')
                      (λ e. lex_hash-Moves c (lex_punctuation first c) h marks) (λ d. marks)))))
