-- ===== src/Scanner/Order.antt =====
-- The tokens of a text: in the order of their places, not empty, disjoint and inside the text; and
-- fuel for every byte is enough.
use sysmel.Prelude.{
  ℕ, zero, suc, ◌+◌, ◌-◌, ◌≤◌, ◌<◌, ◌≡◌, refl, sym, ap, arith, List, [], ◌∷◌, length, take,
  Option-cases, inl, inr,
}
use sysmel.Run.{Run, ok, ok_injective, bind_ok, ◌>>=◌}
use sysmel.Scanner.Blank.{Skips, to_token, in_comment, skip_white_and_comments-Skips}
use sysmel.Scanner.Convert.{TokenValue, convert, incomplete_multiline_comment}
use sysmel.Scanner.Cursor.{Cursor, look_at}
use sysmel.Scanner.Marks.{lex_token-Moves}
use sysmel.Scanner.Reach.{Reaches, Reaches-trans, Reaches-length}
use sysmel.Scanner.Scan.{
  Scanned, ended, cut_off, lexed, after_skip, find_next, emit, scan_after, scan_loop, scan,
}
use sysmel.Scanner.Skip.{Skipped}
use sysmel.Scanner.Token.{Token, Lexeme, error}

-- What a call of scanNextTokenInto at `c` finds.
pub data Finds (c : Cursor) : Scanned → Type 0 where
  at_end : Finds c ended
  a_comment : (s e : Cursor) → Reaches 0 c s → Reaches 1 s e → Finds c (cut_off s e)
  a_token : (s : Cursor) (l : Lexeme) → Reaches 0 c s → Reaches 1 s l.stop → Finds c (lexed s l)

after_skip-Finds : (c : Cursor) (s : Skipped) → Skips c s → Finds c (after_skip s)
unfolding after_skip
after_skip-Finds c _ (in_comment s e m n) = a_comment s e m n
after_skip-Finds c _ (to_token d m) = elim (Option-cases (look_at d 0)) [
  | inl e ↦ rw (after_skip, e) at_end
  | inr (first, e) ↦ rw (after_skip, e) (a_token d _ m (lex_token-Moves first d e).move)
]

-- A call of the scanner at a cursor finds the end, an incomplete comment, or a token; the latter
-- two start at the cursor or behind it, are not empty, and end inside the text.
pub find_next-Finds : (c : Cursor) → Finds c (find_next c)
unfolding find_next
find_next-Finds c = after_skip-Finds c _ (skip_white_and_comments-Skips c)

-- Tokens between two places: each starts where the one before it stops or behind that, and stops
-- behind its start.
pub InOrder : ℕ → ℕ → List Token → Type 0
InOrder from size [] = from ≤ size
InOrder from size (t ∷ ts) = (from ≤ t.start) × (t.start < t.stop) × InOrder t.stop size ts

emit_ok :
    (atof : List ℕ → ℕ) (s : Cursor) (l : Lexeme) (t : Token)
    → emit atof s l ≡ ok t
    → (t.start ≡ s.position) × (t.stop ≡ l.stop.position)
unfolding emit
emit_ok atof s l t h =
    let (v, _, e) =
      bind_ok (convert atof l.conversion (take (l.stop.position - s.position) s.rest))
        (λ (v : TokenValue).
          ok (record { kind = l.kind; start = s.position; stop = l.stop.position; value = v }))
        t h in
    let same : record { kind = l.kind; start = s.position; stop = l.stop.position; value = v } ≡ t =
      ok_injective e in
    (sym (ap (λ (u : Token). u.start) same), sym (ap (λ (u : Token). u.stop) same))

-- The token that is emitted stands before the ones that follow.
InOrder-cons :
    (from size : ℕ) (c : Cursor) (t : Token) (ts : List Token) (s e : Cursor)
    → Reaches 0 c s
    → Reaches 1 s e
    → from ≡ c.position
    → (t.start ≡ s.position) × (t.stop ≡ e.position)
    → InOrder e.position size ts
    → InOrder from size (t ∷ ts)
unfolding InOrder
InOrder-cons from size c t ts s e m n at (start, stop) rest =
    let mb = m.behind in
    let nb = n.behind in let some_bytes = n.enough in (omega arith, omega arith, rw stop rest)

-- The end of the text stays where it is.
Reaches-size :
    {a : ℕ} {c d : Cursor} (size : ℕ)
    → Reaches a c d
    → c.position + length c.rest ≡ size
    → d.position + length d.rest ≡ size
Reaches-size size m h =
    let b = m.behind in let i = m.inside in let left = Reaches-length m in omega arith

scan_after-InOrder :
    (atof : List ℕ → ℕ) (size : ℕ) (c : Cursor) (ts : List Token) (next : Cursor → Run (List Token))
    (r : Scanned)
    → Finds c r
    → c.position + length c.rest ≡ size
    → ((d : Cursor) (us : List Token)
        → d.position + length d.rest ≡ size
        → next d ≡ ok us
        → InOrder d.position size us)
    → scan_after atof next r ≡ ok ts
    → InOrder c.position size ts
unfolding scan_after InOrder
scan_after-InOrder atof size c ts next _ at_end at again h = rw (← ok_injective h) (omega arith)
scan_after-InOrder atof size c ts next _ (a_comment s e m n) at again h =
    let l : Lexeme = record { stop = e; kind = error; conversion = incomplete_multiline_comment } in
    let (t, one, rest) = bind_ok (emit atof s l) (λ (u : Token). ok (u ∷ [])) ts h in
    let in_text = Reaches-size size (Reaches-trans m n) at in
    rw (← ok_injective rest)
      (InOrder-cons c.position size c t [] s e m n refl (emit_ok atof s l t one) (omega arith))
scan_after-InOrder atof size c ts next _ (a_token s l m n) at again h =
    let (t, one, rest) =
      bind_ok (emit atof s l) (λ (u : Token). next l.stop >>= λ (us : List Token). ok (u ∷ us)) ts
        h in
    let (us, more, whole) = bind_ok (next l.stop) (λ (us : List Token). ok (t ∷ us)) ts rest in
    rw (← ok_injective whole) (
      InOrder-cons c.position size c t us s l.stop m n refl (emit_ok atof s l t one)
        (again l.stop us (Reaches-size size (Reaches-trans m n) at) more))

scan_loop-InOrder :
    (atof : List ℕ → ℕ) (size fuel : ℕ) (c : Cursor) (ts : List Token)
    → c.position + length c.rest ≡ size
    → scan_loop atof fuel c ≡ ok ts
    → InOrder c.position size ts
unfolding scan_loop InOrder
scan_loop-InOrder atof size zero c ts at h = rw (← ok_injective h) (omega arith)
scan_loop-InOrder atof size (suc fuel) c ts at h =
    scan_after-InOrder atof size c ts (λ d. scan_loop atof fuel d) (find_next c) (find_next-Finds c)
      at (λ d us. scan_loop-InOrder atof size fuel d us) h

-- If scanning a text returns tokens, each has a byte or more, starts where the one before it stops
-- or behind that, and stops inside the text; for any `atof`.
pub scan-InOrder :
    (atof : List ℕ → ℕ) (text : List ℕ) (tokens : List Token)
    → scan atof text ≡ ok tokens
    → InOrder 0 (length text) tokens
unfolding scan
scan-InOrder atof text tokens h =
    scan_loop-InOrder atof (length text) (suc (length text)) (record { position = 0; rest = text })
      tokens (omega arith) h

scan_after-stable :
    (atof : List ℕ → ℕ) (c : Cursor) (f g : Cursor → Run (List Token)) (r : Scanned)
    → Finds c r
    → ((d : Cursor) → length d.rest < length c.rest → f d ≡ g d)
    → scan_after atof f r ≡ scan_after atof g r
unfolding scan_after
scan_after-stable atof c f g _ at_end same = refl
scan_after-stable atof c f g _ (a_comment s e m n) same = refl
scan_after-stable atof c f g _ (a_token s l m n) same =
    let both = Reaches-trans m n in
    let left = Reaches-length both in
    let some_bytes = both.enough in let inside = both.inside in rw (same l.stop (omega arith)) refl

-- Any two bounds on the count of tokens that are greater than the count of the bytes that are left
-- give the same run of the scanner, so the loop ends by itself before the fuel of `scan` does.
pub scan_loop-stable :
    (atof : List ℕ → ℕ) (a b : ℕ) (c : Cursor)
    → length c.rest < a
    → length c.rest < b
    → scan_loop atof a c ≡ scan_loop atof b c
unfolding scan_loop
scan_loop-stable atof zero b c ha hb = absurd (omega arith)
scan_loop-stable atof (suc a) zero c ha hb = absurd (omega arith)
scan_loop-stable atof (suc a) (suc b) c ha hb =
    scan_after-stable atof c (λ d. scan_loop atof a d) (λ d. scan_loop atof b d) (find_next c)
      (find_next-Finds c) (λ d h. scan_loop-stable atof a b d (omega arith) (omega arith))
