-- ===== src/Integer/Parse/Digits.antt =====
-- sysbvm_integer_parseString reads a numeral in its radix.
use sysmel.Integer.Parse.Natural.{
  IsNatural, small-IsNatural, multiply-IsNatural, add-IsNatural, immediate_bound,
}
use sysmel.Integer.Arithmetic.{greater_equals}
use sysmel.Integer.Order.{compare_integers-Tests}
use sysmel.Integer.Text.{
  ParseState, parse_digit, parse_character, parse_loop, parse_start, parse_unsigned,
}
use sysmel.Integer.Tuple.{Tuple, word}
use sysmel.Prelude.Int.{pos}
use sysmel.Prelude.{
  ℕ, zero, suc, ◌+◌, ◌-◌, ◌*◌, ◌^◌, ◌≤◌, ◌<◌, ◌≡◌, refl, ◌∙◌, ap, Bool, true, false, ◌&&◌, arith,
  leb, if◌then◌else◌, inl, inr, ◌⊎◌, List, [], ◌∷◌, ◌++◌, Option, none, some, Option-cases,
}
use sysmel.Run.{ok, err, fault, ◌>>=◌}
use sysmel.Word.{encode_small}

-- The loop has read `n` in radix `base`.
pub record HasRead (base n : ℕ) (can : Bool) (s : ParseState) : Type 0 where
  pub result : IsNatural s.result n
  pub radix : IsNatural s.radix base
  pub flag : s.can_parse_radix ≡ can

parse_digit-HasRead :
    (base n d : ℕ) (can : Bool) (s : ParseState)
    → HasRead base n can s
    → d < base
    → d < 36
    → (n < 2 ^ 59 → n * base < 2 ^ 63)
    → (t : ParseState) × (parse_digit s d ≡ ok t) × HasRead base (n * base + d) can t
unfolding parse_digit
parse_digit-HasRead base n d can s h lt small bound =
    let digit = small-IsNatural d (omega arith) in
    let tests =
      compare_integers-Tests (word (encode_small (pos d))) s.radix digit.integer h.radix.integer
        (λ e. absurd (no_sign _ digit.sign e)) (λ e. absurd (no_sign _ h.radix.sign e)) in
    let below : greater_equals (word (encode_small (pos d))) s.radix ≡ ok false =
      tests.greater_or_equal ∙ ap ok (rw (digit.same, h.radix.same) (ground arith)) in
    let (p, p_run, p_nat) =
      multiply-IsNatural s.result s.radix n base h.result h.radix
        (λ e. bound (immediate_bound s.result s.radix n h.result e)) in
    let (q, q_run, q_nat) =
      add-IsNatural p (word (encode_small (pos d))) (n * base) d p_nat digit in
    (
      record s { result = q },
      rw (below, p_run, q_run),
      record { result = q_nat; radix = h.radix; flag = h.flag },
    )
  where
    no_sign : (b : Bool) → b ≡ false → b ≡ true → ⊥
    no_sign b h k = cc

-- The digit that a character stands for: letters only behind a radix.
unfoldable pub digit_value : Bool → ℕ → Option ℕ
digit_value can c =
    if leb b'0' c && leb c b'9'
    then some (c - b'0')
    else if can
    then none
    else if leb b'a' c && leb c b'z'
    then some (c - b'a' + 10)
    else if leb b'A' c && leb c b'Z'
    then some (c - b'A' + 10)
    else none

-- Every character is an underscore or a digit of the radix.
abbrev pub IsNumeral : ℕ → Bool → List ℕ → Type 0
IsNumeral base can [] = Unit {0}
IsNumeral base can (c ∷ cs) =
    ((c ≡ b'_') ⊎ ((d : ℕ) × (digit_value can c ≡ some d) × (d < base))) × IsNumeral base can cs

abbrev accumulate : ℕ → ℕ → Option ℕ → ℕ
accumulate base n none = n
accumulate base n (some d) = n * base + d

-- The number that the characters stand for, after `n`.
unfoldable pub numeral : ℕ → Bool → ℕ → List ℕ → ℕ
numeral base can n [] = n
numeral base can n (c ∷ cs) = numeral base can (accumulate base n (digit_value can c)) cs

parse_character_digit :
    (can : Bool) (c d : ℕ) (s : ParseState)
    → s.can_parse_radix ≡ can
    → digit_value can c ≡ some d
    → (parse_character s c ≡ parse_digit s d) × (d < 36)
unfolding parse_character digit_value
parse_character_digit can c d s flag e = (ground arith, ground arith)

parse_character_underscore :
    (can : Bool) (s : ParseState)
    → s.can_parse_radix ≡ can
    → (parse_character s b'_' ≡ ok s) × (digit_value can b'_' ≡ none)
unfolding parse_character digit_value
parse_character_underscore can s flag = (ground arith, ground arith)

-- A radix up to 16, with which no product overflows that has an immediate factor; or a number that
-- an int64_t holds.
abbrev pub Fits : ℕ → ℕ → Type 0
Fits base number = (base ≤ 16) ⊎ (number < 2 ^ 63)

grows : (n base d : ℕ) → d < base → n ≤ n * base + d
grows n zero d h = absurd (omega arith)
grows n (suc base) d h = let k : n ≤ n * suc base = grind arith in omega arith

underscore_lem : (can : Bool) (d : ℕ) → digit_value can b'_' ≡ some d → ⊥
unfolding digit_value
underscore_lem true d h = grind arith
underscore_lem false d h = grind arith

numeral-le :
    (base n : ℕ) (can : Bool) (cs : List ℕ) → IsNumeral base can cs → n ≤ numeral base can n cs
unfolding numeral
numeral-le base n can [] h = omega arith
numeral-le base n can (c ∷ cs) (inr (d, e, lt), rest) =
    let more : n ≤ n * base + d = grows n base d lt in
    let next = numeral-le base (n * base + d) can cs rest in rw e (omega arith)
numeral-le base n can (c ∷ cs) (inl e, rest) = elim (Option-cases (digit_value can c)) [
  | inl skip ↦ rw skip (numeral-le base n can cs rest)
  | inr (d, found) ↦ absurd (underscore_lem can d (rw e at found))
]

step-Fits :
    (base n d number : ℕ)
    → d < base
    → Fits base number
    → n * base + d ≤ number
    → n < 2 ^ 59
    → n * base < 2 ^ 63
step-Fits base n d number lt (inl small) le bound =
    let k : n * base ≤ n * 16 = grind arith in omega arith
step-Fits base n d number lt (inr small) le bound = omega arith

-- The loop reads a numeral of any length to its number.
pub parse_loop-HasRead :
    (base n : ℕ) (can : Bool) (s : ParseState) (cs : List ℕ)
    → HasRead base n can s
    → IsNumeral base can cs
    → Fits base (numeral base can n cs)
    → (t : ParseState) × (parse_loop s cs ≡ ok t) × HasRead base (numeral base can n cs) can t
unfolding parse_loop numeral
parse_loop-HasRead base n can s [] h _ _ = (s, refl, h)
parse_loop-HasRead base n can s (c ∷ cs) h (inl e, rest) fits =
    let (run, skip) = parse_character_underscore can s h.flag in
    let fits' : Fits base (numeral base can n cs) = rw (e, skip) at fits in
    let (t, more, read) = parse_loop-HasRead base n can s cs h rest fits' in
    (t, rw (e, run) more, rw (e, skip) read)
parse_loop-HasRead base n can s (c ∷ cs) h (inr (d, e, lt), rest) fits =
    let (same, small) = parse_character_digit can c d s h.flag e in
    let fits' : Fits base (numeral base can (n * base + d) cs) = rw e at fits in
    let le = numeral-le base (n * base + d) can cs rest in
    let (s', run, read) =
      parse_digit-HasRead base n d can s h lt small (step-Fits base n d _ lt fits' le) in
    let (t, more, read') = parse_loop-HasRead base (n * base + d) can s' cs read rest fits' in
    (t, rw (same, run) more, rw e read')

pub parse_loop-append :
    (s : ParseState) (a b : List ℕ) → parse_loop s (a ++ b) ≡ parse_loop s a >>= λ t. parse_loop t b
unfolding parse_loop
parse_loop-append s [] b = refl
parse_loop-append s (c ∷ a) b =
    elim (parse_character s c)
      as (λ r.
        (r >>= λ t. parse_loop t (a ++ b))
        ≡ ((r >>= λ t. parse_loop t a) >>= λ t. parse_loop t b)) [
          | ok t ↦ parse_loop-append t a b
          | err e ↦ refl
          | fault ↦ refl
        ]

start-HasRead : HasRead 10 0 true parse_start
start-HasRead = record {
  result = small-IsNatural 0 (omega arith);
  radix = small-IsNatural 10 (omega arith);
  flag = refl;
}

-- A decimal literal of digits and underscores is read to the natural number that it denotes, of
-- any size.
pub parse_unsigned-decimal :
    (ds : List ℕ)
    → IsNumeral 10 true ds
    → (t : Tuple) × (parse_unsigned ds ≡ ok t) × IsNatural t (numeral 10 true 0 ds)
unfolding parse_unsigned
parse_unsigned-decimal ds h =
    let (s, run, read) =
      parse_loop-HasRead 10 0 true parse_start ds start-HasRead h (inl (omega arith)) in
    (s.result, rw run, read.result)

-- A literal of a decimal radix, an `r` and digits below that radix, underscores included, is read
-- to the natural number that it denotes in that radix: one of any size if the radix is at most 16,
-- and one below 2^63 in any other radix.
pub parse_unsigned-radix :
    (bs ds : List ℕ)
    → IsNumeral 10 true bs
    → IsNumeral (numeral 10 true 0 bs) false ds
    → (numeral 10 true 0 bs ≤ 16) ⊎ (numeral (numeral 10 true 0 bs) false 0 ds < 2 ^ 63)
    → (t : Tuple) × (parse_unsigned (bs ++ b'r' ∷ ds) ≡ ok t)
      × IsNatural t (numeral (numeral 10 true 0 bs) false 0 ds)
unfolding parse_unsigned parse_loop
parse_unsigned-radix bs ds hb hd fits =
    let (s, run, read) =
      parse_loop-HasRead 10 0 true parse_start bs start-HasRead hb (inl (omega arith)) in
    let base = numeral 10 true 0 bs in
    let s' : ParseState = record {
      result = word (encode_small (pos 0));
      radix = s.result;
      can_parse_radix = false;
    } in
    let turn : parse_character s b'r' ≡ ok s' = radix_step s read.flag in
    let h : HasRead base 0 false s' = record {
      result = small-IsNatural 0 (omega arith);
      radix = read.result;
      flag = refl;
    } in
    let (t, more, read') = parse_loop-HasRead base 0 false s' ds h hd fits in
    (t.result, rw (parse_loop-append, run, turn, more), read'.result)
  where
    radix_step :
        (s : ParseState)
        → s.can_parse_radix ≡ true
        → parse_character s b'r'
          ≡ ok (record {
            result = word (encode_small (pos 0));
            radix = s.result;
            can_parse_radix = false;
          })
    radix_step s e = unfold parse_character in ground arith
