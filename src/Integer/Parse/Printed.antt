-- ===== src/Integer/Parse/Printed.antt =====
-- A small integer that is printed is read back.
use mathlib.Core.List.{reverse-append}
use native.Mathlib.Decide.{dec_lt}
use native.Mathlib.Nat.{pow-suc}
use sysmel.Integer.Arithmetic.{
  add, multiply, negated, both_immediate, small_value, greater_equals, fits_int64, compare_integers,
}
use sysmel.Integer.Parse.Digits.{parse_loop-append}
use sysmel.Integer.Parse.Natural.{pos-mul, pos-add}
use sysmel.Integer.Products.{multiply_small_product}
use sysmel.Integer.Text.{
  ParseState, parse_digit, parse_character, parse_loop, parse_start, parse_unsigned, parse_string,
  digits_reversed, print_small,
}
use sysmel.Integer.Tuple.{Tuple, word, encode_int64}
use sysmel.Prelude.Int.{ℤ, pos, negsuc, ◌*ℤ◌, ◌-ℤ◌, ◌≤ℤ◌, ltb_ℤ}
use sysmel.Prelude.{
  ℕ, zero, suc, ◌+◌, ◌-◌, ◌*◌, ◌/◌, ◌%◌, ◌^◌, ◌≤◌, ◌<◌, ◌≡◌, ◌≢◌, refl, ◌∙◌, ap, ap₂, true, false,
  arith, leb, List, [], ◌∷◌, ◌++◌, reverse,
}
use sysmel.Run.{ok, ◌>>=◌}
use sysmel.Word.{
  encode_small, decode_small, immediate_int_max, decode_small-encode_small,
  encode_small-is_immediate,
}

abbrev pub natural : ℕ → Tuple
natural n = word (encode_small (pos n))

pub decode_natural : (n : ℕ) → n < 2 ^ 59 → decode_small (encode_small (pos n)) ≡ pos n
decode_natural n h = decode_small-encode_small (pos n) (omega arith) (omega arith)

pub both_natural : (m n : ℕ) → both_immediate (natural m) (natural n) ≡ true
unfolding both_immediate
both_natural m n = rw (encode_small-is_immediate (pos m), encode_small-is_immediate (pos n))

pub encode_natural : (n : ℕ) → n < 2 ^ 59 → encode_int64 (pos n) ≡ natural n
unfolding encode_int64
encode_natural n h = ground arith

fits_int64_small : (n : ℕ) → n < 2 ^ 59 → fits_int64 (pos n) ≡ true
fits_int64_small n h = ground arith

-- Products and sums of small natural numbers that stay small.
multiply_small :
    (m n : ℕ)
    → m < 2 ^ 59
    → n < 2 ^ 59
    → m * n < 2 ^ 59
    → multiply (natural m) (natural n) ≡ ok (natural (m * n))
unfolding small_value
multiply_small m n hm hn h =
    let l : small_value (natural m) ≡ pos m = decode_natural m hm in
    let r : small_value (natural n) ≡ pos n = decode_natural n hn in
    let product : small_value (natural m) *ℤ small_value (natural n) ≡ pos (m * n) =
      ap₂ ◌*ℤ◌ l r ∙ pos-mul m n in
    let fits : fits_int64 (small_value (natural m) *ℤ small_value (natural n)) ≡ true =
      rw product (fits_int64_small (m * n) h) in
    multiply_small_product (natural m) (natural n) (both_natural m n) fits
    ∙ ap ok (ap encode_int64 product ∙ encode_natural (m * n) h)

add_small :
    (m n : ℕ)
    → m < 2 ^ 59
    → n < 2 ^ 59
    → m + n < 2 ^ 59
    → add (natural m) (natural n) ≡ ok (natural (m + n))
unfolding add small_value
add_small m n hm hn h =
    rw (both_natural m n, decode_natural m hm, decode_natural n hn)
      (rw (pos-add m n) (ap ok (encode_natural (m + n) h)))

compare_small : (d : ℕ) → d < 10 → compare_integers (natural d) (natural 10) ≡ ok (negsuc 0)
unfolding compare_integers small_value
compare_small d lt =
    rw (both_natural d 10, decode_natural d (omega arith), decode_natural 10 (omega arith))
      (ground arith)

read_digit :
    (n d : ℕ) (s : ParseState)
    → s.result ≡ natural n
    → s.radix ≡ natural 10
    → d < 10
    → n * 10 + d < 2 ^ 59
    → parse_digit s d ≡ ok (record s { result = natural (n * 10 + d) })
unfolding parse_digit greater_equals
read_digit n d s r b lt h = rw (
  r,
  b,
  compare_small d lt,
  multiply_small n 10 (omega arith) (omega arith) (omega arith),
  add_small (n * 10) d (omega arith) (omega arith) h,
)

read_character :
    (n d : ℕ) (s : ParseState)
    → s.result ≡ natural n
    → s.radix ≡ natural 10
    → d < 10
    → n * 10 + d < 2 ^ 59
    → parse_character s (b'0' + d) ≡ ok (record s { result = natural (n * 10 + d) })
read_character n d s r b lt h =
    let e : (b'0' + d) - b'0' ≡ d = omega arith in digit_branch d s lt ∙ read_digit n d s r b lt h
  where
    digit_branch :
        (d : ℕ) (s : ParseState) → d < 10 → parse_character s (b'0' + d) ≡ parse_digit s d
    digit_branch d s lt =
        let e : (b'0' + d) - b'0' ≡ d = omega arith in
        let a : leb b'0' (b'0' + d) ≡ true = ground arith in
        let b : leb (b'0' + d) b'9' ≡ true = ground arith in unfold parse_character in rw (a, b, e)

-- One more digit behind a text that was read.
read_snoc :
    (ds : List ℕ) (n d : ℕ) (s t : ParseState)
    → parse_loop s ds ≡ ok t
    → t.result ≡ natural n
    → t.radix ≡ natural 10
    → d < 10
    → n * 10 + d < 2 ^ 59
    → parse_loop s (ds ++ (b'0' + d) ∷ []) ≡ ok (record t { result = natural (n * 10 + d) })
unfolding parse_loop
read_snoc ds n d s t run r b lt h =
    rw (parse_loop-append s ds ((b'0' + d) ∷ []), run, read_character n d t r b lt h)

digits_reversed_last : (fuel n : ℕ) → n < 10 → digits_reversed (suc fuel) n ≡ (b'0' + n) ∷ []
unfolding digits_reversed
digits_reversed_last fuel n h = ground arith

digits_reversed_more :
    (fuel n : ℕ)
    → 10 ≤ n
    → digits_reversed (suc fuel) n ≡ (b'0' + n % 10) ∷ digits_reversed fuel (n / 10)
unfolding digits_reversed
digits_reversed_more fuel n h = ground arith

-- The digits that are printed are read to the number, if the fuel covers them.
read_digits :
    (fuel n : ℕ) (s : ParseState)
    → s.result ≡ natural 0
    → s.radix ≡ natural 10
    → n < 10 ^ fuel
    → n < 2 ^ 59
    → (t : ParseState) × (parse_loop s (reverse (digits_reversed fuel n)) ≡ ok t)
      × (t.result ≡ natural n)
      × (t.radix ≡ natural 10)
read_digits zero n s r b lt h =
    let e : n ≡ 0 = omega arith in rw e (s, unfold digits_reversed parse_loop in refl, r, b)
read_digits (suc fuel) n s r b lt h = elim (dec_lt n 10) [
  | yes small ↦ (
    record s { result = natural (0 * 10 + n) },
    rw (digits_reversed_last fuel n small)
        (read_snoc [] 0 n s s (unfold parse_loop in refl) r b small (omega arith)),
    ap natural (omega arith),
    b,
  )
  | no more ↦
      let bound : n < 10 ^ fuel * 10 = rw pow-suc at lt in
      let (t, run, r', b') = read_digits fuel (n / 10) s r b (omega arith) (omega arith) in
      (
        record t { result = natural (n / 10 * 10 + n % 10) },
        rw (digits_reversed_more fuel n (omega arith), reverse-append ((b'0' + n % 10) ∷ []))
            (read_snoc (reverse (digits_reversed fuel (n / 10))) (n / 10) (n % 10) s t run r' b'
              (omega arith) (omega arith)),
        ap natural (omega arith),
        b',
      )
]

-- The text does not start with a sign.
abbrev Unsigned : List ℕ → Type 0
Unsigned [] = Unit {0}
Unsigned (c ∷ cs) = (c ≢ b'-') × (c ≢ b'+')

Unsigned-snoc : (ds : List ℕ) (d : ℕ) → Unsigned ds → d < 10 → Unsigned (ds ++ (b'0' + d) ∷ [])
Unsigned-snoc [] d h lt = omega arith
Unsigned-snoc (c ∷ cs) d h lt = h

digits_reversed-Unsigned : (fuel n : ℕ) → Unsigned (reverse (digits_reversed fuel n))
digits_reversed-Unsigned zero n = unfold digits_reversed in tt
digits_reversed-Unsigned (suc fuel) n = elim (dec_lt n 10) [
  | yes small ↦ rw (digits_reversed_last fuel n small) (Unsigned-snoc [] n tt small)
  | no more ↦
      rw (digits_reversed_more fuel n (omega arith), reverse-append ((b'0' + n % 10) ∷ []))
        (Unsigned-snoc (reverse (digits_reversed fuel (n / 10))) (n % 10)
          (digits_reversed-Unsigned fuel (n / 10)) (omega arith))
]

parse_string-Unsigned : (text : List ℕ) → Unsigned text → parse_string text ≡ parse_unsigned text
unfolding parse_string
parse_string-Unsigned [] h = refl
parse_string-Unsigned (c ∷ cs) h = ground arith

parse_string_minus : (text : List ℕ) → parse_string (b'-' ∷ text) ≡ parse_unsigned text >>= negated
unfolding parse_string
parse_string_minus text = refl

-- 64 digits are enough for any small integer.
read_printed :
    (n : ℕ) → n < 2 ^ 59 → parse_unsigned (reverse (digits_reversed 64 n)) ≡ ok (natural n)
unfolding parse_unsigned
read_printed n h =
    let (t, run, r, b) = read_digits 64 n parse_start refl refl (omega arith) h in rw (run, r)

negated_small :
    (n : ℕ) → suc n < 2 ^ 59 → negated (natural (suc n)) ≡ ok (word (encode_small (negsuc n)))
unfolding negated
negated_small n h =
    rw (encode_small-is_immediate (pos (suc n)), decode_natural (suc n) h) (ap ok (negative n h))
  where
    negative :
        (n : ℕ)
        → suc n < 2 ^ 59
        → encode_int64 (pos 0 -ℤ pos (suc n)) ≡ word (encode_small (negsuc n))
    negative n h =
        let e : pos 0 -ℤ pos (suc n) ≡ negsuc n = unfold ◌-ℤ◌ in ground arith in
        rw e (unfold encode_int64 in ground arith)

-- Reading the text that is printed for a small integer gives that small integer, for each one
-- above the least.
pub parse_string-print_small :
    (v : ℤ)
    → negsuc (2 ^ 59 - 2) ≤ℤ v
    → v ≤ℤ immediate_int_max
    → parse_string (print_small v) ≡ ok (word (encode_small v))
unfolding print_small
parse_string-print_small (pos n) lo hi =
    let sign : ltb_ℤ (pos n) (pos 0) ≡ false = ground arith in
    let size : n + 0 ≡ n = omega arith in
    rw (sign, size, parse_string-Unsigned _ (digits_reversed-Unsigned 64 n))
      (read_printed n (omega arith))
parse_string-print_small (negsuc n) lo hi =
    let sign : ltb_ℤ (negsuc n) (pos 0) ≡ true = ground arith in
    let size : 0 + suc n ≡ suc n = omega arith in
    rw
      (
        sign,
        size,
        reverse-append (digits_reversed 64 (suc n)) (b'-' ∷ []),
        parse_string_minus,
        read_printed (suc n) (omega arith),
      )
      (negated_small n (omega arith))
