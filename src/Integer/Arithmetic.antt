-- ===== src/Integer/Arithmetic.antt =====
-- lib/sysbvm/integer.c: sysbvm_integer_normalize and the arithmetic on integer tuples. An object
-- that the code allocates starts with zero words.
use sysmel.Integer.Magnitude.{compare_magnitudes, sum_into, subtract_from_into, multiply_into}
use sysmel.Integer.Tuple.{
  Tuple, word, large, DecodedInteger, decode_large_or_immediate, encode_int64,
}
use sysmel.Integer.Words.{word_at}
use sysmel.Prelude.Int.{ℤ, pos, negsuc, ◌+ℤ◌, ◌-ℤ◌, ◌*ℤ◌, leb_ℤ, ltb_ℤ, signed, abs_ℕ, eq_ℤ}
use sysmel.Prelude.{
  ℕ, zero, suc, ◌+◌, ◌-◌, ◌*◌, ◌/◌, ◌%◌, ◌^◌, Bool, true, false, ◌&&◌, ◌||◌, not, leb, ◌==◌,
  if◌then◌else◌, List, [], length, max, replicate,
}
use sysmel.Run.{Run, ok, fault, ◌>>=◌}
use sysmel.Word.{encode_small, decode_small, is_immediate}

-- `while(normalizedWordCount > 0 && integer->words[normalizedWordCount - 1])`
unfoldable pub strip_count : ℕ → List ℕ → ℕ
strip_count zero words = 0
strip_count (suc n) words = if word_at words n == 0 then suc n else strip_count n words

-- The cases of one and two words, with the copy of the last branch where the value does not fit.
unfoldable pub fit_immediate : Bool → ℕ → ℕ → Tuple
fit_immediate negative count value =
    if negative
    then if leb value (2 ^ 59) then word (encode_small (signed true value)) else word count
    else if leb value (2 ^ 59 - 1)
    then word (encode_small (pos value))
    else word count

-- The last branch makes a copy and returns the count of its words as a tuple.
unfoldable pub normalize : Bool → List ℕ → Tuple
unfolding strip_count fit_immediate
normalize negative words =
    let count = strip_count (length words) words in
    if count == length words
    then large negative words
    else if count == 0
    then word (encode_small (pos 0))
    else if leb count 2
    then fit_immediate negative count (word_at words 0 + word_at words 1 * 2 ^ 32)
    else word count

-- The sum of two magnitudes: a dry run for the carry, and a run into the new object.
unfoldable pub sum_magnitudes : Bool → List ℕ → List ℕ → Tuple
sum_magnitudes negative left right =
    let carry = (sum_into left right []).0 in
    let words = max (length left) (length right) in
    let count = if carry == 0 then words else words + 1 in
    large negative (sum_into left right (replicate count 0)).1

-- The difference of two magnitudes: zero, or the larger minus the smaller, with its sign.
unfoldable pub subtract_magnitudes : DecodedInteger → DecodedInteger → Tuple
unfolding normalize
subtract_magnitudes left right =
    let comparison = compare_magnitudes left.words right.words in
    if eq_ℤ comparison (pos 0)
    then word (encode_small (pos 0))
    else if ltb_ℤ (pos 0) comparison
    then normalize left.is_negative
        (subtract_from_into left.words right.words (replicate (length left.words) 0)).1
    else normalize right.is_negative
        (subtract_from_into right.words left.words (replicate (length right.words) 0)).1

abbrev pub eq_Bool : Bool → Bool → Bool
eq_Bool true b = b
eq_Bool false b = not b

unfoldable pub both_immediate : Tuple → Tuple → Bool
both_immediate (word a) (word b) = is_immediate a && is_immediate b
both_immediate a b = false

-- `sysbvm_tuple_integer_decodeSmall` of a tuple that is an immediate.
unfoldable pub small_value : Tuple → ℤ
small_value (word a) = decode_small a
small_value (large negative words) = pos 0

unfoldable pub add_large : Tuple → Tuple → Run Tuple
unfolding sum_magnitudes subtract_magnitudes decode_large_or_immediate
add_large left right = do
  l ← decode_large_or_immediate left
  r ← decode_large_or_immediate right
  ok (
      if eq_Bool l.is_negative r.is_negative
      then sum_magnitudes l.is_negative l.words r.words
      else subtract_magnitudes l r)

unfoldable pub add : Tuple → Tuple → Run Tuple
unfolding add_large both_immediate small_value encode_int64
add left right =
    if both_immediate left right
    then ok (encode_int64 (small_value left +ℤ small_value right))
    else add_large left right

unfoldable pub subtract_large : Tuple → Tuple → Run Tuple
unfolding sum_magnitudes subtract_magnitudes decode_large_or_immediate
subtract_large left right = do
  l ← decode_large_or_immediate left
  r ← decode_large_or_immediate right
  ok (
      if eq_Bool l.is_negative r.is_negative
      then subtract_magnitudes l r
      else sum_magnitudes l.is_negative l.words r.words)

unfoldable pub subtract : Tuple → Tuple → Run Tuple
unfolding subtract_large both_immediate small_value encode_int64
subtract left right =
    if both_immediate left right
    then ok (encode_int64 (small_value left -ℤ small_value right))
    else subtract_large left right

unfoldable pub negated : Tuple → Run Tuple
unfolding normalize encode_int64
negated (word bits) =
    if is_immediate bits then ok (encode_int64 (pos 0 -ℤ decode_small bits)) else fault
negated (large negative words) = ok (normalize (not negative) words)

unfoldable pub multiply_large : Tuple → Tuple → Run Tuple
unfolding normalize decode_large_or_immediate
multiply_large left right = do
  l ← decode_large_or_immediate left
  r ← decode_large_or_immediate right
  let count = length l.words + length r.words + 1
  product ← multiply_into l.words r.words (replicate count 0)
  ok (normalize (not (eq_Bool l.is_negative r.is_negative)) product)

-- C division on signed integers: towards zero.
unfoldable pub quotient : ℤ → ℤ → ℤ
quotient a b = signed (not (eq_Bool (ltb_ℤ a (pos 0)) (ltb_ℤ b (pos 0)))) (abs_ℕ a / abs_ℕ b)

-- The remainder has the sign of the dividend.
unfoldable pub remainder_of : ℤ → ℤ → ℤ
remainder_of a b = signed (ltb_ℤ a (pos 0)) (abs_ℕ a % abs_ℕ b)

abbrev pub fits_int64 : ℤ → Bool
fits_int64 v = leb_ℤ (negsuc (2 ^ 63 - 1)) v && leb_ℤ v (pos (2 ^ 63 - 1))

-- `leftValue * rightValue` on int64_t, whose overflow is not defined.
unfoldable pub small_product : ℤ → ℤ → Run ℤ
small_product l r = if fits_int64 (l *ℤ r) then ok (l *ℤ r) else fault

-- The test of the result, which stands behind the multiplication.
unfoldable pub product_is_exact : ℤ → ℤ → ℤ → Bool
unfolding quotient
product_is_exact l r result = eq_ℤ l (pos 0) || eq_ℤ r (pos 0) || eq_ℤ l (quotient result r)

unfoldable pub multiply : Tuple → Tuple → Run Tuple
unfolding multiply_large both_immediate small_value small_product product_is_exact encode_int64
multiply left right =
    if both_immediate left right
    then (small_product (small_value left) (small_value right) >>= λ result.
        if product_is_exact (small_value left) (small_value right) result
        then ok (encode_int64 result)
        else multiply_large left right)
    else multiply_large left right

-- Only small integers are divided; division by zero is not defined.
unfoldable pub divide : Tuple → Tuple → Run Tuple
unfolding both_immediate small_value quotient
divide left right =
    if both_immediate left right
    then if eq_ℤ (small_value right) (pos 0)
      then fault
      else ok (word (encode_small (quotient (small_value left) (small_value right))))
    else ok (word 0)

unfoldable pub remainder : Tuple → Tuple → Run Tuple
unfolding both_immediate small_value remainder_of
remainder left right =
    if both_immediate left right
    then if eq_ℤ (small_value right) (pos 0)
      then fault
      else ok (word (encode_small (remainder_of (small_value left) (small_value right))))
    else ok (word 0)

unfoldable pub compare_large : DecodedInteger → DecodedInteger → ℤ
compare_large left right =
    if eq_Bool left.is_negative right.is_negative
    then (if left.is_negative
        then pos 0 -ℤ compare_magnitudes left.words right.words
        else compare_magnitudes left.words right.words)
    else if left.is_negative
    then negsuc 0
    else pos 1

unfoldable pub compare_integers : Tuple → Tuple → Run ℤ
unfolding compare_large both_immediate small_value decode_large_or_immediate
compare_integers left right =
    if both_immediate left right
    then ok (
        if ltb_ℤ (small_value left) (small_value right)
        then negsuc 0
        else if ltb_ℤ (small_value right) (small_value left)
        then pos 1
        else pos 0)
    else do
      l ← decode_large_or_immediate left
      r ← decode_large_or_immediate right
      ok (compare_large l r)

-- equals, notEquals, lessThan, lessEquals, greaterThan, greaterEquals
unfoldable pub equals : Tuple → Tuple → Run Bool
equals left right = do c ← compare_integers left right; ok (eq_ℤ c (pos 0))

unfoldable pub not_equals : Tuple → Tuple → Run Bool
not_equals left right = do c ← compare_integers left right; ok (not (eq_ℤ c (pos 0)))

unfoldable pub less_than : Tuple → Tuple → Run Bool
less_than left right = do c ← compare_integers left right; ok (ltb_ℤ c (pos 0))

unfoldable pub less_equals : Tuple → Tuple → Run Bool
less_equals left right = do c ← compare_integers left right; ok (leb_ℤ c (pos 0))

unfoldable pub greater_than : Tuple → Tuple → Run Bool
greater_than left right = do c ← compare_integers left right; ok (ltb_ℤ (pos 0) c)

unfoldable pub greater_equals : Tuple → Tuple → Run Bool
greater_equals left right = do c ← compare_integers left right; ok (leb_ℤ (pos 0) c)
