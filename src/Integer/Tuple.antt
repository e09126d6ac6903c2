-- ===== src/Integer/Tuple.antt =====
-- lib/sysbvm/integer.c and the inline encoders of include/sysbvm/tuple.h: the integers that a tuple
-- can hold, and the conversions from and to machine integers.
use sysmel.Integer.Words.{word_at}
use sysmel.Prelude.Int.{ℤ, pos, ◌-ℤ◌, leb_ℤ, ltb_ℤ}
use sysmel.Prelude.{
  ℕ, zero, suc, ◌+◌, ◌-◌, ◌*◌, ◌/◌, ◌%◌, ◌^◌, Bool, false, ◌&&◌, leb, ◌==◌, if◌then◌else◌, List, [],
  ◌∷◌, length, take,
}
use sysmel.Run.{Run, ok, fault, ◌>>=◌}
use sysmel.Word.{
  to_bits, of_bits, shift_right, encode_small, decode_small, is_immediate, immediate_int_min,
  immediate_int_max,
}

-- `word` is a tuple by its bits: an immediate, the null pointer, or a pointer to no integer object.
-- `large` is a pointer to an object of LargeNegativeInteger (`true`) or LargePositiveInteger
-- (`false`) with its words.
pub data Tuple : Type 0 where
  word : ℕ → Tuple
  large : Bool → List ℕ → Tuple

-- The size in words is that of the list.
pub record DecodedInteger : Type 0 where
  pub is_negative : Bool
  pub words : List ℕ

-- `while(wordCount > 1 && words[wordCount - 1] == 0) --wordCount;`
unfoldable pub normalized_count : ℕ → List ℕ → ℕ
normalized_count zero words = 0
normalized_count (suc zero) words = 1
normalized_count (suc (suc n)) words =
    if word_at words (suc n) == 0 then normalized_count (suc n) words else suc (suc n)

-- The magnitude of a small integer, as one word or two.
unfoldable pub decode_magnitude : ℕ → List ℕ
decode_magnitude magnitude =
    let low_word = magnitude % 2 ^ 32 in
    let high_word = magnitude / 2 ^ 32 % 2 ^ 32 in
    if high_word == 0 then low_word ∷ [] else low_word ∷ high_word ∷ []

unfoldable pub decode_large_or_immediate : Tuple → Run DecodedInteger
unfolding normalized_count decode_magnitude
decode_large_or_immediate (word bits) =
    let small = decode_small bits in
    let magnitude = if ltb_ℤ small (pos 0) then to_bits 64 (pos 0 -ℤ small) else to_bits 64 small in
    if is_immediate bits
    then ok (record { is_negative = ltb_ℤ small (pos 0); words = decode_magnitude magnitude })
    else fault
decode_large_or_immediate (large negative words) =
    ok (record {
      is_negative = negative;
      words = take (normalized_count (length words) words) words;
    })

-- The branch that needs a large integer writes the bits of the value, not of its magnitude.
unfoldable pub encode_big_int64 : ℤ → Tuple
encode_big_int64 value =
    let negative = ltb_ℤ value (pos 0) in
    let positive_value = if negative then to_bits 64 (pos 0 -ℤ value) else to_bits 64 value in
    if leb_ℤ immediate_int_min value && leb_ℤ value immediate_int_max
    then word (encode_small value)
    else if leb positive_value (2 ^ 32 - 1)
    then large negative (to_bits 32 value ∷ [])
    else large negative (to_bits 32 value ∷ to_bits 32 (shift_right value 32) ∷ [])

unfoldable pub encode_big_uint64 : ℕ → Tuple
encode_big_uint64 value =
    if leb value (2 ^ 59 - 1)
    then word (encode_small (pos value))
    else if leb value (2 ^ 32 - 1)
    then large false (value % 2 ^ 32 ∷ [])
    else large false (value % 2 ^ 32 ∷ (value / 2 ^ 32 % 2 ^ 32) ∷ [])

unfoldable pub encode_int64 : ℤ → Tuple
unfolding encode_big_int64
encode_int64 value =
    if leb_ℤ immediate_int_min value && leb_ℤ value immediate_int_max
    then word (encode_small value)
    else encode_big_int64 value

-- The range is tested on the value cast to a signed type.
unfoldable pub encode_uint64 : ℕ → Tuple
unfolding encode_big_uint64
encode_uint64 value =
    let svalue = of_bits 64 value in
    if leb_ℤ immediate_int_min svalue && leb_ℤ svalue immediate_int_max
    then word (encode_small (of_bits 64 value))
    else encode_big_uint64 value

unfoldable pub decode_int64 : Tuple → Run ℤ
decode_int64 (word bits) = if is_immediate bits then ok (decode_small bits) else fault
decode_int64 (large negative words) =
    let decoded_value = of_bits 64 (
      if leb 2 (length words)
      then word_at words 0 + word_at words 1 * 2 ^ 32
      else word_at words 0) in
    if length words == 0
    then ok (pos 0)
    else if negative
    then ok (of_bits 64 (to_bits 64 (pos 0 -ℤ decoded_value)))
    else ok decoded_value

unfoldable pub decode_uint64 : Tuple → Run ℕ
unfolding decode_int64
decode_uint64 tuple = do value ← decode_int64 tuple; ok (to_bits 64 value)
