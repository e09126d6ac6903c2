-- ===== src/Tests/Conversions.antt =====
-- Runs of the conversions between C numbers and tuples, and of what loses a value.
use sysmel.Integer.Arithmetic.{normalize, negated}
use sysmel.Integer.Encode.{
  encode_int64_below, decode_int64-encode_int64, encode_uint64-value, encode_uint64_top,
}
use sysmel.Integer.Normalize.{normalize_lost, negated_lost}
use sysmel.Integer.Tuple.{word, large, encode_int64, encode_uint64, decode_int64}
use sysmel.Integer.Value.{value}
use sysmel.Integer.Words.{to_nat, word_at}
use sysmel.Prelude.Int.{pos, negsuc, ◌-ℤ◌}
use sysmel.Prelude.{ℕ, zero, suc, ◌-◌, ◌^◌, ◌<◌, ◌≡◌, ◌≢◌, refl, true, false, arith}
use sysmel.Run.{ok}
use sysmel.Tests.Samples.{full_words}
use sysmel.Word.{encode_small, decode_small, decode_small-encode_small}

decode_small-encode_small_example : decode_small (encode_small (negsuc 41)) ≡ negsuc 41
decode_small-encode_small_example =
    decode_small-encode_small (negsuc 41) (omega arith) (omega arith)

decode_int64-encode_int64_example : decode_int64 (encode_int64 (pos (2 ^ 60))) ≡ ok (pos (2 ^ 60))
decode_int64-encode_int64_example =
    decode_int64-encode_int64 (pos (2 ^ 60)) (omega arith) (omega arith)

encode_int64_below_example :
    value (encode_int64 (negsuc (2 ^ 60))) ≡ negsuc (2 ^ 64 - 1) -ℤ negsuc (2 ^ 60)
encode_int64_below_example = encode_int64_below (negsuc (2 ^ 60)) (omega arith) refl

encode_uint64-value_example : value (encode_uint64 (2 ^ 63)) ≡ pos (2 ^ 63)
encode_uint64-value_example = encode_uint64-value (2 ^ 63) (omega arith)

full_words_nonzero : (i : ℕ) → i < 3 → word_at full_words i ≢ 0
full_words_nonzero zero h = ground arith
full_words_nonzero (suc zero) h = ground arith
full_words_nonzero (suc (suc zero)) h = ground arith
full_words_nonzero (suc (suc (suc i))) h = absurd (omega arith)

normalize_lost_example :
    (normalize true full_words ≡ word (encode_small (pos 0)))
    × (value (normalize true full_words) ≡ pos 0)
    × (0 < to_nat full_words)
normalize_lost_example = normalize_lost true full_words (omega arith) full_words_nonzero

negated_lost_example : negated (large false full_words) ≡ ok (word (encode_small (pos 0)))
negated_lost_example = negated_lost false full_words (omega arith) full_words_nonzero

encode_uint64_top_example : value (encode_uint64 (2 ^ 64 - 1)) ≡ negsuc (2 ^ 64 - 1 - (2 ^ 64 - 1))
encode_uint64_top_example = encode_uint64_top (2 ^ 64 - 1) (omega arith) (omega arith)
