-- ===== src/Integer/Normalize.antt =====
-- sysbvm_integer_normalize: the words that it keeps, and those that it loses.
use sysmel.Integer.Arithmetic.{strip_count, normalize, negated}
use sysmel.Integer.Tuple.{word, large}
use sysmel.Integer.Value.{value}
use sysmel.Integer.Words.{word_at, to_nat, low-suc, low-eq-to_nat, weight, weight-pos}
use sysmel.Prelude.Int.{pos, ◌-ℤ◌}
use sysmel.Prelude.{
  ℕ, zero, suc, ◌-◌, ◌*◌, ◌≤◌, ◌<◌, ◌≡◌, ◌≢◌, refl, ap, Bool, true, false, not, arith, List, length,
}
use sysmel.Run.{ok}
use sysmel.Word.{encode_small, decode_small-encode_small}

strip_count_zero_top : (n : ℕ) (ws : List ℕ) → 0 < n → word_at ws (n - 1) ≡ 0 → strip_count n ws ≡ n
unfolding strip_count
strip_count_zero_top zero ws h e = refl
strip_count_zero_top (suc n) ws h e =
    let e' : word_at ws n ≡ 0 = rw (let k : suc n - 1 ≡ n = omega arith in k) at e in rw e'

-- Words with a zero on top are returned as they are.
pub normalize_kept :
    (s : Bool) (ws : List ℕ)
    → 0 < length ws
    → word_at ws (length ws - 1) ≡ 0
    → normalize s ws ≡ large s ws
unfolding normalize
normalize_kept s ws h e = rw (strip_count_zero_top (length ws) ws h e) (ground arith)

strip_count_nonzero :
    (n : ℕ) (ws : List ℕ) → ((i : ℕ) → i < n → word_at ws i ≢ 0) → strip_count n ws ≡ 0
unfolding strip_count
strip_count_nonzero zero ws h = refl
strip_count_nonzero (suc n) ws h =
    let top : word_at ws n ≢ 0 = h n (omega arith) in
    ground (arith, strip_count_nonzero n ws (λ i k. h i (omega arith)))

-- One word or more, of which none is zero, are normalized to the small integer zero, although they
-- stand for a positive number.
pub normalize_lost :
    (s : Bool) (ws : List ℕ)
    → 0 < length ws
    → ((i : ℕ) → i < length ws → word_at ws i ≢ 0)
    → (normalize s ws ≡ word (encode_small (pos 0)))
      × (value (normalize s ws) ≡ pos 0)
      × (0 < to_nat ws)
unfolding normalize value
normalize_lost s ws h nonzero =
    let lost : normalize s ws ≡ word (encode_small (pos 0)) =
      rw (strip_count_nonzero (length ws) ws nonzero) (ground arith) in
    let n = length ws - 1 in
    let top : word_at ws n ≢ 0 = nonzero n (omega arith) in
    let p = weight-pos n in
    let k : weight n ≤ word_at ws n * weight n = grind arith in
    (
      lost,
      rw lost (decode_small-encode_small (pos 0) (omega arith) (omega arith)),
      omega (arith, low-eq-to_nat (suc n) ws (omega arith), low-suc n ws),
    )

-- Negating a large integer of one word or more, of which none is zero, returns the small integer
-- zero.
pub negated_lost :
    (s : Bool) (ws : List ℕ)
    → 0 < length ws
    → ((i : ℕ) → i < length ws → word_at ws i ≢ 0)
    → negated (large s ws) ≡ ok (word (encode_small (pos 0)))
unfolding negated
negated_lost s ws h nonzero = ap ok ((normalize_lost (not s) ws h nonzero).0)

-- Negating a large integer whose top word is zero keeps its words, turns its sign, and negates its
-- value.
pub negated-value_large :
    (s : Bool) (ws : List ℕ)
    → 0 < length ws
    → word_at ws (length ws - 1) ≡ 0
    → (negated (large s ws) ≡ ok (large (not s) ws))
      × (value (large (not s) ws) ≡ pos 0 -ℤ value (large s ws))
unfolding negated value ◌-ℤ◌
negated-value_large true ws h e = (ap ok (normalize_kept false ws h e), ground arith)
negated-value_large false ws h e = (ap ok (normalize_kept true ws h e), ground arith)
