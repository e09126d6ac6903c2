-- ===== src/Integer/Magnitude/Compare.antt =====
-- sysbvm_integer_compareMagnitudes compares.
use sysmel.Integer.Magnitude.{compare_loop, compare_magnitudes}
use sysmel.Integer.Words.{word_at, low, to_nat, IsWords, weight, low-suc, low-lt, low-eq-to_nat}
use sysmel.Prelude.Int.{ℤ, pos, negsuc}
use sysmel.Prelude.{
  ℕ, zero, suc, ◌+◌, ◌*◌, ◌<◌, ◌≡◌, refl, arith, List, length, max, ltb, if◌then◌else◌,
}

-- -1, 0 or 1 by the order of two numbers.
abbrev pub order : ℕ → ℕ → ℤ
order a b = if ltb a b then negsuc 0 else if ltb b a then pos 1 else pos 0

-- The word on top decides.
top_word : (p x y a b : ℕ) → x < p → a < b → x + a * p < y + b * p
top_word p x y a b h lt = grind arith

pub compare_loop-order :
    (n : ℕ) (left right : List ℕ)
    → IsWords left
    → IsWords right
    → compare_loop n left right ≡ order (low n left) (low n right)
unfolding compare_loop
compare_loop-order zero left right wl wr = unfold low in refl
compare_loop-order (suc n) left right wl wr =
    rw (low-suc n left, low-suc n right)
      (ground (
        arith,
        compare_loop-order n left right wl wr,
        top_word (weight n) (low n left) (low n right) (word_at left n) (word_at right n)
            (low-lt n left wl),
        top_word (weight n) (low n right) (low n left) (word_at right n) (word_at left n)
            (low-lt n right wr),
      ))

-- Comparing two magnitudes of 32-bit words, of any counts of words, gives the order of the numbers
-- that they stand for.
pub compare_magnitudes-order :
    (left right : List ℕ)
    → IsWords left
    → IsWords right
    → compare_magnitudes left right ≡ order (to_nat left) (to_nat right)
unfolding compare_magnitudes
compare_magnitudes-order left right wl wr =
    let widest = max (length left) (length right) in
    rw (← low-eq-to_nat widest left (omega arith), ← low-eq-to_nat widest right (omega arith))
      (compare_loop-order widest left right wl wr)
