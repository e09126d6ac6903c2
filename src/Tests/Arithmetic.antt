-- ===== src/Tests/Arithmetic.antt =====
-- Runs of the arithmetic on large integers.
use sysmel.Integer.Arithmetic.{add, subtract, multiply, both_immediate}
use sysmel.Integer.Differences.{Reduces, add-Reduces, subtract_wrong_sign}
use sysmel.Integer.Magnitude.Compare.{order, compare_magnitudes-order}
use sysmel.Integer.Magnitude.Multiply.{multiply_into-value}
use sysmel.Integer.Magnitude.Subtract.{subtract_from_into-value}
use sysmel.Integer.Magnitude.{compare_magnitudes, multiply_into, subtract_from_into}
use sysmel.Integer.Order.{Tests, compare_integers-Tests}
use sysmel.Integer.Products.{multiply-value}
use sysmel.Integer.Sums.{Computes, add-value, subtract-value}
use sysmel.Integer.Value.{value}
use sysmel.Integer.Words.{IsWords, to_nat, low}
use sysmel.Prelude.Int.{pos, ◌+ℤ◌, ◌-ℤ◌, ◌*ℤ◌}
use sysmel.Prelude.{ℕ, ◌+◌, ◌*◌, ◌≡◌, refl, arith, List, [], ◌∷◌, length}
use sysmel.Run.{ok}
use sysmel.Tests.Samples.{
  left_words, right_words, left_words-IsWords, right_words-IsWords, left_large, right_large,
  minus_left, five, five-IsInteger, five_nonzero,
}

add-value_example : Computes (add left_large right_large) (value left_large +ℤ value right_large)
unfolding both_immediate
add-value_example =
    add-value left_large right_large left_words-IsWords right_words-IsWords
      (λ e. absurd (ground arith)) (λ e. refl)

subtract-value_example :
    Computes (subtract right_large minus_left) (value right_large -ℤ value minus_left)
unfolding both_immediate
subtract-value_example =
    subtract-value right_large minus_left right_words-IsWords left_words-IsWords
      (λ e. absurd (ground arith)) (λ e. refl)

multiply-value_example :
    Computes (multiply left_large minus_left) (value left_large *ℤ value minus_left)
unfolding both_immediate
multiply-value_example =
    multiply-value left_large minus_left left_words-IsWords left_words-IsWords
      (λ e. absurd (ground arith))

compare_integers-Tests_example : Tests left_large five
compare_integers-Tests_example =
    compare_integers-Tests left_large five left_words-IsWords five-IsInteger
      (λ e. absurd (ground arith)) (λ e. five_nonzero)

compare_magnitudes-order_example :
    compare_magnitudes left_words right_words ≡ order (to_nat left_words) (to_nat right_words)
compare_magnitudes-order_example =
    compare_magnitudes-order left_words right_words left_words-IsWords right_words-IsWords

subtract_from_into-value_example :
    let run = subtract_from_into right_words left_words left_words in
    (to_nat run.1 + to_nat left_words ≡ to_nat right_words)
    × (run.0 ≡ pos 0)
    × (length run.1 ≡ length left_words)
    × IsWords run.1
unfolding to_nat low
subtract_from_into-value_example =
    subtract_from_into-value right_words left_words left_words right_words-IsWords
      left_words-IsWords left_words-IsWords (omega arith) (omega arith)

multiply_into-value_example :
    (out : List ℕ) × (multiply_into left_words right_words (9 ∷ 9 ∷ 9 ∷ 9 ∷ 9 ∷ 9 ∷ []) ≡ ok out)
    × (to_nat out ≡ to_nat left_words * to_nat right_words)
    × (length out ≡ 6)
    × IsWords out
multiply_into-value_example =
    multiply_into-value left_words right_words left_words-IsWords right_words-IsWords
      (9 ∷ 9 ∷ 9 ∷ 9 ∷ 9 ∷ 9 ∷ []) (omega arith)

add-Reduces_example : Reduces (add right_large minus_left) (value right_large +ℤ value minus_left)
unfolding both_immediate
add-Reduces_example =
    add-Reduces right_large minus_left right_words-IsWords left_words-IsWords refl refl

subtract_wrong_sign_example :
    Reduces (subtract left_large right_large) (value right_large -ℤ value left_large)
unfolding both_immediate value to_nat low
subtract_wrong_sign_example =
    subtract_wrong_sign left_large right_large left_words-IsWords right_words-IsWords refl refl
      (omega arith)
