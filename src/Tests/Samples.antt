-- ===== src/Tests/Samples.antt =====
-- The integers and lists that the runs share.
use sysmel.Integer.Tuple.{Tuple, word, large}
use sysmel.Integer.Value.{IsInteger, value}
use sysmel.Integer.Words.{IsWords}
use sysmel.Prelude.Int.{pos}
use sysmel.Prelude.{ℕ, zero, suc, ◌^◌, ◌<◌, ◌≢◌, true, false, arith, List, [], ◌∷◌}
use sysmel.Word.{encode_small, decode_small, encode_small-integer}

pub cons-IsWords : (w : ℕ) (ws : List ℕ) → w < 2 ^ 32 → IsWords ws → IsWords (w ∷ ws)
cons-IsWords w ws h rest zero = h
cons-IsWords w ws h rest (suc i) = rest i

pub nil-IsWords : IsWords []
nil-IsWords i = omega arith

-- 2^33 and 2^34 with a word more than they need.
abbrev pub left_words : List ℕ
left_words = 0 ∷ 2 ∷ 0 ∷ []

abbrev pub right_words : List ℕ
right_words = 0 ∷ 4 ∷ 0 ∷ []

pub left_words-IsWords : IsWords left_words
left_words-IsWords =
    cons-IsWords 0 (2 ∷ 0 ∷ []) (omega arith)
      (cons-IsWords 2 (0 ∷ []) (omega arith) (cons-IsWords 0 [] (omega arith) nil-IsWords))

pub right_words-IsWords : IsWords right_words
right_words-IsWords =
    cons-IsWords 0 (4 ∷ 0 ∷ []) (omega arith)
      (cons-IsWords 4 (0 ∷ []) (omega arith) (cons-IsWords 0 [] (omega arith) nil-IsWords))

abbrev pub left_large : Tuple
left_large = large false left_words

abbrev pub right_large : Tuple
right_large = large false right_words

abbrev pub minus_left : Tuple
minus_left = large true left_words

abbrev pub five : Tuple
five = word (encode_small (pos 5))

pub five-IsInteger : IsInteger five
five-IsInteger = encode_small-integer (pos 5)

-- Words of which none is zero.
abbrev pub full_words : List ℕ
full_words = 1 ∷ 1 ∷ 1 ∷ []

pub five_nonzero : value five ≢ pos 0
unfolding value encode_small decode_small
five_nonzero h = ground arith
