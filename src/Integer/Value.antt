-- ===== src/Integer/Value.antt =====
-- The integer that a tuple stands for, and what decoding and encoding do to it.
use mathlib.Core.List.{append-nil}
use sysmel.Integer.Tuple.{
  Tuple, word, large, DecodedInteger, normalized_count, decode_magnitude, decode_large_or_immediate,
}
use sysmel.Integer.Words.{
  word_at, low, to_nat, IsWords, low-suc, to_nat-cons, to_nat-take-append, take-append-IsWords,
}
use sysmel.Prelude.Int.{ℤ, pos, negsuc, ◌-ℤ◌, ◌≤ℤ◌, ltb_ℤ, signed}
use sysmel.Prelude.{
  ℕ, zero, suc, ◌-◌, ◌/◌, ◌%◌, ◌^◌, ◌≤◌, ◌<◌, ◌≡◌, refl, ◌∙◌, Bool, arith, ◌==◌, if◌then◌else◌,
  List, [], ◌∷◌, ◌++◌, length, take, inl, inr, Bool-cases, length-take, ◌≢◌,
}
use sysmel.Run.{ok}
use sysmel.Word.{to_bits, decode_small, is_immediate, immediate_int_min, immediate_int_max}

-- A tuple that holds an integer: a word with the integer tag, or an object with 32-bit words.
abbrev pub IsInteger : Tuple → Type 0
IsInteger (word bits) = (bits < 2 ^ 64) × (bits % 16 ≡ 1)
IsInteger (large negative words) = IsWords words

unfoldable pub value : Tuple → ℤ
value (word bits) = decode_small bits
value (large negative words) = signed negative (to_nat words)

-- The sign that decoding gives.
abbrev pub is_negative : Tuple → Bool
is_negative (large negative words) = negative
is_negative (word bits) = ltb_ℤ (value (word bits)) (pos 0)

normalized_count-le : (n : ℕ) (ws : List ℕ) → normalized_count n ws ≤ n
unfolding normalized_count
normalized_count-le zero ws = omega arith
normalized_count-le (suc zero) ws = omega arith
normalized_count-le (suc (suc n)) ws = ground (arith, normalized_count-le (suc n) ws)

low-normalized_count : (n : ℕ) (ws : List ℕ) → low (normalized_count n ws) ws ≡ low n ws
unfolding normalized_count
low-normalized_count zero ws = refl
low-normalized_count (suc zero) ws = refl
low-normalized_count (suc (suc n)) ws = elim (Bool-cases (word_at ws (suc n) == 0)) [
  | inl e ↦
      let z : word_at ws (suc n) ≡ 0 = ground arith in
      rw (e, low-suc (suc n) ws, z, low-normalized_count (suc n) ws) (omega arith)
  | inr e ↦ rw e
]

pub to_nat-take : (i : ℕ) (ws : List ℕ) → i ≤ length ws → to_nat (take i ws) ≡ low i ws
to_nat-take i ws h =
    let e : take i ws ++ [] ≡ take i ws = append-nil (take i ws) in
    rw e at (to_nat-take-append i ws [] h) ∙ (unfold to_nat low in omega arith)

pub take-IsWords : (i : ℕ) (ws : List ℕ) → IsWords ws → IsWords (take i ws)
take-IsWords i ws h =
    rw (append-nil (take i ws)) at (take-append-IsWords i ws [] h (λ j. omega arith))

decode_magnitude-value :
    (m : ℕ) → m < 2 ^ 64 → (to_nat (decode_magnitude m) ≡ m) × IsWords (decode_magnitude m)
unfolding decode_magnitude
decode_magnitude-value m h = elim (Bool-cases (m / 2 ^ 32 % 2 ^ 32 == 0)) [
  | inl e ↦ rw e (rw to_nat-cons (unfold to_nat low in ground arith), one_word)
  | inr e ↦ rw e (rw (to_nat-cons, to_nat-cons) (unfold to_nat low in ground arith), two_words)
]
  where
    one_word : IsWords ((m % 2 ^ 32) ∷ [])
    one_word zero = omega arith
    one_word (suc i) = omega arith

    two_words : IsWords ((m % 2 ^ 32) ∷ (m / 2 ^ 32 % 2 ^ 32) ∷ [])
    two_words zero = omega arith
    two_words (suc zero) = omega arith
    two_words (suc (suc i)) = omega arith

-- No word on top is zero, unless it is the only one.
abbrev pub IsTight : List ℕ → Type 0
IsTight words = 1 < length words → word_at words (length words - 1) ≢ 0

normalized_count-top :
    (n : ℕ) (ws : List ℕ) → 1 < normalized_count n ws → word_at ws (normalized_count n ws - 1) ≢ 0
unfolding normalized_count
normalized_count-top zero ws h = absurd (omega arith)
normalized_count-top (suc zero) ws h = absurd (omega arith)
normalized_count-top (suc (suc n)) ws h = ground (arith, normalized_count-top (suc n) ws)

word_at-take : (n : ℕ) (ws : List ℕ) (i : ℕ) → i < n → word_at (take n ws) i ≡ word_at ws i
word_at-take zero ws i h = absurd (omega arith)
word_at-take (suc n) [] i h = refl
word_at-take (suc n) (w ∷ ws) zero h = refl
word_at-take (suc n) (w ∷ ws) (suc i) h = word_at-take n ws i (omega arith)

take-IsTight : (ws : List ℕ) → IsTight (take (normalized_count (length ws) ws) ws)
take-IsTight ws h =
    let n = normalized_count (length ws) ws in
    let size : length (take n ws) ≡ n =
      omega (arith, length-take {0} n ws, normalized_count-le (length ws) ws) in
    rw (size, word_at-take n ws (n - 1) (omega arith))
      (normalized_count-top (length ws) ws (omega arith))

decode_magnitude-IsTight : (m : ℕ) → IsTight (decode_magnitude m)
unfolding decode_magnitude
decode_magnitude-IsTight m = ground arith

-- What decoding returns: the sign and words of the value.
pub record Decodes (t : Tuple) (d : DecodedInteger) : Type 0 where
  pub run : decode_large_or_immediate t ≡ ok d
  pub same : signed d.is_negative (to_nat d.words) ≡ value t
  pub words : IsWords d.words
  pub sign : d.is_negative ≡ is_negative t
  pub top : IsTight d.words

small_magnitude :
    (v : ℤ)
    → immediate_int_min ≤ℤ v
    → v ≤ℤ immediate_int_max
    → ((if ltb_ℤ v (pos 0) then to_bits 64 (pos 0 -ℤ v) else to_bits 64 v) < 2 ^ 64)
      × (signed
            (ltb_ℤ v (pos 0))
            (if ltb_ℤ v (pos 0) then to_bits 64 (pos 0 -ℤ v) else to_bits 64 v)
          ≡ v)
unfolding ◌-ℤ◌
small_magnitude (pos n) lo hi = ground arith
small_magnitude (negsuc n) lo hi = ground arith

pub decode_small_range :
    (bits : ℕ)
    → bits < 2 ^ 64
    → (immediate_int_min ≤ℤ decode_small bits) × (decode_small bits ≤ℤ immediate_int_max)
unfolding decode_small
decode_small_range bits h = ground arith

pub decode-Decodes : (t : Tuple) → IsInteger t → (d : DecodedInteger) × Decodes t d
unfolding decode_large_or_immediate value is_immediate
decode-Decodes (word bits) h =
    let v = decode_small bits in
    let (lo, hi) = decode_small_range bits h.0 in
    let (fits, same) = small_magnitude v lo hi in
    let (total, words) =
      decode_magnitude-value (if ltb_ℤ v (pos 0) then to_bits 64 (pos 0 -ℤ v) else to_bits 64 v)
        fits in
    (
      record { is_negative = ltb_ℤ v (pos 0); words = decode_magnitude _ },
      record {
        run = rw (h.1);
        same = rw total same;
        words = words;
        sign = refl;
        top = decode_magnitude-IsTight _;
      },
    )
decode-Decodes (large negative ws) h = (
  record { is_negative = negative; words = take (normalized_count (length ws) ws) ws },
  record {
    run = refl;
    same =
        rw
          (
            to_nat-take _ ws (normalized_count-le (length ws) ws),
            low-normalized_count (length ws) ws,
          )
          (unfold to_nat in refl);
    words = take-IsWords _ ws h;
    sign = refl;
    top = take-IsTight ws;
  },
)
