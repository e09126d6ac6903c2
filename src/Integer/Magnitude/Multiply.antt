-- ===== src/Integer/Magnitude/Multiply.antt =====
-- sysbvm_integer_multiplyInto multiplies.
use native.Mathlib.Decide.{dec_le}
use native.Mathlib.Nat.{le_trans}
use sysmel.Integer.Magnitude.{
  multiply_word_loop, multiply_by_word_adding_into, multiply_loop, multiply_into,
}
use sysmel.Integer.Words.{
  word_at, low, to_nat, IsWords, weight, weight-suc, weight-pos, weight_le, low-suc, set-IsWords,
  low-eq-to_nat, low-lt, to_nat-lt, low-set_at, to_nat-take-drop, to_nat-take-append,
  take-append-IsWords, drop-IsWords, replicate-IsWords, to_nat-replicate,
}
use sysmel.Prelude.{
  ℕ, zero, suc, ◌+◌, ◌-◌, ◌*◌, ◌/◌, ◌%◌, ◌^◌, ◌≤◌, ◌<◌, ◌≡◌, refl, ap, arith, List, ◌++◌, length,
  set, length-set, max, ◌∙◌, take, drop, replicate, length-append, length-take, length-drop,
  length-replicate, lt→ltb,
}
use sysmel.Run.{ok}

-- A product of two words with two more words added fits 64 bits.
product_fits :
    (a b c d : ℕ) → a < 2 ^ 32 → b < 2 ^ 32 → c < 2 ^ 32 → d < 2 ^ 32 → a * b + c + d < 2 ^ 64
product_fits a b c d ha hb hc hd = let h : a * b ≤ (2 ^ 32 - 1) * b = grind arith in omega arith

product_step :
    (p a w r c m : ℕ)
    → m ≡ a * w + r + c
    → m % 2 ^ 32 * p + m / 2 ^ 32 * (2 ^ 32 * p) ≡ a * p * w + r * p + c * p
product_step p a w r c m h =
    let split : m % 2 ^ 32 + m / 2 ^ 32 * 2 ^ 32 ≡ a * w + r + c = omega arith in
    omega (arith, ap (λ (t : ℕ). t * p) split)

module _ (left : List ℕ) (word : ℕ) (wl : IsWords left) (ww : word < 2 ^ 32) where
  -- No write is out of bounds, and the words below `j` gain the product of the words that are left.
  multiply_word_loop-value :
      (rounds i j carry : ℕ) (result : List ℕ)
      → i + rounds ≡ j
      → j ≤ length result
      → carry < 2 ^ 32
      → IsWords result
      → (out : List ℕ) × (c : ℕ) × (multiply_word_loop rounds i carry left word result ≡ ok out)
        × (low j out + c * weight j + low i left * word
            ≡ low j result + carry * weight i + low j left * word)
        × (length out ≡ length result)
        × IsWords out
  unfolding multiply_word_loop
  multiply_word_loop-value zero i j carry result e h k w =
      let e' : j ≡ i = omega arith in rw e' (result, carry, refl, refl, refl, w)
  multiply_word_loop-value (suc rounds) i j carry result e h k w =
      let total = word_at left i * word + word_at result i + carry in
      let m = total % 2 ^ 64 in
      let exact : m ≡ total =
        omega
          (arith, product_fits (word_at left i) word (word_at result i) carry (wl i) ww (w i) k) in
      let small = product_fits (word_at left i) word (word_at result i) carry (wl i) ww (w i) k in
      let written = low-set_at j result i (m % 2 ^ 32) (omega arith) h in
      let (out, c, run, value, size, words) =
        multiply_word_loop-value rounds (suc i) j (m / 2 ^ 32) (set result i (m % 2 ^ 32))
          (omega arith) (rw length-set h) (omega arith)
          (set-IsWords result i (m % 2 ^ 32) (omega arith) (omega arith) w) in
      (
        out,
        c,
        rw (lt→ltb i (length result) (omega arith)) run,
        omega (
          arith,
          value,
          written,
          ap (λ (t : ℕ). t * word) (low-suc i left),
          ap (λ (t : ℕ). t * (m / 2 ^ 32)) (weight-suc i),
          product_step (weight i) (word_at left i) word (word_at result i) carry m exact,
        ),
        size ∙ length-set result i _,
        words,
      )

  no_carry : (out c p r t : ℕ) → out + c * p ≡ r + t → r + t < p → out ≡ r + t
  no_carry out zero p r t e h = omega arith
  no_carry out (suc c) p r t e h = absurd (grind arith)

  -- Where the result has room for the sum, the product is added with no carry left.
  multiply_by_word-value :
      (result : List ℕ)
      → length left ≤ length result
      → IsWords result
      → to_nat result + to_nat left * word < weight (length result)
      → (out : List ℕ) × (multiply_by_word_adding_into left word result ≡ ok out)
        × (to_nat out ≡ to_nat result + to_nat left * word)
        × (length out ≡ length result)
        × IsWords out
  unfolding multiply_by_word_adding_into
  multiply_by_word-value result h w fits =
      let n = length result in
      let (out, c, run, value, size, words) =
        multiply_word_loop-value n 0 n 0 result (omega arith) (omega arith) (omega arith) w in
      let l = low-eq-to_nat n left h in
      let r = low-eq-to_nat n result (omega arith) in
      let o = low-eq-to_nat n out (omega arith) in
      let exact : to_nat out + c * weight n ≡ to_nat result + to_nat left * word =
        omega (arith, value, low_zero, o, r, ap (λ (t : ℕ). t * word) l) in
      let rounds : max (length left) n ≡ n = omega arith in
      (
        out,
        rw rounds run,
        no_carry (to_nat out) c (weight n) (to_nat result) (to_nat left * word) exact fits,
        size,
        words,
      )
    where
      low_zero : low 0 left * word ≡ 0
      low_zero = unfold low in omega arith

-- The words that a round works on hold less than the left factor.
tail_le : (p l x d y : ℕ) → 0 < p → l * x ≡ y + p * d → x < p → d ≤ l
tail_le p l x d y h e lt = elim (dec_le d l) [
  | yes le ↦ le
  | no n ↦ absurd (
      let g : suc l ≤ d = omega arith in
      let k : p * suc l ≤ p * d = grind arith in let m : l * x ≤ l * p = grind arith in omega arith)
]

room : (l d w q : ℕ) → l < q → d ≤ l → w < 2 ^ 32 → d + l * w < 2 ^ 32 * q
room l d w q h le lt = let k : l * suc w ≤ l * 2 ^ 32 = grind arith in omega arith

module _ (left right : List ℕ) (wl : IsWords left) (wr : IsWords right) where
  multiply_loop-value :
      (rounds i : ℕ) (result : List ℕ)
      → i + rounds ≡ length right
      → length left + length right ≤ length result
      → IsWords result
      → to_nat result ≡ to_nat left * low i right
      → (out : List ℕ) × (multiply_loop rounds i left right result ≡ ok out)
        × (to_nat out ≡ to_nat left * to_nat right)
        × (length out ≡ length result)
        × IsWords out
  unfolding multiply_loop
  multiply_loop-value zero i result e h w inv = (
    result,
    refl,
    inv ∙ ap (λ (t : ℕ). to_nat left * t) (low-eq-to_nat i right (omega arith)),
    refl,
    w,
  )
  multiply_loop-value (suc rounds) i result e h w inv =
      let n = length (drop i result) in
      let count : n ≡ length result - i = length-drop i result in
      let split = to_nat-take-drop i result (omega arith) in
      let below : to_nat (drop i result) ≤ to_nat left =
        tail_le (weight i) (to_nat left) (low i right) (to_nat (drop i result)) (low i result)
          (weight-pos i) (omega arith) (low-lt i right wr) in
      let fits : to_nat (drop i result) + to_nat left * word_at right i < weight n =
        le_trans
          (room (to_nat left) _ (word_at right i) (weight (length left)) (to_nat-lt left wl) below
            (wr i))
          (rw (weight-suc (length left)) at (weight_le (suc (length left)) n (omega arith))) in
      let (tail, run, value, size, words) =
        multiply_by_word-value left (word_at right i) wl (wr i) (drop i result) (omega arith)
          (drop-IsWords i result w) fits in
      let joined = to_nat-take-append i result tail (omega arith) in
      let kept : length (take i result ++ tail) ≡ length result =
        omega (arith, length-append {0} (take i result) tail, length-take {0} i result, size) in
      let next : to_nat (take i result ++ tail) ≡ to_nat left * low (suc i) right = omega (
        arith,
        joined,
        ap (λ (t : ℕ). weight i * t) value,
        ap (λ (t : ℕ). to_nat left * t) (low-suc i right),
      ) in
      let (out, rest, total, size', words') =
        multiply_loop-value rounds (suc i) (take i result ++ tail) (omega arith) (rw kept h)
          (take-append-IsWords i result tail w words) next in
      (out, rw (lt→ltb i (length result) (omega arith), run) rest, total, size' ∙ kept, words')

  -- With a result that has a word for each word of the two factors, multiplying two magnitudes
  -- succeeds with no write out of bounds, and the result is the exact product in words of 32 bits,
  -- of the same count.
  pub multiply_into-value :
      (result : List ℕ)
      → length left + length right ≤ length result
      → (out : List ℕ) × (multiply_into left right result ≡ ok out)
        × (to_nat out ≡ to_nat left * to_nat right)
        × (length out ≡ length result)
        × IsWords out
  unfolding multiply_into
  multiply_into-value result h =
      let n = length result in
      let size : length (replicate n 0) ≡ n = length-replicate n 0 in
      let (out, run, value, size', words) =
        multiply_loop-value (length right) 0 (replicate n 0) (omega arith) (rw size h)
          (replicate-IsWords n) (to_nat-replicate n ∙ start) in
      (out, run, value, size' ∙ size, words)
    where
      start : 0 ≡ to_nat left * low 0 right
      start = unfold low in omega arith
