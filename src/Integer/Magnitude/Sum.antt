-- ===== src/Integer/Magnitude/Sum.antt =====
-- sysbvm_integer_sumInto adds.
use sysmel.Integer.Magnitude.{sum_loop, carry_loop, sum_into}
use sysmel.Integer.Words.{
  word_at, low, to_nat, IsWords, weight, weight-suc, low-set, low-suc, set-IsWords, low-eq-to_nat,
}
use sysmel.Prelude.{
  ℕ, zero, suc, ◌+◌, ◌-◌, ◌*◌, ◌/◌, ◌%◌, ◌^◌, ◌≤◌, ◌<◌, ◌≡◌, refl, ap, arith, List, [], length, set,
  length-set, max, ◌∙◌,
}

-- One step of the loop keeps the sum of the words so far.
sum_step :
    (p c a b x y z : ℕ)
    → x + c * p ≡ y + z
    → x + (a + b + c) % 2 ^ 32 * p + (a + b + c) / 2 ^ 32 * (2 ^ 32 * p) ≡ y + a * p + (z + b * p)
sum_step p c a b x y z h =
    let split : (a + b + c) % 2 ^ 32 + (a + b + c) / 2 ^ 32 * 2 ^ 32 ≡ a + b + c = omega arith in
    omega (arith, ap (λ (t : ℕ). t * p) split)

module _ (left right : List ℕ) (wl : IsWords left) (wr : IsWords right) where
  pub sum_loop-value :
      (rounds i j carry : ℕ) (result : List ℕ)
      → i + rounds ≡ j
      → j ≤ length result
      → carry < 2
      → low i result + carry * weight i ≡ low i left + low i right
      → (low j (sum_loop rounds i carry left right result).1
            + (sum_loop rounds i carry left right result).0 * weight j
          ≡ low j left + low j right)
        × ((sum_loop rounds i carry left right result).0 < 2)
        × (length (sum_loop rounds i carry left right result).1 ≡ length result)
        × (IsWords result → IsWords (sum_loop rounds i carry left right result).1)
  unfolding sum_loop
  sum_loop-value zero i j carry result e h k inv =
      let e' : j ≡ i = omega arith in rw e' (inv, k, refl, λ w. w)
  sum_loop-value (suc rounds) i j carry result e h k inv =
      let s = (word_at left i + word_at right i + carry) % 2 ^ 64 in
      let total : s ≡ word_at left i + word_at right i + carry = omega (arith, wl i, wr i) in
      let fits : s % 2 ^ 32 < 2 ^ 32 = omega arith in
      let next =
        sum_step (weight i) carry (word_at left i) (word_at right i) (low i result) (low i left)
          (low i right) inv in
      let (value, bit, size, words) =
        sum_loop-value rounds (suc i) j (s / 2 ^ 32) (set result i (s % 2 ^ 32)) (omega arith)
          (rw length-set h) (omega (arith, wl i, wr i))
          (rw
            (
              low-set i result (s % 2 ^ 32) (omega arith),
              low-suc i left,
              low-suc i right,
              weight-suc i,
              total,
            )
            next) in
      (
        value,
        bit,
        size ∙ length-set result i _,
        λ w. words (set-IsWords result i _ (omega arith) fits w),
      )

-- The carry does not depend on the array that is written.
sum_loop_carry :
    (left right : List ℕ) (rounds i carry : ℕ) (result other : List ℕ)
    → (sum_loop rounds i carry left right result).0 ≡ (sum_loop rounds i carry left right other).0
unfolding sum_loop
sum_loop_carry left right zero i carry result other = refl
sum_loop_carry left right (suc rounds) i carry result other =
    sum_loop_carry left right rounds (suc i) _ _ _

carry_loop-value :
    (rounds i j carry v : ℕ) (result : List ℕ)
    → i + rounds ≡ j
    → j ≤ length result
    → carry < 2
    → low i result + carry * weight i ≡ v
    → (low j (carry_loop rounds i carry result).1 + (carry_loop rounds i carry result).0 * weight j
        ≡ v)
      × (length (carry_loop rounds i carry result).1 ≡ length result)
      × (IsWords result → IsWords (carry_loop rounds i carry result).1)
      × (0 < rounds → (carry_loop rounds i carry result).0 ≡ 0)
unfolding carry_loop
carry_loop-value zero i j carry v result e h k inv =
    let e' : j ≡ i = omega arith in rw e' (inv, refl, λ w. w, λ p. absurd (omega arith))
carry_loop-value (suc zero) i j carry v result e h k inv =
    let e' : j ≡ suc i = omega arith in
    rw e' (
      rw (low-set i result carry (omega arith)) (omega arith),
      length-set result i carry,
      set-IsWords result i carry (omega arith) (omega arith),
      λ p. refl,
    )
carry_loop-value (suc (suc rounds)) i j carry v result e h k inv =
    let (value, size, words, last) =
      carry_loop-value (suc rounds) (suc i) j 0 v (set result i carry) (omega arith)
        (rw length-set h) (omega arith) (rw (low-set i result carry (omega arith)) (omega arith)) in
    (
      value,
      size ∙ length-set result i carry,
      λ w. words (set-IsWords result i carry (omega arith) (omega arith) w),
      λ p. last (omega arith),
    )

module _ (left right : List ℕ) (wl : IsWords left) (wr : IsWords right) where
  abbrev widest : ℕ
  widest = max (length left) (length right)

  -- A result with room for the wider summand takes the sum up to the carry that is returned.
  pub sum_into-value :
      (result : List ℕ)
      → widest ≤ length result
      → (to_nat (sum_into left right result).1
            + (sum_into left right result).0 * weight (length result)
          ≡ to_nat left + to_nat right)
        × (length (sum_into left right result).1 ≡ length result)
        × (IsWords result → IsWords (sum_into left right result).1)
        × (widest < length result → (sum_into left right result).0 ≡ 0)
  unfolding sum_into
  sum_into-value result h =
      let (value, bit, size, words) =
        sum_loop-value left right wl wr widest 0 widest 0 result (omega arith) h (omega arith)
          (unfold low in refl) in
      let summed = (sum_loop widest 0 0 left right result).1 in
      let (total, size', words', last) =
        carry_loop-value (length result - widest) widest (length result)
          (sum_loop widest 0 0 left right result).0 _ summed (omega arith) (omega arith) bit
          value in
      (
        rw
            (
              ← low-eq-to_nat (length result)
                  (carry_loop (length result - widest) widest
                    (sum_loop widest 0 0 left right result).0 summed).1
                  (omega arith),
              ← low-eq-to_nat widest left (omega arith),
              ← low-eq-to_nat widest right (omega arith),
            )
            total,
        size' ∙ size,
        λ w. words' (words w),
        λ p. last (omega arith),
      )

-- A run with no room for the result gives the carry of the run with room for the summands.
pub sum_into_carry :
    (left right result : List ℕ)
    → length result ≡ max (length left) (length right)
    → (sum_into left right []).0 ≡ (sum_into left right result).0
unfolding sum_into
sum_into_carry left right result h =
    let widest = max (length left) (length right) in
    let none_left : length result - widest ≡ 0 = omega arith in
    let none_left' : 0 - widest ≡ 0 = omega arith in
    rw (none_left, none_left') (sum_loop_carry left right widest 0 0 [] result)
