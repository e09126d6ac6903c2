-- ===== src/Integer/Magnitude/Subtract.antt =====
-- sysbvm_integer_subtractFromInto subtracts.
use sysmel.Integer.Magnitude.{subtract_loop, clear_loop, subtract_from_into}
use sysmel.Integer.Words.{
  word_at, low, to_nat, IsWords, weight, weight-suc, low-set, low-suc, set-IsWords, low-eq-to_nat,
  low-lt,
}
use sysmel.Prelude.Int.{ℤ, pos, negsuc, pos_part, neg_part, ◌+ℤ◌, ◌-ℤ◌}
use sysmel.Prelude.{
  ℕ, zero, suc, ◌+◌, ◌-◌, ◌*◌, ◌^◌, ◌≤◌, ◌<◌, ◌≡◌, refl, ap, arith, List, length, set, length-set,
  max, ◌∙◌,
}
use sysmel.Word.{to_bits, shift_right}

-- A borrow: 0 or -1.
pub record IsBorrow (b : ℤ) : Type 0 where
  pub not_positive : pos_part b ≡ 0
  pub bit : neg_part b < 2

-- One word: the low bits, and the borrow that the shift leaves.
word_step :
    (a b : ℕ) (borrow : ℤ)
    → a < 2 ^ 32
    → b < 2 ^ 32
    → IsBorrow borrow
    → (to_bits 32 (pos a -ℤ pos b +ℤ borrow) + b + neg_part borrow
        ≡ a + 2 ^ 32 * neg_part (shift_right (pos a -ℤ pos b +ℤ borrow) 32))
      × (to_bits 32 (pos a -ℤ pos b +ℤ borrow) < 2 ^ 32)
      × IsBorrow (shift_right (pos a -ℤ pos b +ℤ borrow) 32)
unfolding ◌+ℤ◌ ◌-ℤ◌
word_step a b (pos n) ha hb h = ground arith
word_step a b (negsuc n) ha hb h = ground arith

module _ (left right : List ℕ) (wl : IsWords left) (wr : IsWords right) where
  subtract_loop-value :
      (rounds i j : ℕ) (borrow : ℤ) (result : List ℕ)
      → i + rounds ≡ j
      → j ≤ length result
      → IsBorrow borrow
      → low i result + low i right ≡ low i left + neg_part borrow * weight i
      → (low j (subtract_loop rounds i borrow left right result).1 + low j right
          ≡ low j left + neg_part (subtract_loop rounds i borrow left right result).0 * weight j)
        × IsBorrow (subtract_loop rounds i borrow left right result).0
        × (length (subtract_loop rounds i borrow left right result).1 ≡ length result)
        × (IsWords result → IsWords (subtract_loop rounds i borrow left right result).1)
  unfolding subtract_loop
  subtract_loop-value zero i j borrow result e h k inv =
      let e' : j ≡ i = omega arith in rw e' (inv, k, refl, λ w. w)
  subtract_loop-value (suc rounds) i j borrow result e h k inv =
      let s = pos (word_at left i) -ℤ pos (word_at right i) +ℤ borrow in
      let (split, fits, next) =
        word_step (word_at left i) (word_at right i) borrow (wl i) (wr i) k in
      let (value, bit, size, words) =
        subtract_loop-value rounds (suc i) j (shift_right s 32) (set result i (to_bits 32 s))
          (omega arith) (rw length-set h) next
          (rw
            (
              low-set i result (to_bits 32 s) (omega arith),
              low-suc i left,
              low-suc i right,
              weight-suc i,
            )
            (omega (arith, ap (λ (t : ℕ). t * weight i) split))) in
      (
        value,
        bit,
        size ∙ length-set result i _,
        λ w. words (set-IsWords result i _ (omega arith) fits w),
      )

clear_loop-value :
    (rounds i j v : ℕ) (result : List ℕ)
    → i + rounds ≡ j
    → j ≤ length result
    → low i result ≡ v
    → (low j (clear_loop rounds i result) ≡ v)
      × (length (clear_loop rounds i result) ≡ length result)
      × (IsWords result → IsWords (clear_loop rounds i result))
unfolding clear_loop
clear_loop-value zero i j v result e h inv =
    let e' : j ≡ i = omega arith in rw e' (inv, refl, λ w. w)
clear_loop-value (suc rounds) i j v result e h inv =
    let (value, size, words) =
      clear_loop-value rounds (suc i) j v (set result i 0) (omega arith) (rw length-set h)
        (rw (low-set i result 0 (omega arith)) (omega arith)) in
    (
      value,
      size ∙ length-set result i 0,
      λ w. words (set-IsWords result i 0 (omega arith) (omega arith) w),
    )

-- No borrow is left below the larger number.
borrow_none :
    (borrow : ℤ) (res l r p : ℕ)
    → IsBorrow borrow
    → res < p
    → r ≤ l
    → res + r ≡ l + neg_part borrow * p
    → borrow ≡ pos 0
borrow_none (pos n) res l r p h lt le e = ground (arith, h.not_positive)
borrow_none (negsuc zero) res l r p h lt le e = absurd (omega arith)
borrow_none (negsuc (suc n)) res l r p h lt le e = absurd (omega (arith, h.bit))

-- Subtracting a magnitude from one that is not smaller, into a result that has room for both,
-- gives the exact difference in words of 32 bits and leaves no borrow.
pub subtract_from_into-value :
    (left right result : List ℕ)
    → IsWords left
    → IsWords right
    → IsWords result
    → max (length left) (length right) ≤ length result
    → to_nat right ≤ to_nat left
    → (to_nat (subtract_from_into left right result).1 + to_nat right ≡ to_nat left)
      × ((subtract_from_into left right result).0 ≡ pos 0)
      × (length (subtract_from_into left right result).1 ≡ length result)
      × IsWords (subtract_from_into left right result).1
unfolding subtract_from_into
subtract_from_into-value left right result wl wr ws h le =
    let widest = max (length left) (length right) in
    let start : low 0 result + low 0 right ≡ low 0 left + 0 * weight 0 = unfold low in refl in
    let (value, bit, size, words) =
      subtract_loop-value left right wl wr widest 0 widest (pos 0) result (omega arith) h
        (omega arith) start in
    let borrow = (subtract_loop widest 0 (pos 0) left right result).0 in
    let subtracted = (subtract_loop widest 0 (pos 0) left right result).1 in
    let l = low-eq-to_nat widest left (omega arith) in
    let r = low-eq-to_nat widest right (omega arith) in
    let exact : borrow ≡ pos 0 =
      borrow_none borrow (low widest subtracted) (low widest left) (low widest right)
        (weight widest) bit (low-lt widest subtracted (words ws)) (rw (l, r) le) value in
    let plain : low widest subtracted + low widest right ≡ low widest left =
      value ∙ rw exact (omega arith) in
    let (cleared, size', words') =
      clear_loop-value (length result - widest) widest (length result) _ subtracted (omega arith)
        (omega arith) refl in
    let whole =
      low-eq-to_nat (length result) (clear_loop (length result - widest) widest subtracted)
        (omega arith) in
    (omega arith, exact, size' ∙ size, words' (words ws))
