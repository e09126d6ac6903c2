-- ===== src/Integer/Factorial.antt =====
-- lib/sysbvm/integer.c: sysbvm_integer_factorial.
use sysmel.Integer.Arithmetic.{subtract, multiply, less_equals, compare_integers, small_value}
use sysmel.Integer.Parse.{
  IsNatural, small-IsNatural, multiply-IsNatural, immediate_bound, natural, decode_natural,
  both_natural, encode_natural,
}
use sysmel.Integer.Tuple.{Tuple, word}
use sysmel.Prelude.Int.{pos, ◌-ℤ◌}
use sysmel.Prelude.{
  ℕ, zero, suc, ◌*◌, ◌^◌, ◌≤◌, ◌<◌, ◌≡◌, refl, ap, Bool, true, false, arith, leb, low-or-high, inl,
  inr,
}
use sysmel.Run.{Run, ok, fault, ◌>>=◌}
use sysmel.Word.{encode_small}

-- The call behind the test: 1, or the recursive call and the product.
unfoldable pub above_one : (Tuple → Run Tuple) → Tuple → Bool → Run Tuple
above_one again n true = ok (word (encode_small (pos 1)))
above_one again n false = do
  below ← subtract n (word (encode_small (pos 1)))
  rest ← again below
  multiply rest n

-- The recursion, on fuel: each call takes one frame of the C stack, and without an end the stack
-- overflows. For a natural number the fuel is enough if it is above the number.
unfoldable pub factorial : ℕ → Tuple → Run Tuple
unfolding above_one
factorial zero n = fault
factorial (suc fuel) n = do
  at_base ← less_equals n (word (encode_small (pos 1)))
  above_one (λ a. factorial fuel a) n at_base

-- The product of the numbers from 1 to `n`.
pub product_to : ℕ → ℕ
product_to zero = 1
product_to (suc n) = product_to n * suc n

product_to-le : (a b : ℕ) → a ≤ b → product_to a ≤ product_to b
unfolding product_to
product_to-le zero zero h = omega arith
product_to-le (suc a) zero h = absurd (omega arith)
product_to-le a (suc b) h = elim (low-or-high a b) [
  | inl below ↦
      let before = product_to-le a b below in
      let k : product_to b ≤ product_to b * suc b = grind arith in omega arith
  | inr above ↦ let same : a ≡ suc b = omega arith in rw same (omega arith)
]

product_to_20 : product_to 20 ≡ 2432902008176640000
unfolding product_to
product_to_20 = refl

-- An immediate has at most the product to 19, and the product to 20 is in an int64_t.
product_bound : (n : ℕ) → product_to n < 2 ^ 59 → product_to n * suc n < 2 ^ 63
product_bound n h = elim (low-or-high 20 n) [
  | inl above ↦
      let more = product_to-le 20 n above in let least = product_to_20 in absurd (omega arith)
  | inr below ↦
      let next : product_to (suc n) ≡ product_to n * suc n = unfold product_to in refl in
      let most = product_to-le (suc n) 20 (omega arith) in let least = product_to_20 in omega arith
]

less_equals_small : (n : ℕ) → n < 2 ^ 59 → less_equals (natural n) (natural 1) ≡ ok (leb n 1)
unfolding less_equals compare_integers small_value
less_equals_small n h =
    rw (both_natural n 1, decode_natural n h, decode_natural 1 (omega arith)) (ground arith)

minus_one : (n : ℕ) → pos (suc n) -ℤ pos 1 ≡ pos n
unfolding ◌-ℤ◌
minus_one n = ground arith

subtract_small : (n : ℕ) → suc n < 2 ^ 59 → subtract (natural (suc n)) (natural 1) ≡ ok (natural n)
unfolding subtract small_value
subtract_small n h =
    rw
      (
        both_natural (suc n) 1,
        decode_natural (suc n) h,
        decode_natural 1 (omega arith),
        minus_one n,
      )
      (ap ok (encode_natural n (omega arith)))

-- For a natural number below 2^59 and fuel above it the recursive factorial returns, and returns
-- the product of the numbers from 1 to it, of any size.
pub factorial-IsNatural :
    (n fuel : ℕ)
    → n < 2 ^ 59
    → n < fuel
    → (t : Tuple) × (factorial fuel (natural n) ≡ ok t) × IsNatural t (product_to n)
unfolding factorial above_one product_to
factorial-IsNatural n zero h enough = absurd (omega arith)
factorial-IsNatural zero (suc fuel) h enough =
    (natural 1, rw (less_equals_small 0 (omega arith)) refl, small-IsNatural 1 (omega arith))
factorial-IsNatural (suc zero) (suc fuel) h enough =
    (natural 1, rw (less_equals_small 1 (omega arith)) refl, small-IsNatural 1 (omega arith))
factorial-IsNatural (suc (suc n)) (suc fuel) h enough =
    let (rest, run, same) = factorial-IsNatural (suc n) fuel (omega arith) (omega arith) in
    let (t, product, natural_t) =
      multiply-IsNatural rest (natural (suc (suc n))) _ _ same (small-IsNatural (suc (suc n)) h)
        (λ e. product_bound (suc n) (immediate_bound rest (natural (suc (suc n))) _ same e)) in
    let more : leb (suc (suc n)) 1 ≡ false = ground arith in
    (
      t,
      rw (less_equals_small (suc (suc n)) h, more, subtract_small (suc n) h, run) product,
      natural_t,
    )
