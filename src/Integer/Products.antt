-- ===== src/Integer/Products.antt =====
-- Multiplication of integer tuples.
use native.Mathlib.Decide.{ℕ_discrete, dec_lt}
use sysmel.Integer.Arithmetic.{
  both_immediate, small_value, multiply, multiply_large, small_product, product_is_exact,
  fits_int64, quotient, eq_Bool,
}
use sysmel.Integer.Encode.{encode_int64-value, encode_int64-IsInteger, encode_int64-is_negative}
use sysmel.Integer.Magnitude.Multiply.{multiply_into-value}
use sysmel.Integer.Normalize.{normalize_kept}
use sysmel.Integer.Sums.{Computes, small_sum_range}
use sysmel.Integer.Tuple.{Tuple, word, large, encode_int64}
use sysmel.Integer.Value.{IsInteger, value, is_negative, decode-Decodes}
use sysmel.Integer.Words.{
  word_at, to_nat, to_nat-lt, IsWords, low-suc, low-eq-to_nat, weight, weight-add,
}
use sysmel.Prelude.Int.{
  ℤ, pos, negsuc, pos_part, neg_part, ◌*ℤ◌, ◌≤ℤ◌, ltb_ℤ, eq_ℤ, signed, abs_ℕ, sub_ℕ,
}
use sysmel.Prelude.{
  ℕ, zero, suc, ◌+◌, ◌-◌, ◌*◌, ◌/◌, ◌^◌, ◌≤◌, ◌<◌, ◌≡◌, refl, sym, ◌∙◌, ap, ap₂, Bool, true, false,
  not, ◌||◌, arith, if◌then◌else◌, List, length, Bool-cases, inl, inr, replicate, length-replicate,
}
use sysmel.Run.{Run, ok}
use sysmel.Word.{immediate_int_min}

signed_parts :
    (s : Bool) (n : ℕ)
    → (pos_part (signed s n) ≡ (if s then 0 else n))
      × (neg_part (signed s n) ≡ (if s then n else 0))
signed_parts true n = ground arith
signed_parts false n = ground arith

signed_of_parts :
    (s : Bool) (n x y : ℕ)
    → x ≡ (if s then 0 else n)
    → y ≡ (if s then n else 0)
    → signed s n ≡ sub_ℕ x y
signed_of_parts true n x y h k = ground arith
signed_of_parts false n x y h k = ground arith

-- The product of two integers by sign and magnitude.
signed-mul : (a b : Bool) (m n : ℕ) → signed (not (eq_Bool a b)) (m * n) ≡ signed a m *ℤ signed b n
unfolding ◌*ℤ◌
signed-mul true true m n =
    let (p, q) = signed_parts true m in
    let (p', q') = signed_parts true n in
    signed_of_parts false (m * n) _ _ (rw (p, q, p', q') (omega arith))
      (rw (p, q, p', q') (omega arith))
signed-mul true false m n =
    let (p, q) = signed_parts true m in
    signed_of_parts true (m * n) _ _ (rw (p, q) (omega arith)) (rw (p, q) (omega arith))
signed-mul false true m n =
    let (p', q') = signed_parts true n in
    signed_of_parts true (m * n) _ _ (rw (p', q') (omega arith)) (rw (p', q') (omega arith))
signed-mul false false m n = signed_of_parts false (m * n) _ _ (omega arith) (omega arith)

-- The word above a product is zero.
product_top :
    (ws : List ℕ) (n p : ℕ) → length ws ≡ suc n → to_nat ws ≡ p → p < weight n → word_at ws n ≡ 0
product_top ws n p size e lt = elim (ℕ_discrete (word_at ws n) 0) [
  | yes z ↦ z
  | no z ↦
      let k : weight n ≤ word_at ws n * weight n = grind arith in
      absurd (omega (arith, low-eq-to_nat (suc n) ws (omega arith), low-suc n ws))
]

product-lt-weight :
    (l r : List ℕ) → IsWords l → IsWords r → to_nat l * to_nat r < weight (length l + length r)
product-lt-weight l r wl wr =
    let a = to_nat-lt l wl in
    let b = to_nat-lt r wr in rw weight-add (lt_mul (to_nat l) (to_nat r) _ _ a b)
  where
    lt_mul : (x y p q : ℕ) → x < p → y < q → x * y < p * q
    lt_mul x y p q h k =
        let e : x * y ≤ x * q = grind arith in
        let f : suc x * q ≤ p * q = grind arith in omega arith

-- The result of a product has the sign of a natural number if both factors have.
abbrev pub Multiplies : Tuple → Tuple → Run Tuple → Type 0
Multiplies l r run =
    (t : Tuple) × (run ≡ ok t)
    × (value t ≡ value l *ℤ value r)
    × IsInteger t
    × (is_negative l ≡ false → is_negative r ≡ false → is_negative t ≡ false)

-- The path over magnitudes multiplies any two integers exactly: the object has a word more than
-- the product needs, so `normalize` returns it as it is.
pub multiply_large-value :
    (l r : Tuple) → IsInteger l → IsInteger r → Multiplies l r (multiply_large l r)
unfolding multiply_large value
multiply_large-value l r hl hr =
    let (dl, l_dec) = decode-Decodes l hl in
    let (dr, r_dec) = decode-Decodes r hr in
    let n = length dl.words + length dr.words in
    let size : length {A = ℕ} (replicate (n + 1) 0) ≡ n + 1 = length-replicate (n + 1) 0 in
    let (out, run, exact, count, words) =
      multiply_into-value dl.words dr.words l_dec.words r_dec.words (replicate (n + 1) 0)
        (rw size (omega arith)) in
    let long : length out ≡ suc n = omega arith in
    let last : length out - 1 ≡ n = omega arith in
    let top : word_at out n ≡ 0 =
      product_top out n (to_nat dl.words * to_nat dr.words) long exact
        (product-lt-weight dl.words dr.words l_dec.words r_dec.words) in
    let sign = not (eq_Bool dl.is_negative dr.is_negative) in
    (
      large sign out,
      rw (l_dec.run, r_dec.run, run) (ap ok (normalize_kept sign out (omega arith) (rw last top))),
      rw exact (
          signed-mul dl.is_negative dr.is_negative (to_nat dl.words) (to_nat dr.words)
          ∙ ap₂ ◌*ℤ◌ l_dec.same r_dec.same),
      words,
      λ a b. rw (l_dec.sign, r_dec.sign, a, b),
    )

signed_abs : (v : ℤ) → signed (ltb_ℤ v (pos 0)) (abs_ℕ v) ≡ v
signed_abs (pos n) = ground arith
signed_abs (negsuc n) = ground arith

abs_signed :
    (s : Bool) (n : ℕ) → (abs_ℕ (signed s n) ≡ n) × (0 < n → ltb_ℤ (signed s n) (pos 0) ≡ s)
abs_signed true n = ground arith
abs_signed false n = ground arith

sign_solve : (a b : Bool) → not (eq_Bool (not (eq_Bool a b)) b) ≡ a
sign_solve true true = refl
sign_solve true false = refl
sign_solve false true = refl
sign_solve false false = refl

div_product : (m n : ℕ) → 0 < m * n → m * n / n ≡ m
div_product m zero h = absurd (omega arith)
div_product m (suc n) h = grind arith

some_product : (m n : ℕ) → suc m * suc n ≡ 0 → ⊥
some_product m n h = grind arith

zero_factor :
    (l r : ℤ) (rest : Bool)
    → abs_ℕ l * abs_ℕ r ≡ 0
    → (eq_ℤ l (pos 0) || eq_ℤ r (pos 0) || rest) ≡ true
zero_factor (pos zero) r rest h = ground arith
zero_factor (pos (suc m)) (pos zero) rest h = ground arith
zero_factor (pos (suc m)) (pos (suc n)) rest h = absurd (some_product m n (omega arith))
zero_factor (pos (suc m)) (negsuc n) rest h = absurd (some_product m n (omega arith))
zero_factor (negsuc m) (pos zero) rest h = ground arith
zero_factor (negsuc m) (pos (suc n)) rest h = absurd (some_product m n (omega arith))
zero_factor (negsuc m) (negsuc n) rest h = absurd (some_product m n (omega arith))

eq_ℤ_refl : (a : ℤ) → eq_ℤ a a ≡ true
eq_ℤ_refl a = ground arith

-- The product of two numbers, divided by the second, is the first.
quotient-mul : (l r : ℤ) → 0 < abs_ℕ l * abs_ℕ r → quotient (l *ℤ r) r ≡ l
unfolding quotient
quotient-mul l r h =
    let a = ltb_ℤ l (pos 0) in
    let b = ltb_ℤ r (pos 0) in
    let n = abs_ℕ l * abs_ℕ r in
    let product : signed (not (eq_Bool a b)) n ≡ l *ℤ r =
      signed-mul a b (abs_ℕ l) (abs_ℕ r) ∙ ap₂ ◌*ℤ◌ (signed_abs l) (signed_abs r) in
    let (size, sign) = abs_signed (not (eq_Bool a b)) n in
    let size' : abs_ℕ (l *ℤ r) ≡ n = ap (λ (v : ℤ). abs_ℕ v) (sym product) ∙ size in
    let sign' : ltb_ℤ (l *ℤ r) (pos 0) ≡ not (eq_Bool a b) =
      ap (λ (v : ℤ). ltb_ℤ v (pos 0)) (sym product) ∙ sign h in
    ap₂ (λ (x : Bool) (k : ℕ). signed (not (eq_Bool x b)) (k / abs_ℕ r)) sign' size'
    ∙ ap₂ signed (sign_solve a b) (div_product (abs_ℕ l) (abs_ℕ r) h)
    ∙ signed_abs l

or_last : (x y : Bool) → (x || y || true) ≡ true
or_last true y = refl
or_last false true = refl
or_last false false = refl

-- The test accepts every product that the multiplication gives.
pub product_is_exact-mul : (l r : ℤ) → product_is_exact l r (l *ℤ r) ≡ true
unfolding product_is_exact
product_is_exact-mul l r = elim (dec_lt 0 (abs_ℕ l * abs_ℕ r)) [
  | no none_left ↦ zero_factor l r (eq_ℤ l (quotient (l *ℤ r) r)) (omega arith)
  | yes positive ↦
      rw (quotient-mul l r positive, eq_ℤ_refl l) (or_last (eq_ℤ l (pos 0)) (eq_ℤ r (pos 0)))
]

multiply_signs : (a b : ℤ) → ltb_ℤ a (pos 0) ≡ false → ltb_ℤ b (pos 0) ≡ false → pos 0 ≤ℤ a *ℤ b
unfolding ◌*ℤ◌
multiply_signs (pos m) (pos n) h k = ground arith
multiply_signs (pos m) (negsuc n) h k = absurd (ground arith)
multiply_signs (negsuc m) b h k = absurd (ground arith)

both_natural :
    (l r : Tuple)
    → both_immediate l r ≡ true
    → is_negative l ≡ false
    → is_negative r ≡ false
    → pos 0 ≤ℤ value l *ℤ value r
unfolding both_immediate
both_natural (word a) (word b) e h k = multiply_signs (value (word a)) (value (word b)) h k
both_natural (word a) (large s ws) e h k = cc
both_natural (large s ws) r e h k = cc

above_least : (v : ℤ) → immediate_int_min ≤ℤ v → negsuc (2 ^ 63 - 1) ≤ℤ v
above_least v h = ground arith

fits_int64_lem : (v : ℤ) → immediate_int_min ≤ℤ v → v ≤ℤ pos (2 ^ 63 - 1) → fits_int64 v ≡ true
fits_int64_lem v h k = ground arith

pub multiply_small_product :
    (l r : Tuple)
    → both_immediate l r ≡ true
    → fits_int64 (small_value l *ℤ small_value r) ≡ true
    → multiply l r ≡ ok (encode_int64 (small_value l *ℤ small_value r))
unfolding multiply small_product
multiply_small_product l r both fits =
    rw (both, fits, product_is_exact-mul (small_value l) (small_value r)) refl

pub multiply-Multiplies :
    (l r : Tuple)
    → IsInteger l
    → IsInteger r
    → (both_immediate l r ≡ true
        → (immediate_int_min ≤ℤ value l *ℤ value r) × (value l *ℤ value r ≤ℤ pos (2 ^ 63 - 1)))
    → Multiplies l r (multiply l r)
unfolding multiply
multiply-Multiplies l r hl hr small = elim (Bool-cases (both_immediate l r)) [
  | inr e ↦ rw e (multiply_large-value l r hl hr)
  | inl e ↦
      let (el, er, _, _, _, _) = small_sum_range l r hl hr e in
      let (lo, hi) = small e in
      let product : small_value l *ℤ small_value r ≡ value l *ℤ value r = ap₂ ◌*ℤ◌ el er in
      let fits : fits_int64 (small_value l *ℤ small_value r) ≡ true =
        rw product (fits_int64_lem _ lo hi) in
      (
        encode_int64 (value l *ℤ value r),
        multiply_small_product l r e fits ∙ ap (λ (v : ℤ). ok (encode_int64 v)) product,
        encode_int64-value _ lo hi,
        encode_int64-IsInteger _ (above_least _ lo) hi,
        λ a b. encode_int64-is_negative _ (both_natural l r e a b) hi,
      )
]

-- Multiplication returns a tuple of the product of the values for any two integers, small or large,
-- but for two small integers whose product is below the least immediate or above the greatest
-- int64_t.
pub multiply-value :
    (l r : Tuple)
    → IsInteger l
    → IsInteger r
    → (both_immediate l r ≡ true
        → (immediate_int_min ≤ℤ value l *ℤ value r) × (value l *ℤ value r ≤ℤ pos (2 ^ 63 - 1)))
    → Computes (multiply l r) (value l *ℤ value r)
multiply-value l r hl hr small =
    let (t, run, same, integer, _) = multiply-Multiplies l r hl hr small in (t, run, same, integer)
