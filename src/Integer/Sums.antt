-- ===== src/Integer/Sums.antt =====
-- Addition and subtraction of integer tuples.
use sysmel.Integer.Arithmetic.{
  sum_magnitudes, eq_Bool, both_immediate, small_value, add, add_large, subtract, subtract_large,
}
use sysmel.Integer.Encode.{encode_int64-value, encode_int64-IsInteger, encode_int64-is_negative}
use sysmel.Integer.Magnitude.{sum_into}
use sysmel.Integer.Magnitude.Sum.{sum_into-value, sum_into_carry}
use sysmel.Integer.Tuple.{Tuple, word, large, encode_int64}
use sysmel.Integer.Value.{IsInteger, value, is_negative, decode-Decodes, decode_small_range}
use sysmel.Integer.Words.{to_nat, IsWords, replicate-IsWords, weight}
use sysmel.Prelude.Int.{ℤ, pos, negsuc, ◌+ℤ◌, ◌-ℤ◌, ◌≤ℤ◌, ltb_ℤ, signed, signed-add, int_laws}
use sysmel.Prelude.{
  ℕ, ◌+◌, ◌-◌, ◌*◌, ◌^◌, ◌≡◌, refl, sym, ◌∙◌, ap, ap₂, Bool, true, false, not, arith, ◌==◌, List,
  [], length, ◌⊎◌, inl, inr, Bool-cases, max, replicate, length-replicate,
}
use sysmel.Run.{Run, ok}
use sysmel.Word.{immediate_int_min}

sum-IsWords :
    (left right : List ℕ)
    → IsWords left
    → IsWords right
    → (n : ℕ)
    → ((n ≡ max (length left) (length right)) × ((sum_into left right []).0 ≡ 0))
      ⊎ (n ≡ max (length left) (length right) + 1)
    → (to_nat (sum_into left right (replicate n 0)).1 ≡ to_nat left + to_nat right)
      × IsWords (sum_into left right (replicate n 0)).1
sum-IsWords left right wl wr n h =
    let blank : List ℕ = replicate n 0 in
    let size : length blank ≡ n = length-replicate n 0 in
    let (total, kept, words, none_left) = sum_into-value left right wl wr blank (omega arith) in
    let dry : length blank ≡ max (length left) (length right)
        → (sum_into left right []).0 ≡ (sum_into left right blank).0 =
      sum_into_carry left right blank in
    let carry : (sum_into left right blank).0 ≡ 0 = elim h [
      | inl p ↦ sym (dry (size ∙ p.0)) ∙ p.1
      | inr p ↦ none_left (omega arith)
    ] in
    (
      omega (arith, total, ap (λ (t : ℕ). t * weight (length blank)) carry),
      words (replicate-IsWords n),
    )

-- Two magnitudes of 32-bit words are added under one sign exactly, with a word more where the
-- carry of the dry run asks for it, and the result is an integer tuple.
pub sum_magnitudes-value :
    (negative : Bool) (left right : List ℕ)
    → IsWords left
    → IsWords right
    → (value (sum_magnitudes negative left right)
        ≡ signed negative (to_nat left) +ℤ signed negative (to_nat right))
      × IsInteger (sum_magnitudes negative left right)
unfolding sum_magnitudes value
sum_magnitudes-value negative left right wl wr =
    elim (Bool-cases ((sum_into left right []).0 == 0)) [
      | inl e ↦
          let (total, words) =
            sum-IsWords left right wl wr (max (length left) (length right))
              (inl (refl, ground arith)) in
          rw e (rw total (signed-add negative (to_nat left) (to_nat right)), words)
      | inr e ↦
          let (total, words) =
            sum-IsWords left right wl wr (max (length left) (length right) + 1) (inr refl) in
          rw e (rw total (signed-add negative (to_nat left) (to_nat right)), words)
    ]

-- What an addition or subtraction returns: an integer tuple of the value `v`.
abbrev pub Computes : Run Tuple → ℤ → Type 0
Computes run v = (t : Tuple) × (run ≡ ok t) × (value t ≡ v) × IsInteger t

pub small_sum_range :
    (l r : Tuple)
    → IsInteger l
    → IsInteger r
    → both_immediate l r ≡ true
    → (small_value l ≡ value l)
      × (small_value r ≡ value r)
      × (negsuc (2 ^ 63 - 1) ≤ℤ value l +ℤ value r)
      × (value l +ℤ value r ≤ℤ pos (2 ^ 63 - 1))
      × (negsuc (2 ^ 63 - 1) ≤ℤ value l -ℤ value r)
      × (value l -ℤ value r ≤ℤ pos (2 ^ 63 - 1))
unfolding both_immediate small_value value
small_sum_range (word a) (word b) hl hr both =
    let (la, ha) = decode_small_range a hl.0 in
    let (lb, hb) = decode_small_range b hr.0 in
    (refl, refl, omega int_laws, omega int_laws, omega int_laws, omega int_laws)
small_sum_range (word a) (large s ws) hl hr both = cc
small_sum_range (large s ws) r hl hr both = cc

eq_Bool_refl : (b : Bool) → eq_Bool b b ≡ true
eq_Bool_refl true = refl
eq_Bool_refl false = refl

pub eq_Bool_not : (a b : Bool) → a ≡ not b → eq_Bool a b ≡ false
eq_Bool_not a true h = ground arith
eq_Bool_not a false h = ground arith

-- The result of a sum has the sign of a natural number if both summands have.
abbrev pub Adds : Tuple → Tuple → Run Tuple → Type 0
Adds l r run =
    (t : Tuple) × (run ≡ ok t)
    × (value t ≡ value l +ℤ value r)
    × IsInteger t
    × (is_negative l ≡ false → is_negative r ≡ false → is_negative t ≡ false)

add_signs : (a b : ℤ) → ltb_ℤ a (pos 0) ≡ false → ltb_ℤ b (pos 0) ≡ false → pos 0 ≤ℤ a +ℤ b
unfolding ◌+ℤ◌
add_signs (pos m) (pos n) h k = ground arith
add_signs (pos m) (negsuc n) h k = absurd (ground arith)
add_signs (negsuc m) b h k = absurd (ground arith)

both_natural :
    (l r : Tuple)
    → both_immediate l r ≡ true
    → is_negative l ≡ false
    → is_negative r ≡ false
    → pos 0 ≤ℤ value l +ℤ value r
unfolding both_immediate
both_natural (word a) (word b) e h k = add_signs (value (word a)) (value (word b)) h k
both_natural (word a) (large s ws) e h k = cc
both_natural (large s ws) r e h k = cc

pub add-Adds :
    (l r : Tuple)
    → IsInteger l
    → IsInteger r
    → (both_immediate l r ≡ true → immediate_int_min ≤ℤ value l +ℤ value r)
    → (both_immediate l r ≡ false → is_negative l ≡ is_negative r)
    → Adds l r (add l r)
unfolding add
add-Adds l r hl hr small same = elim (Bool-cases (both_immediate l r)) [
  | inl e ↦
      let (el, er, lo, hi, _, _) = small_sum_range l r hl hr e in
      (
        encode_int64 (value l +ℤ value r),
        rw (e, el, er),
        encode_int64-value _ (small e) hi,
        encode_int64-IsInteger _ lo hi,
        λ a b. encode_int64-is_negative _ (both_natural l r e a b) hi,
      )
  | inr e ↦
      let (dl, l_dec) = decode-Decodes l hl in
      let (dr, r_dec) = decode-Decodes r hr in
      let sign : dl.is_negative ≡ dr.is_negative = l_dec.sign ∙ same e ∙ sym r_dec.sign in
      let (total, words) =
        sum_magnitudes-value dl.is_negative dl.words dr.words l_dec.words r_dec.words in
      let right : signed dl.is_negative (to_nat dr.words) ≡ value r =
        ap (λ (b : Bool). signed b (to_nat dr.words)) sign ∙ r_dec.same in
      (
        sum_magnitudes dl.is_negative dl.words dr.words,
        rw (e, add_large, l_dec.run, r_dec.run, ← sign, eq_Bool_refl),
        total ∙ ap₂ ◌+ℤ◌ l_dec.same right,
        words,
        λ a b. unfold sum_magnitudes in l_dec.sign ∙ a,
      )
]

-- Addition of integer tuples is exact: on two small integers whose sum is not below the least
-- immediate, and on any other two integers of one sign, `add` returns an integer tuple whose value
-- is the sum of the values.
pub add-value :
    (l r : Tuple)
    → IsInteger l
    → IsInteger r
    → (both_immediate l r ≡ true → immediate_int_min ≤ℤ value l +ℤ value r)
    → (both_immediate l r ≡ false → is_negative l ≡ is_negative r)
    → Computes (add l r) (value l +ℤ value r)
add-value l r hl hr small same =
    let (t, run, total, integer, _) = add-Adds l r hl hr small same in (t, run, total, integer)

signed_minus :
    (a b : Bool) (m n : ℕ) → a ≡ not b → signed a m +ℤ signed a n ≡ signed a m -ℤ signed b n
unfolding ◌+ℤ◌ ◌-ℤ◌
signed_minus a true m n h = ground arith
signed_minus a false m n h = ground arith

-- Subtraction is exact on two small integers whose difference is not below the least immediate,
-- and on any other two integers of different signs.
pub subtract-value :
    (l r : Tuple)
    → IsInteger l
    → IsInteger r
    → (both_immediate l r ≡ true → immediate_int_min ≤ℤ value l -ℤ value r)
    → (both_immediate l r ≡ false → is_negative l ≡ not (is_negative r))
    → Computes (subtract l r) (value l -ℤ value r)
unfolding subtract
subtract-value l r hl hr small differ = elim (Bool-cases (both_immediate l r)) [
  | inl e ↦
      let (el, er, _, _, lo, hi) = small_sum_range l r hl hr e in
      (
        encode_int64 (value l -ℤ value r),
        rw (e, el, er),
        encode_int64-value _ (small e) hi,
        encode_int64-IsInteger _ lo hi,
      )
  | inr e ↦
      let (dl, l_dec) = decode-Decodes l hl in
      let (dr, r_dec) = decode-Decodes r hr in
      let signs : dl.is_negative ≡ not dr.is_negative =
        l_dec.sign ∙ differ e ∙ ap not (sym r_dec.sign) in
      let (total, words) =
        sum_magnitudes-value dl.is_negative dl.words dr.words l_dec.words r_dec.words in
      let minus =
        signed_minus dl.is_negative dr.is_negative (to_nat dl.words) (to_nat dr.words) signs in
      (
        sum_magnitudes dl.is_negative dl.words dr.words,
        rw (e, subtract_large, l_dec.run, r_dec.run, eq_Bool_not _ _ signs),
        total ∙ minus ∙ ap₂ ◌-ℤ◌ l_dec.same r_dec.same,
        words,
      )
]
