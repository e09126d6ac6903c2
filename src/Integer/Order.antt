-- ===== src/Integer/Order.antt =====
-- Comparison of integer tuples.
use sysmel.Integer.Arithmetic.{
  both_immediate, compare_integers, compare_large, eq_Bool, equals, not_equals, less_than,
  less_equals, greater_than, greater_equals,
}
use sysmel.Integer.Magnitude.Compare.{order, compare_magnitudes-order}
use sysmel.Integer.Sums.{small_sum_range}
use sysmel.Integer.Tuple.{Tuple, DecodedInteger}
use sysmel.Integer.Value.{IsInteger, value, is_negative, decode-Decodes}
use sysmel.Integer.Words.{to_nat, IsWords}
use sysmel.Prelude.Int.{ℤ, pos, negsuc, ◌-ℤ◌, leb_ℤ, ltb_ℤ, eq_ℤ, signed}
use sysmel.Prelude.{
  ℕ, zero, suc, ◌<◌, ◌≡◌, ◌≢◌, refl, sym, ◌∙◌, ap, Bool, true, false, not, arith, if◌then◌else◌,
  Bool-cases, inl, inr,
}
use sysmel.Run.{ok}

-- -1, 0 or 1 by the order of two integers.
abbrev pub order_ℤ : ℤ → ℤ → ℤ
order_ℤ a b = if ltb_ℤ a b then negsuc 0 else if ltb_ℤ b a then pos 1 else pos 0

-- A negative sign is not that of a zero.
abbrev pub IsCanonical : Tuple → Type 0
IsCanonical t = is_negative t ≡ true → value t ≢ pos 0

compare_large-order :
    (l r : DecodedInteger)
    → IsWords l.words
    → IsWords r.words
    → (l.is_negative ≡ true → 0 < to_nat l.words)
    → (r.is_negative ≡ true → 0 < to_nat r.words)
    → compare_large l r
      ≡ order_ℤ (signed l.is_negative (to_nat l.words)) (signed r.is_negative (to_nat r.words))
unfolding compare_large ◌-ℤ◌
compare_large-order l r wl wr hl hr =
    rw (compare_magnitudes-order l.words r.words wl wr)
      (by_sign l.is_negative r.is_negative (to_nat l.words) (to_nat r.words) hl hr)
  where
    by_sign :
        (a b : Bool) (m n : ℕ)
        → (a ≡ true → 0 < m)
        → (b ≡ true → 0 < n)
        → (if eq_Bool a b
            then (if a then pos 0 -ℤ order m n else order m n)
            else if a
            then negsuc 0
            else pos 1)
          ≡ order_ℤ (signed a m) (signed b n)
    by_sign true true m n ha hb = ground arith
    by_sign true false m n ha hb = ground (arith, ha refl)
    by_sign false true m n ha hb = ground (arith, hb refl)
    by_sign false false m n ha hb = ground arith

signed_nonzero : (s : Bool) (n : ℕ) → s ≡ true → signed s n ≢ pos 0 → 0 < n
signed_nonzero true zero h k = absurd (k refl)
signed_nonzero true (suc n) h k = omega arith
signed_nonzero false n h k = cc

-- The comparison is that of the values, for integers without a negative zero.
pub compare_integers-order :
    (l r : Tuple)
    → IsInteger l
    → IsInteger r
    → IsCanonical l
    → IsCanonical r
    → compare_integers l r ≡ ok (order_ℤ (value l) (value r))
unfolding compare_integers
compare_integers-order l r hl hr cl cr = elim (Bool-cases (both_immediate l r)) [
  | inl e ↦ let (el, er, _, _, _, _) = small_sum_range l r hl hr e in rw (e, el, er)
  | inr e ↦
      let (dl, l_dec) = decode-Decodes l hl in
      let (dr, r_dec) = decode-Decodes r hr in
      rw (e, l_dec.run, r_dec.run, ← l_dec.same, ← r_dec.same)
        (ap ok (
          compare_large-order dl dr l_dec.words r_dec.words
            (λ s.
              signed_nonzero dl.is_negative (to_nat dl.words) s
                (λ z. cl (sym l_dec.sign ∙ s) (sym l_dec.same ∙ z)))
            (λ s.
              signed_nonzero dr.is_negative (to_nat dr.words) s
                (λ z. cr (sym r_dec.sign ∙ s) (sym r_dec.same ∙ z)))))
]

-- The six tests decide the order of the values.
pub record Tests (l r : Tuple) : Type 0 where
  pub equal : equals l r ≡ ok (eq_ℤ (value l) (value r))
  pub different : not_equals l r ≡ ok (not (eq_ℤ (value l) (value r)))
  pub less : less_than l r ≡ ok (ltb_ℤ (value l) (value r))
  pub less_or_equal : less_equals l r ≡ ok (leb_ℤ (value l) (value r))
  pub greater : greater_than l r ≡ ok (ltb_ℤ (value r) (value l))
  pub greater_or_equal : greater_equals l r ≡ ok (leb_ℤ (value r) (value l))

order_tests :
    (a b : ℤ)
    → (eq_ℤ (order_ℤ a b) (pos 0) ≡ eq_ℤ a b)
      × (ltb_ℤ (order_ℤ a b) (pos 0) ≡ ltb_ℤ a b)
      × (leb_ℤ (order_ℤ a b) (pos 0) ≡ leb_ℤ a b)
      × (ltb_ℤ (pos 0) (order_ℤ a b) ≡ ltb_ℤ b a)
      × (leb_ℤ (pos 0) (order_ℤ a b) ≡ leb_ℤ b a)
order_tests a b = (ground arith, ground arith, ground arith, ground arith, ground arith)

-- On integers without a negative zero each of the six relational tests returns, and answers by the
-- order of the values.
pub compare_integers-Tests :
    (l r : Tuple) → IsInteger l → IsInteger r → IsCanonical l → IsCanonical r → Tests l r
unfolding equals not_equals less_than less_equals greater_than greater_equals
compare_integers-Tests l r hl hr cl cr =
    let c = compare_integers-order l r hl hr cl cr in
    let (e, lt, le, gt, ge) = order_tests (value l) (value r) in
    record {
      equal = rw c (ap ok e);
      different = rw c (ap (λ (b : Bool). ok (not b)) e);
      less = rw c (ap ok lt);
      less_or_equal = rw c (ap ok le);
      greater = rw c (ap ok gt);
      greater_or_equal = rw c (ap ok ge);
    }
