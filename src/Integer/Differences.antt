-- ===== src/Integer/Differences.antt =====
-- The paths of addition and subtraction that take the difference of two magnitudes, and what
-- sysbvm_integer_normalize makes of it.
use native.Mathlib.Decide.{dec_le, dec_lt}
use sysmel.Integer.Arithmetic.{
  normalize, subtract_magnitudes, eq_Bool, both_immediate, add, add_large, subtract, subtract_large,
}
use sysmel.Integer.Magnitude.{subtract_from_into}
use sysmel.Integer.Magnitude.Compare.{compare_magnitudes-order}
use sysmel.Integer.Magnitude.Subtract.{subtract_from_into-value}
use sysmel.Integer.Sums.{eq_Bool_not}
use sysmel.Integer.Tuple.{Tuple, word, DecodedInteger}
use sysmel.Integer.Value.{IsInteger, IsTight, value, is_negative, Decodes, decode-Decodes}
use sysmel.Integer.Words.{
  word_at, low-suc, weight, weight_le, to_nat, low-eq-to_nat, to_nat-lt, IsWords, replicate-IsWords,
}
use sysmel.Prelude.Int.{ℤ, pos, ◌+ℤ◌, ◌-ℤ◌, ◌≤ℤ◌, signed, abs_ℕ}
use sysmel.Prelude.{
  ℕ, suc, ◌+◌, ◌-◌, ◌*◌, ◌≤◌, ◌<◌, ◌≡◌, ◌≢◌, refl, sym, ◌∙◌, ap, Bool, true, false, not, arith,
  List, length, ◌⊎◌, inl, inr, replicate, length-replicate,
}
use sysmel.Run.{Run, ok}
use sysmel.Word.{immediate_int_min, encode_small, decode_small-encode_small}

-- What taking the smaller magnitude from the larger gives to `normalize`: the sign of the larger,
-- and words of the difference.
pub record IsDifference (larger smaller : DecodedInteger) (negative : Bool) (words : List ℕ)
    : Type 0 where
  pub sign : negative ≡ larger.is_negative
  pub exact : to_nat words + to_nat smaller.words ≡ to_nat larger.words
  pub strict : to_nat smaller.words < to_nat larger.words
  pub fits : IsWords words
  pub count : length words ≡ length larger.words

-- A tight magnitude is at least its top word's weight, so a larger one has no fewer words.
tight_weight : (ws : List ℕ) → IsTight ws → 1 < length ws → weight (length ws - 1) ≤ to_nat ws
tight_weight ws tight h =
    let n = length ws - 1 in
    let t : word_at ws n ≢ 0 = tight h in
    let k : weight n ≤ word_at ws n * weight n = grind arith in
    omega (arith, low-eq-to_nat (suc n) ws (omega arith), low-suc n ws)

length-le_of_lt : (s l : List ℕ) → IsWords l → IsTight s → to_nat s < to_nat l → length s ≤ length l
length-le_of_lt s l wl tight lt = elim (dec_le (length s) (length l)) [
  | yes le ↦ le
  | no n ↦ elim (dec_le (length s) 1) [
    | yes small ↦
        let none_left : length l ≡ 0 = omega arith in
        absurd (omega (arith, rw none_left at (to_nat-lt l wl)))
    | no many ↦ absurd (
        omega (
          arith,
          tight_weight s tight (omega arith),
          weight_le (length l) (length s - 1) (omega arith),
          to_nat-lt l wl,
        ))
  ]
]

larger_minus_smaller :
    (larger smaller : DecodedInteger)
    → IsWords larger.words
    → IsWords smaller.words
    → IsTight smaller.words
    → to_nat smaller.words < to_nat larger.words
    → IsDifference larger smaller larger.is_negative
        (subtract_from_into larger.words smaller.words (replicate (length larger.words) 0)).1
larger_minus_smaller larger smaller wl ws tight lt =
    let n = length larger.words in
    let size : length {A = ℕ} (replicate n 0) ≡ n = length-replicate n 0 in
    let narrower : length smaller.words ≤ n =
      length-le_of_lt smaller.words larger.words wl tight lt in
    let (exact, _, count, words) =
      subtract_from_into-value larger.words smaller.words (replicate n 0) wl ws
        (replicate-IsWords n) (rw size (omega arith)) (omega arith) in
    record { sign = refl; exact = exact; strict = lt; fits = words; count = count ∙ size }

-- The difference of two tight magnitudes is the small integer zero where they are equal, and
-- otherwise `normalize` of the larger minus the smaller under the sign of the larger.
pub subtract_magnitudes-cases :
    (l r : DecodedInteger)
    → IsWords l.words
    → IsWords r.words
    → IsTight l.words
    → IsTight r.words
    → ((to_nat l.words ≡ to_nat r.words) × (subtract_magnitudes l r ≡ word (encode_small (pos 0))))
      ⊎ ((s : Bool) × (words : List ℕ) × (subtract_magnitudes l r ≡ normalize s words)
          × (IsDifference l r s words ⊎ IsDifference r l s words))
unfolding subtract_magnitudes
subtract_magnitudes-cases l r wl wr tl tr =
    let ordered = compare_magnitudes-order l.words r.words wl wr in
    elim (dec_lt (to_nat l.words) (to_nat r.words)) [
      | yes lt ↦ inr (
        r.is_negative,
        (subtract_from_into r.words l.words (replicate (length r.words) 0)).1,
        rw ordered (ground arith),
        inr (larger_minus_smaller r l wr wl tl lt),
      )
      | no ge ↦ elim (dec_lt (to_nat r.words) (to_nat l.words)) [
        | yes gt ↦ inr (
          l.is_negative,
          (subtract_from_into l.words r.words (replicate (length l.words) 0)).1,
          rw ordered (ground arith),
          inl (larger_minus_smaller l r wl wr tr gt),
        )
        | no le ↦ inl (omega arith, rw ordered (ground arith))
      ]
    ]

word_value : (v : ℤ) → immediate_int_min ≤ℤ v → v ≤ℤ pos 0 → value (word (encode_small v)) ≡ v
unfolding value
word_value v lo hi = decode_small-encode_small v lo (omega arith)

eq_Bool_same : (a b : Bool) → a ≡ b → eq_Bool a b ≡ true
eq_Bool_same a true h = ground arith
eq_Bool_same a false h = ground arith

-- What a difference of magnitudes gives: zero for the value zero, or what `normalize` makes of
-- words that stand for the value `v` exactly.
abbrev pub Reduces : Run Tuple → ℤ → Type 0
Reduces run v =
    ((v ≡ pos 0) × (run ≡ ok (word (encode_small (pos 0)))))
    ⊎ ((s : Bool) × (words : List ℕ) × (run ≡ ok (normalize s words))
        × (signed s (to_nat words) ≡ v)
        × IsWords words)

signed_cancel : (a b : Bool) (m n : ℕ) → a ≡ not b → m ≡ n → signed a m +ℤ signed b n ≡ pos 0
unfolding ◌+ℤ◌
signed_cancel a true m n h e = ground arith
signed_cancel a false m n h e = ground arith

signed_left :
    (a b : Bool) (d m n : ℕ) → a ≡ not b → d + n ≡ m → signed a d ≡ signed a m +ℤ signed b n
unfolding ◌+ℤ◌
signed_left a true d m n h e = ground arith
signed_left a false d m n h e = ground arith

signed_right :
    (a b : Bool) (d m n : ℕ) → a ≡ not b → d + m ≡ n → signed b d ≡ signed a m +ℤ signed b n
unfolding ◌+ℤ◌
signed_right a true d m n h e = ground arith
signed_right a false d m n h e = ground arith

-- Adding two integers of different signs that are not both immediates returns the small integer
-- zero for a zero sum, and otherwise `normalize` of a sign and words that stand for the exact sum.
pub add-Reduces :
    (l r : Tuple)
    → IsInteger l
    → IsInteger r
    → both_immediate l r ≡ false
    → is_negative l ≡ not (is_negative r)
    → Reduces (add l r) (value l +ℤ value r)
unfolding add
add-Reduces l r hl hr mixed signs =
    let (dl, l_dec) = decode-Decodes l hl in
    let (dr, r_dec) = decode-Decodes r hr in
    let opposite : dl.is_negative ≡ not dr.is_negative =
      l_dec.sign ∙ signs ∙ ap not (sym r_dec.sign) in
    let step : add_large l r ≡ ok (subtract_magnitudes dl dr) =
      rw (add_large, l_dec.run, r_dec.run, eq_Bool_not _ _ opposite) refl in
    rw (mixed, step, ← l_dec.same, ← r_dec.same)
      (elim (subtract_magnitudes-cases dl dr l_dec.words r_dec.words l_dec.top r_dec.top) [
        | inl (e, run) ↦ inl (signed_cancel _ _ _ _ opposite e, ap ok run)
        | inr (s, words, run, inl d) ↦
            inr (s, words, ap ok run, rw (d.sign) (signed_left _ _ _ _ _ opposite d.exact), d.fits)
        | inr (s, words, run, inr d) ↦
            inr (s, words, ap ok run, rw (d.sign) (signed_right _ _ _ _ _ opposite d.exact), d.fits)
      ])

abs_signed : (s : Bool) (n : ℕ) → abs_ℕ (signed s n) ≡ n
abs_signed true n = ground arith
abs_signed false n = ground arith

signed_zero : (a b : Bool) (m n : ℕ) → a ≡ b → m ≡ n → signed a m -ℤ signed b n ≡ pos 0
unfolding ◌-ℤ◌
signed_zero a true m n h e = ground arith
signed_zero a false m n h e = ground arith

signed_less : (a b : Bool) (d m n : ℕ) → a ≡ b → d + n ≡ m → signed a d ≡ signed a m -ℤ signed b n
unfolding ◌-ℤ◌
signed_less a true d m n h e = ground arith
signed_less a false d m n h e = ground arith

-- The two magnitudes of a subtraction of one sign.
subtract_step :
    (l r : Tuple) (dl dr : DecodedInteger)
    → Decodes l dl
    → Decodes r dr
    → both_immediate l r ≡ false
    → is_negative l ≡ is_negative r
    → (dl.is_negative ≡ dr.is_negative) × (subtract l r ≡ ok (subtract_magnitudes dl dr))
unfolding subtract subtract_large
subtract_step l r dl dr l_dec r_dec mixed same =
    let signs : dl.is_negative ≡ dr.is_negative = l_dec.sign ∙ same ∙ sym r_dec.sign in
    (signs, rw (mixed, l_dec.run, r_dec.run, eq_Bool_same _ _ signs) refl)

-- Subtracting an integer of the same sign and no greater magnitude, not both immediates, returns
-- the small integer zero or `normalize` of a sign and words that stand for the exact difference.
pub subtract-Reduces :
    (l r : Tuple)
    → IsInteger l
    → IsInteger r
    → both_immediate l r ≡ false
    → is_negative l ≡ is_negative r
    → abs_ℕ (value r) ≤ abs_ℕ (value l)
    → Reduces (subtract l r) (value l -ℤ value r)
subtract-Reduces l r hl hr mixed same le =
    let (dl, l_dec) = decode-Decodes l hl in
    let (dr, r_dec) = decode-Decodes r hr in
    let (signs, run) = subtract_step l r dl dr l_dec r_dec mixed same in
    let le' : to_nat dr.words ≤ to_nat dl.words =
      rw (abs_signed, abs_signed) at (rw (← l_dec.same, ← r_dec.same) at le) in
    rw (run, ← l_dec.same, ← r_dec.same)
      (elim (subtract_magnitudes-cases dl dr l_dec.words r_dec.words l_dec.top r_dec.top) [
        | inl (e, done) ↦ inl (signed_zero _ _ _ _ signs e, ap ok done)
        | inr (s, words, done, inl d) ↦
            inr (s, words, ap ok done, rw (d.sign) (signed_less _ _ _ _ _ signs d.exact), d.fits)
        | inr (s, words, done, inr d) ↦
            inr (
              s,
              words,
              ap ok done,
              rw (d.sign) (absurd (omega (arith, d.exact, d.strict))),
              d.fits,
            )
      ])

-- Subtracting an integer of the same sign and a greater magnitude, not both immediates, hands
-- `normalize` the negated difference.
pub subtract_wrong_sign :
    (l r : Tuple)
    → IsInteger l
    → IsInteger r
    → both_immediate l r ≡ false
    → is_negative l ≡ is_negative r
    → abs_ℕ (value l) < abs_ℕ (value r)
    → Reduces (subtract l r) (value r -ℤ value l)
subtract_wrong_sign l r hl hr mixed same lt =
    let (dl, l_dec) = decode-Decodes l hl in
    let (dr, r_dec) = decode-Decodes r hr in
    let (signs, run) = subtract_step l r dl dr l_dec r_dec mixed same in
    let lt' : to_nat dl.words < to_nat dr.words =
      rw (abs_signed, abs_signed) at (rw (← l_dec.same, ← r_dec.same) at lt) in
    rw (run, ← l_dec.same, ← r_dec.same)
      (elim (subtract_magnitudes-cases dl dr l_dec.words r_dec.words l_dec.top r_dec.top) [
        | inl (e, done) ↦ absurd (omega arith)
        | inr (s, words, done, inl d) ↦ absurd (omega (arith, d.strict))
        | inr (s, words, done, inr d) ↦
            inr (
              s,
              words,
              ap ok done,
              rw (d.sign) (signed_less _ _ _ _ _ (sym signs) d.exact),
              d.fits,
            )
      ])
