-- ===== src/Integer/Encode.antt =====
-- Machine integers into tuples and back.
use sysmel.Integer.Tuple.{large, encode_int64, encode_uint64, decode_int64, decode_uint64}
use sysmel.Integer.Value.{IsInteger, value, is_negative}
use sysmel.Integer.Words.{low, IsWords, to_nat, to_nat-cons}
use sysmel.Prelude.Int.{ℤ, pos, negsuc, ◌-ℤ◌, ◌≤ℤ◌, leb_ℤ, ltb_ℤ, signed}
use sysmel.Prelude.{
  ℕ, zero, suc, ◌+◌, ◌-◌, ◌*◌, ◌/◌, ◌%◌, ◌^◌, ◌≤◌, ◌<◌, ◌≡◌, arith, Bool, true, false, [], ◌∷◌,
  ◌&&◌, Bool-cases, inl, inr, ◌∙◌, ap,
}
use sysmel.Run.{ok}
use sysmel.Word.{
  to_bits, of_bits, shift_right, immediate_int_min, immediate_int_max, decode_small-encode_small,
  encode_small-is_immediate, encode_small-integer,
}

to_nat_pair : (a b : ℕ) → to_nat (a ∷ b ∷ []) ≡ a + 2 ^ 32 * b
to_nat_pair a b = rw (to_nat-cons, to_nat-cons) (unfold to_nat low in omega arith)

abbrev in_range : ℤ → Bool
in_range v = leb_ℤ immediate_int_min v && leb_ℤ v immediate_int_max

in_range_bounds : (v : ℤ) → in_range v ≡ true → (immediate_int_min ≤ℤ v) × (v ≤ℤ immediate_int_max)
in_range_bounds (pos n) h = ground arith
in_range_bounds (negsuc n) h = ground arith

-- The low and high words of a value that needs 64 bits.
large_words : (v : ℤ) → to_nat (to_bits 32 v ∷ to_bits 32 (shift_right v 32) ∷ []) ≡ to_bits 64 v
large_words (pos n) = to_nat_pair _ _ ∙ omega arith
large_words (negsuc n) = to_nat_pair _ _ ∙ omega arith

encode_int64_outside :
    (v : ℤ)
    → in_range v ≡ false
    → negsuc (2 ^ 63 - 1) ≤ℤ v
    → v ≤ℤ pos (2 ^ 63 - 1)
    → encode_int64 v ≡ large (ltb_ℤ v (pos 0)) (to_bits 32 v ∷ to_bits 32 (shift_right v 32) ∷ [])
unfolding encode_int64 ◌-ℤ◌
encode_int64_outside (pos n) e lo hi = ground arith
encode_int64_outside (negsuc n) e lo hi = ground arith

pair-IsWords : (v : ℤ) → IsWords (to_bits 32 v ∷ to_bits 32 (shift_right v 32) ∷ [])
pair-IsWords (pos n) zero = omega arith
pair-IsWords (pos n) (suc zero) = omega arith
pair-IsWords (pos n) (suc (suc i)) = omega arith
pair-IsWords (negsuc n) zero = omega arith
pair-IsWords (negsuc n) (suc zero) = omega arith
pair-IsWords (negsuc n) (suc (suc i)) = omega arith

pub encode_int64-IsInteger :
    (v : ℤ) → negsuc (2 ^ 63 - 1) ≤ℤ v → v ≤ℤ pos (2 ^ 63 - 1) → IsInteger (encode_int64 v)
encode_int64-IsInteger v lo hi = elim (Bool-cases (in_range v)) [
  | inl e ↦ unfold encode_int64 in rw e (encode_small-integer v)
  | inr e ↦ rw (encode_int64_outside v e lo hi) (pair-IsWords v)
]

signed_bits :
    (v : ℤ) → pos 0 ≤ℤ v → v ≤ℤ pos (2 ^ 63 - 1) → signed (ltb_ℤ v (pos 0)) (to_bits 64 v) ≡ v
signed_bits (pos n) lo hi = ground arith
signed_bits (negsuc n) lo hi = absurd (omega arith)

-- Every int64_t from the least immediate up is encoded to a tuple of that value.
pub encode_int64-value :
    (v : ℤ) → immediate_int_min ≤ℤ v → v ≤ℤ pos (2 ^ 63 - 1) → value (encode_int64 v) ≡ v
unfolding value
encode_int64-value v lo hi = elim (Bool-cases (in_range v)) [
  | inl e ↦
      unfold encode_int64 in
      rw e (let (a, b) = in_range_bounds v e in decode_small-encode_small v a b)
  | inr e ↦
      rw (encode_int64_outside v e (omega arith) hi, large_words v)
        (signed_bits v (not_negative v e lo) hi)
]
  where
    not_negative : (u : ℤ) → in_range u ≡ false → immediate_int_min ≤ℤ u → pos 0 ≤ℤ u
    not_negative (pos n) e lo = omega arith
    not_negative (negsuc n) e lo = ground arith

-- An int64_t v below the least immediate is encoded to a large integer of the value -(2^64) - v.
pub encode_int64_below :
    (v : ℤ)
    → negsuc (2 ^ 63 - 1) ≤ℤ v
    → ltb_ℤ v immediate_int_min ≡ true
    → value (encode_int64 v) ≡ negsuc (2 ^ 64 - 1) -ℤ v
unfolding value
encode_int64_below (pos n) lo h = ground arith
encode_int64_below (negsuc n) lo h =
    rw (encode_int64_outside (negsuc n) (ground arith) lo (omega arith), large_words (negsuc n))
      (unfold ◌-ℤ◌ in ground arith)

decode_int64_outside :
    (u : ℤ)
    → in_range u ≡ false
    → immediate_int_min ≤ℤ u
    → u ≤ℤ pos (2 ^ 63 - 1)
    → decode_int64 (large (ltb_ℤ u (pos 0)) (to_bits 32 u ∷ to_bits 32 (shift_right u 32) ∷ []))
      ≡ ok u
unfolding decode_int64
decode_int64_outside (pos n) e lo hi = ground arith
decode_int64_outside (negsuc n) e lo hi = absurd (ground arith)

-- Every int64_t from the least immediate up comes back from the tuple that it is encoded to.
pub decode_int64-encode_int64 :
    (v : ℤ) → immediate_int_min ≤ℤ v → v ≤ℤ pos (2 ^ 63 - 1) → decode_int64 (encode_int64 v) ≡ ok v
decode_int64-encode_int64 v lo hi = elim (Bool-cases (in_range v)) [
  | inl e ↦
      let (a, b) = in_range_bounds v e in
      unfold encode_int64 decode_int64 in
      rw (e, encode_small-is_immediate v, decode_small-encode_small v a b)
  | inr e ↦ rw (encode_int64_outside v e (omega arith) hi) (decode_int64_outside v e lo hi)
]

encode_uint64_outside :
    (n : ℕ)
    → n < 2 ^ 64
    → in_range (of_bits 64 n) ≡ false
    → encode_uint64 n ≡ large false ((n % 2 ^ 32) ∷ (n / 2 ^ 32 % 2 ^ 32) ∷ [])
unfolding encode_uint64
encode_uint64_outside n h e = ground arith

to_bits-of_bits : (n : ℕ) → n < 2 ^ 64 → to_bits 64 (of_bits 64 n) ≡ n
to_bits-of_bits n h = ground arith

-- Every uint64_t comes back from the tuple that it is encoded to.
pub decode_uint64-encode_uint64 : (n : ℕ) → n < 2 ^ 64 → decode_uint64 (encode_uint64 n) ≡ ok n
unfolding decode_uint64
decode_uint64-encode_uint64 n h = elim (Bool-cases (in_range (of_bits 64 n))) [
  | inl e ↦
      let (a, b) = in_range_bounds (of_bits 64 n) e in
      unfold encode_uint64 in
      rw (e, encode_small-is_immediate (of_bits 64 n), decode_small-encode_small (of_bits 64 n) a b)
        (ap ok (to_bits-of_bits n h))
  | inr e ↦ rw (encode_uint64_outside n h e) (ap ok pair)
]
  where
    pair : to_bits 64 (of_bits 64 (n % 2 ^ 32 + n / 2 ^ 32 % 2 ^ 32 * 2 ^ 32)) ≡ n
    pair =
        rw (let e : n % 2 ^ 32 + n / 2 ^ 32 % 2 ^ 32 * 2 ^ 32 ≡ n = omega arith in e)
          (to_bits-of_bits n h)

-- A uint64_t is encoded with its value unless it is one of the top 2 ^ 59.
pub encode_uint64-value : (n : ℕ) → n < 2 ^ 64 - 2 ^ 59 → value (encode_uint64 n) ≡ pos n
unfolding value
encode_uint64-value n h = elim (Bool-cases (in_range (of_bits 64 n))) [
  | inl e ↦
      let (a, b) = in_range_bounds (of_bits 64 n) e in
      let same : of_bits 64 n ≡ pos n = ground arith in
      unfold encode_uint64 in rw (e, decode_small-encode_small (of_bits 64 n) a b) same
  | inr e ↦ rw (encode_uint64_outside n (omega arith) e, to_nat_pair) (ap pos (omega arith))
]

-- Each of the top 2^59 values of a uint64_t is encoded to the negative small integer that is 2^64
-- less.
pub encode_uint64_top :
    (n : ℕ) → 2 ^ 64 - 2 ^ 59 ≤ n → n < 2 ^ 64 → value (encode_uint64 n) ≡ negsuc (2 ^ 64 - 1 - n)
unfolding value
encode_uint64_top n lo hi =
    let e : in_range (of_bits 64 n) ≡ true = ground arith in
    let (a, b) = in_range_bounds (of_bits 64 n) e in
    let same : of_bits 64 n ≡ negsuc (2 ^ 64 - 1 - n) = ground arith in
    unfold encode_uint64 in rw (e, decode_small-encode_small (of_bits 64 n) a b) same

-- The tuple of a natural number has no negative sign.
pub encode_int64-is_negative :
    (v : ℤ) → pos 0 ≤ℤ v → v ≤ℤ pos (2 ^ 63 - 1) → is_negative (encode_int64 v) ≡ false
unfolding value
encode_int64-is_negative v lo hi = elim (Bool-cases (in_range v)) [
  | inl e ↦
      let (a, b) = in_range_bounds v e in
      unfold encode_int64 in rw (e, decode_small-encode_small v a b) (natural v lo)
  | inr e ↦ rw (encode_int64_outside v e (omega arith) hi) (natural v lo)
]
  where
    natural : (u : ℤ) → pos 0 ≤ℤ u → ltb_ℤ u (pos 0) ≡ false
    natural (pos n) h = ground arith
    natural (negsuc n) h = absurd (omega arith)
