-- ===== src/Integer/Parse/Natural.antt =====
-- Tuples that stand for natural numbers, their products and sums.
use sysmel.Integer.Arithmetic.{add, multiply, both_immediate}
use sysmel.Integer.Products.{multiply-Multiplies}
use sysmel.Integer.Sums.{add-Adds}
use sysmel.Integer.Tuple.{Tuple, word, large}
use sysmel.Integer.Value.{IsInteger, value, is_negative, decode_small_range}
use sysmel.Prelude.Int.{pos, ◌≤ℤ◌, ◌+ℤ◌, ◌*ℤ◌}
use sysmel.Prelude.{ℕ, ◌+◌, ◌*◌, ◌^◌, ◌<◌, ◌≡◌, sym, ◌∙◌, ap₂, true, false, arith}
use sysmel.Run.{ok}
use sysmel.Word.{encode_small, decode_small-encode_small, encode_small-integer, immediate_int_max}

-- The tuple stands for the natural number `n`.
pub record IsNatural (t : Tuple) (n : ℕ) : Type 0 where
  pub integer : IsInteger t
  pub same : value t ≡ pos n
  pub sign : is_negative t ≡ false

pub small-IsNatural : (n : ℕ) → n < 2 ^ 59 → IsNatural (word (encode_small (pos n))) n
unfolding value
small-IsNatural n h =
    let same = decode_small-encode_small (pos n) (omega arith) (omega arith) in
    record { integer = encode_small-integer (pos n); same = same; sign = rw same (ground arith) }

pub pos-mul : (m n : ℕ) → pos m *ℤ pos n ≡ pos (m * n)
unfolding ◌*ℤ◌
pos-mul m n = ground arith

pub pos-add : (m n : ℕ) → pos m +ℤ pos n ≡ pos (m + n)
unfolding ◌+ℤ◌
pos-add m n = ground arith

-- A natural number that an immediate stands for.
pub immediate_bound : (l r : Tuple) (m : ℕ) → IsNatural l m → both_immediate l r ≡ true → m < 2 ^ 59
unfolding both_immediate value
immediate_bound (word a) (word b) m h both =
    let (low, high) = decode_small_range a h.integer.0 in
    let bound : pos m ≤ℤ immediate_int_max = rw h.same at high in omega arith
immediate_bound (word a) (large s ws) m h both = cc
immediate_bound (large s ws) r m h both = cc

-- Products of natural numbers, however large, where two immediates have one that an int64_t holds;
-- and sums.
pub multiply-IsNatural :
    (l r : Tuple) (m n : ℕ)
    → IsNatural l m
    → IsNatural r n
    → (both_immediate l r ≡ true → m * n < 2 ^ 63)
    → (t : Tuple) × (multiply l r ≡ ok t) × IsNatural t (m * n)
multiply-IsNatural l r m n hl hr small =
    let product : value l *ℤ value r ≡ pos (m * n) = ap₂ ◌*ℤ◌ hl.same hr.same ∙ pos-mul m n in
    let (t, run, same, integer, sign) =
      multiply-Multiplies l r hl.integer hr.integer
        (λ e. let bound = small e in (rw product (omega arith), rw product (omega arith))) in
    (t, run, record { integer = integer; same = same ∙ product; sign = sign hl.sign hr.sign })

pub add-IsNatural :
    (l r : Tuple) (m n : ℕ)
    → IsNatural l m
    → IsNatural r n
    → (t : Tuple) × (add l r ≡ ok t) × IsNatural t (m + n)
add-IsNatural l r m n hl hr =
    let total : value l +ℤ value r ≡ pos (m + n) = ap₂ ◌+ℤ◌ hl.same hr.same ∙ pos-add m n in
    let (t, run, same, integer, sign) =
      add-Adds l r hl.integer hr.integer (λ _. rw total (omega arith))
        (λ _. hl.sign ∙ sym hr.sign) in
    (t, run, record { integer = integer; same = same ∙ total; sign = sign hl.sign hr.sign })
