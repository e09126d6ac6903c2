-- ===== src/Scanner/Strings.antt =====
-- lib/sysbvm/scanner.c: the bytes that sysbvm_scanner_tokenAsString writes, against the size that
-- countSizeRequiredForString allocates for them.
use sysmel.Prelude.{
  ℕ, zero, suc, ◌≤◌, ◌≡◌, refl, ap, ◌==◌, arith, List, [], ◌∷◌, length, take, Bool-cases, inl, inr,
}
use sysmel.Scanner.Convert.{count_size, unescape_bytes}

-- The bytes that are written for a string, its escapes replaced, are as many as the loop that
-- counts them finds in the same bytes, for a text that ends in an escape too: what is allocated is
-- filled exactly.
pub length-unescape_bytes :
    (size : ℕ) (text : List ℕ) → length (unescape_bytes size text) ≡ count_size (take size text)
unfolding unescape_bytes count_size
length-unescape_bytes zero text = refl
length-unescape_bytes (suc size) [] = refl
length-unescape_bytes (suc zero) (c ∷ []) = refl
length-unescape_bytes (suc (suc size)) (c ∷ []) = refl
length-unescape_bytes (suc zero) (c ∷ d ∷ text) = refl
length-unescape_bytes (suc (suc size)) (c ∷ d ∷ text) = elim (Bool-cases (c == 92)) [
  | inl e ↦ rw e (ap suc (length-unescape_bytes size text))
  | inr e ↦ rw e (ap suc (length-unescape_bytes (suc size) (d ∷ text)))
]

-- An escaped byte makes a string shorter, never longer.
pub count_size-le : (text : List ℕ) → count_size text ≤ length text
unfolding count_size
count_size-le [] = omega arith
count_size-le (c ∷ []) = omega arith
count_size-le (c ∷ d ∷ text) = elim (Bool-cases (c == 92)) [
  | inl e ↦ let rest = count_size-le text in rw e (omega arith)
  | inr e ↦ let rest = count_size-le (d ∷ text) in rw e (omega arith)
]
