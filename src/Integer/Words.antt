-- ===== src/Integer/Words.antt =====
-- The natural number that a little-endian array of 32-bit words stands for.
use native.Mathlib.Decide.{ℕ_discrete}
use native.Mathlib.Nat.{pow-suc, add-zero, mul-one, mul_assoc, one-le-pow, pow-le-pow_right}
use sysmel.Prelude.{
  ℕ, zero, suc, ◌+◌, ◌-◌, ◌*◌, ◌^◌, ◌≤◌, ◌<◌, ◌≡◌, refl, ap, arith, List, [], ◌∷◌, ◌++◌, length,
  get_or, set, take, drop, replicate, ◌==◌, if◌then◌else◌,
}

-- `i < wordCount ? words[i] : 0`
abbrev pub word_at : List ℕ → ℕ → ℕ
word_at words i = get_or words i 0

-- The value of the first `n` words.
unfoldable pub low : ℕ → List ℕ → ℕ
low zero words = 0
low (suc n) words = low n words + word_at words n * 2 ^ (32 * n)

-- The value of all the words.
unfoldable pub to_nat : List ℕ → ℕ
unfolding low
to_nat words = low (length words) words

-- Every word fits 32 bits.
abbrev pub IsWords : List ℕ → Type 0
IsWords words = (i : ℕ) → word_at words i < 2 ^ 32

-- 2 ^ (32 * n): what a one in word `n` is worth.
abbrev pub weight : ℕ → ℕ
weight n = 2 ^ (32 * n)

pow-add : (a b : ℕ) → 2 ^ (a + b) ≡ 2 ^ a * 2 ^ b
pow-add a zero = simp (add-zero, mul-one)
pow-add a (suc b) =
    let e : a + suc b ≡ suc (a + b) = omega arith in
    rw (e, pow-suc, pow-add a b, pow-suc) (mul_assoc (2 ^ a) (2 ^ b) 2)

pub weight-add : (m n : ℕ) → weight (m + n) ≡ weight m * weight n
weight-add m n =
    rw (let h : 32 * (m + n) ≡ 32 * m + 32 * n = omega arith in h) (pow-add (32 * m) (32 * n))

pub weight-suc : (n : ℕ) → weight (suc n) ≡ 2 ^ 32 * weight n
weight-suc n = rw (let h : 32 * suc n ≡ 32 + 32 * n = omega arith in h) (pow-add 32 (32 * n))

pub weight-pos : (n : ℕ) → 0 < weight n
weight-pos n = one-le-pow (32 * n) 2 (omega arith)

pub weight_le : (m n : ℕ) → m ≤ n → weight m ≤ weight n
weight_le m n h = pow-le-pow_right (omega arith) (omega arith)

pub word_at-set :
    (ws : List ℕ) (i j v : ℕ)
    → i < length ws
    → word_at (set ws i v) j ≡ (if i == j then v else word_at ws j)
word_at-set [] i j v h = absurd (omega arith)
word_at-set (w ∷ ws) zero zero v h = refl
word_at-set (w ∷ ws) zero (suc j) v h = ground arith
word_at-set (w ∷ ws) (suc i) zero v h = ground arith
word_at-set (w ∷ ws) (suc i) (suc j) v h = ground (arith, word_at-set ws i j v)

pub word_at_beyond : (ws : List ℕ) (i : ℕ) → length ws ≤ i → word_at ws i ≡ 0
word_at_beyond [] i h = refl
word_at_beyond (w ∷ ws) zero h = absurd (omega arith)
word_at_beyond (w ∷ ws) (suc i) h = word_at_beyond ws i (omega arith)

pub set-IsWords :
    (ws : List ℕ) (i v : ℕ) → i < length ws → v < 2 ^ 32 → IsWords ws → IsWords (set ws i v)
set-IsWords ws i v h hv w j = ground (arith, word_at-set ws i j v, w j)

pub low-set_beyond :
    (n : ℕ) (ws : List ℕ) (i v : ℕ) → n ≤ i → i < length ws → low n (set ws i v) ≡ low n ws
unfolding low
low-set_beyond zero ws i v h k = refl
low-set_beyond (suc n) ws i v h k =
    let same : word_at (set ws i v) n ≡ word_at ws n = ground (arith, word_at-set ws i n v) in
    rw (low-set_beyond n ws i v (omega arith) k, same)

pub low-suc : (n : ℕ) (ws : List ℕ) → low (suc n) ws ≡ low n ws + word_at ws n * weight n
unfolding low
low-suc n ws = refl

-- A write at `n` decides the value of the first `n + 1` words.
pub low-set :
    (n : ℕ) (ws : List ℕ) (v : ℕ)
    → n < length ws
    → low (suc n) (set ws n v) ≡ low n ws + v * weight n
low-set n ws v h =
    let same : word_at (set ws n v) n ≡ v = ground (arith, word_at-set ws n n v) in
    rw (low-suc, low-set_beyond n ws n v (omega arith) h, same)

pub low-lt : (n : ℕ) (ws : List ℕ) → IsWords ws → low n ws < weight n
unfolding low
low-lt zero ws h = omega arith
low-lt (suc n) ws h = grind (arith, weight-suc n, low-lt n ws h, h n, word_le)
  where
    word_le : word_at ws n * weight n + weight n ≤ 2 ^ 32 * weight n
    word_le = let p = h n in grind arith

pub low_beyond : (k : ℕ) (ws : List ℕ) → low (length ws + k) ws ≡ to_nat ws
unfolding to_nat
low_beyond zero ws = simp add-zero
low_beyond (suc k) ws =
    let e : length ws + suc k ≡ suc (length ws + k) = omega arith in
    rw (e, low-suc, low_beyond k ws, word_at_beyond ws (length ws + k) (omega arith)) (omega arith)

pub low-eq-to_nat : (n : ℕ) (ws : List ℕ) → length ws ≤ n → low n ws ≡ to_nat ws
low-eq-to_nat n ws h =
    let e : n ≡ length ws + (n - length ws) = omega arith in rw e (low_beyond (n - length ws) ws)

pub low-cons : (n : ℕ) (w : ℕ) (ws : List ℕ) → low (suc n) (w ∷ ws) ≡ w + 2 ^ 32 * low n ws
unfolding low
low-cons zero w ws = omega arith
low-cons (suc n) w ws =
    rw (low-cons n w ws) (omega (arith, ap (λ (t : ℕ). word_at ws n * t) (weight-suc n)))

pub to_nat-cons : (w : ℕ) (ws : List ℕ) → to_nat (w ∷ ws) ≡ w + 2 ^ 32 * to_nat ws
unfolding to_nat
to_nat-cons w ws = low-cons (length ws) w ws

-- The number splits at every word.
pub to_nat-take-drop :
    (i : ℕ) (ws : List ℕ) → i ≤ length ws → to_nat ws ≡ low i ws + weight i * to_nat (drop i ws)
to_nat-take-drop zero ws h = unfold low in omega arith
to_nat-take-drop (suc i) [] h = absurd (omega arith)
to_nat-take-drop (suc i) (w ∷ ws) h =
    let ih = to_nat-take-drop i ws (omega arith) in
    rw (to_nat-cons, low-cons, ih)
      (omega (arith, ap (λ (t : ℕ). t * to_nat (drop i ws)) (weight-suc i)))

pub to_nat-take-append :
    (i : ℕ) (ws tail : List ℕ)
    → i ≤ length ws
    → to_nat (take i ws ++ tail) ≡ low i ws + weight i * to_nat tail
to_nat-take-append zero ws tail h = unfold low in omega arith
to_nat-take-append (suc i) [] tail h = absurd (omega arith)
to_nat-take-append (suc i) (w ∷ ws) tail h =
    let ih = to_nat-take-append i ws tail (omega arith) in
    rw (to_nat-cons, low-cons, ih) (omega (arith, ap (λ (t : ℕ). t * to_nat tail) (weight-suc i)))

pub take-append-IsWords :
    (i : ℕ) (ws tail : List ℕ) → IsWords ws → IsWords tail → IsWords (take i ws ++ tail)
take-append-IsWords zero ws tail h k j = k j
take-append-IsWords (suc i) [] tail h k j = k j
take-append-IsWords (suc i) (w ∷ ws) tail h k zero = h 0
take-append-IsWords (suc i) (w ∷ ws) tail h k (suc j) =
    take-append-IsWords i ws tail (λ n. h (suc n)) k j

pub drop-IsWords : (i : ℕ) (ws : List ℕ) → IsWords ws → IsWords (drop i ws)
drop-IsWords zero ws h j = h j
drop-IsWords (suc i) [] h j = omega arith
drop-IsWords (suc i) (w ∷ ws) h j = drop-IsWords i ws (λ n. h (suc n)) j

pub replicate-IsWords : (n : ℕ) → IsWords (replicate n 0)
replicate-IsWords zero j = omega arith
replicate-IsWords (suc n) zero = omega arith
replicate-IsWords (suc n) (suc j) = replicate-IsWords n j

pub to_nat-replicate : (n : ℕ) → to_nat (replicate n 0) ≡ 0
to_nat-replicate zero = unfold to_nat low in refl
to_nat-replicate (suc n) = rw (to_nat-cons, to_nat-replicate n)

pub to_nat-lt : (ws : List ℕ) → IsWords ws → to_nat ws < weight (length ws)
unfolding to_nat
to_nat-lt ws h = low-lt (length ws) ws h

-- A write anywhere below `j` trades one word for another.
pub low-set_at :
    (j : ℕ) (ws : List ℕ) (i v : ℕ)
    → i < j
    → j ≤ length ws
    → low j (set ws i v) + word_at ws i * weight i ≡ low j ws + v * weight i
unfolding low
low-set_at zero ws i v h k = absurd (omega arith)
low-set_at (suc j) ws i v h k = elim (ℕ_discrete i j) [
  | yes e ↦ rw (e, low-set_beyond j ws j v (omega arith) k) (ground (arith, word_at-set ws j j v))
  | no n ↦
      let same : word_at (set ws i v) j ≡ word_at ws j = ground (arith, word_at-set ws i j v) in
      rw same (omega (arith, low-set_at j ws i v (omega arith) (omega arith)))
]
