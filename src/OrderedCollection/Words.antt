-- ===== src/OrderedCollection/Words.antt =====
-- The words that a collection of tuples is turned to.
use sysmel.OrderedCollection.{OrderedCollection, word_loop, as_array, as_word_array}
use sysmel.OrderedCollection.Growth.{IsValid, elements, IsSized, copied, copied-take, length-copied}
use sysmel.Prelude.{
  ℕ, zero, suc, true, ltb, length-set, Bool-cases, inl, inr, ◌+◌, ◌≤◌, ◌<◌, ◌≡◌, refl, ap, ◌∙◌, sym,
  arith, some, List, [], ◌∷◌, length, get_elem?, get_or, set, take, map, replicate, length-take,
  take-whole, length-map, length-replicate, length-set, ltb, true, Bool-cases, inl, inr,
}
use sysmel.Run.{ok}
use sysmel.Word.{size_in_slots-small, uint32_decode}

take-map : (f : ℕ → ℕ) (n : ℕ) (l : List ℕ) → take n (map f l) ≡ map f (take n l)
take-map f zero l = refl
take-map f (suc n) [] = refl
take-map f (suc n) (x ∷ l) = ap (λ (r : List ℕ). f x ∷ r) (take-map f n l)

read_mapped :
    (f : ℕ → ℕ) (l : List ℕ) (i : ℕ)
    → i < length l
    → (x : ℕ) × (get_elem? l i ≡ some x) × (f x ≡ get_or (map f l) i 0)
read_mapped f [] i h = absurd (omega arith)
read_mapped f (x ∷ l) zero h = (x, refl, refl)
read_mapped f (x ∷ l) (suc i) h = read_mapped f l i (omega arith)

-- The loop copies the decoded words, and reads inside the storage.
word_loop-copied :
    (memory : ℕ → ℕ) (rounds i : ℕ) (source target : List ℕ)
    → i + rounds ≤ length source
    → i + rounds ≤ length target
    → word_loop memory rounds i source target
      ≡ ok (copied rounds i (map (uint32_decode memory) source) target)
unfolding word_loop
word_loop-copied memory zero i source target h k = refl
word_loop-copied memory (suc rounds) i source target h k =
    let (x, read, decoded) = read_mapped (uint32_decode memory) source i (omega arith) in
    let kept = length-set target i (get_or (map (uint32_decode memory) source) i 0) in
    let next =
      word_loop-copied memory rounds (suc i) source
        (set target i (get_or (map (uint32_decode memory) source) i 0)) (omega arith)
        (omega arith) in
    let inside : ltb i (length target) ≡ true = ground arith in
    rw (word_loop, read, inside, decoded) next

words-elements :
    (memory : ℕ → ℕ) (size : ℕ) (storage : List ℕ)
    → size ≤ length storage
    → as_word_array memory (record { size = size; storage = storage })
      ≡ ok (map (uint32_decode memory) (take size storage))
unfolding as_word_array
words-elements memory zero [] h = refl
words-elements memory (suc size) [] h = absurd (omega arith)
words-elements memory size (x ∷ rest) h =
    let source : List ℕ = map (uint32_decode memory) (x ∷ rest) in
    let target : List ℕ = replicate size 0 in
    let size_source = length-map (x ∷ rest) (uint32_decode memory) in
    let size_target = length-replicate {A = ℕ} size 0 in
    let run = word_loop-copied memory size 0 (x ∷ rest) target (omega arith) (omega arith) in
    let grown = length-copied size 0 source target in
    let kept = copied-take size 0 source target (omega arith) (omega arith) refl in
    let start : 0 + size ≡ size = omega arith in
    let same = rw start at kept in
    let whole = take-whole (copied size 0 source target) size (omega arith) in
    run ∙ ap ok (sym whole ∙ same ∙ take-map (uint32_decode memory) size (x ∷ rest))

-- The word array of a collection has the decoded word of each element of its sequence.
pub as_word_array-elements :
    (memory : ℕ → ℕ) (c : OrderedCollection)
    → IsValid c
    → as_word_array memory c ≡ ok (map (uint32_decode memory) (elements c))
unfolding elements IsValid
as_word_array-elements memory c h = words-elements memory c.size c.storage h

pub length-elements : (c : OrderedCollection) → IsValid c → length (elements c) ≡ c.size
unfolding elements IsValid
length-elements c h = let short = length-take c.size c.storage in omega (arith, short)

-- The array of a collection is its sequence.
pub as_array-elements : (c : OrderedCollection) → IsValid c → IsSized c → as_array c ≡ elements c
unfolding as_array elements IsValid IsSized
as_array-elements c h sized =
    let read = size_in_slots-small (length c.storage) sized in
    elim (Bool-cases (ltb c.size (length c.storage))) [
      | inl e ↦ rw (read, e) refl
      | inr e ↦ let same : length c.storage ≡ c.size = ground arith in rw (read, e, same) refl
    ]
