-- ===== src/OrderedCollection/Growth.antt =====
-- A collection holds the sequence of what was added to it, through every growth of its storage.
use sysmel.OrderedCollection.{
  OrderedCollection, copy_loop, new_capacity, increase_capacity, put_last, add,
}
use sysmel.Prelude.{
  ℕ, zero, suc, ◌+◌, ◌*◌, ◌^◌, ◌≤◌, ◌<◌, ◌≡◌, refl, ap, ◌∙◌, true, ltb, leb, arith, List, [], ◌∷◌,
  ◌++◌, length, some, get_elem?, get_or, set, take, drop, ap₂, replicate, length-set,
  length-replicate, Bool-cases, inl, inr,
}
use sysmel.Run.{ok}
use sysmel.Word.{size_in_slots, size_in_slots-small}

-- The size is not above the capacity.
unfoldable pub IsValid : OrderedCollection → Type 0
IsValid c = c.size ≤ length c.storage

-- The header of the storage holds its size: fewer than 2^29 slots of eight bytes.
unfoldable pub IsSized : OrderedCollection → Type 0
IsSized c = length c.storage < 2 ^ 29

-- The sequence that a collection stands for.
unfoldable pub elements : OrderedCollection → List ℕ
elements c = take c.size c.storage

take-set_next :
    (i : ℕ) (s d : List ℕ)
    → i < length s
    → i < length d
    → take i d ≡ take i s
    → take (suc i) (set d i (get_or s i 0)) ≡ take (suc i) s
take-set_next i [] d hs hd e = absurd (omega arith)
take-set_next i (x ∷ s) [] hs hd e = absurd (omega arith)
take-set_next zero (x ∷ s) (y ∷ d) hs hd e = refl
take-set_next (suc i) (x ∷ s) (y ∷ d) hs hd e =
    let first : y ≡ x = ap (λ (l : List ℕ). get_or l 0 0) e in
    let rest : take i d ≡ take i s = ap (λ (l : List ℕ). drop 1 l) e in
    ap₂ (λ (z : ℕ) (l : List ℕ). z ∷ l) first (take-set_next i s d (omega arith) (omega arith) rest)

-- The list that a copy inside both lists ends with.
abbrev pub copied : ℕ → ℕ → List ℕ → List ℕ → List ℕ
copied zero i source target = target
copied (suc rounds) i source target =
    copied rounds (suc i) source (set target i (get_or source i 0))

pub get_elem?-get_or : (l : List ℕ) (i : ℕ) → i < length l → get_elem? l i ≡ some (get_or l i 0)
get_elem?-get_or [] i h = absurd (omega arith)
get_elem?-get_or (x ∷ l) zero h = refl
get_elem?-get_or (x ∷ l) (suc i) h = get_elem?-get_or l i (omega arith)

copy_loop-copied :
    (rounds i : ℕ) (s d : List ℕ)
    → i + rounds ≤ length s
    → i + rounds ≤ length d
    → copy_loop rounds i s d ≡ ok (copied rounds i s d)
unfolding copy_loop
copy_loop-copied zero i s d hs hd = refl
copy_loop-copied (suc rounds) i s d hs hd =
    let read = get_elem?-get_or s i (omega arith) in
    let inside : ltb i (length d) ≡ true = ground arith in
    let size = length-set d i (get_or s i 0) in
    let next =
      copy_loop-copied rounds (suc i) s (set d i (get_or s i 0)) (omega arith) (omega arith) in
    rw (copy_loop, read, inside) next

pub copied-take :
    (rounds i : ℕ) (s d : List ℕ)
    → i + rounds ≤ length s
    → i + rounds ≤ length d
    → take i d ≡ take i s
    → take (i + rounds) (copied rounds i s d) ≡ take (i + rounds) s
copied-take zero i s d hs hd e = let z : i + 0 ≡ i = omega arith in rw z e
copied-take (suc rounds) i s d hs hd e =
    let next = take-set_next i s d (omega arith) (omega arith) e in
    let size = length-set d i (get_or s i 0) in
    let z : i + suc rounds ≡ suc i + rounds = omega arith in
    rw z (copied-take rounds (suc i) s (set d i (get_or s i 0)) (omega arith) (omega arith) next)

pub length-copied : (rounds i : ℕ) (s d : List ℕ) → length (copied rounds i s d) ≡ length d
length-copied zero i s d = refl
length-copied (suc rounds) i s d = length-copied rounds (suc i) s _ ∙ length-set d i _

pub take-set_last :
    (n x : ℕ) (l : List ℕ) → n < length l → take (suc n) (set l n x) ≡ take n l ++ x ∷ []
take-set_last n x [] h = absurd (omega arith)
take-set_last zero x (y ∷ l) h = refl
take-set_last (suc n) x (y ∷ l) h = ap (λ (r : List ℕ). y ∷ r) (take-set_last n x l (omega arith))

put_last-elements :
    (c : OrderedCollection) (x : ℕ)
    → c.size < length c.storage
    → (d : OrderedCollection) × (put_last c x ≡ ok d)
      × IsValid d
      × (length d.storage ≡ length c.storage)
      × (elements d ≡ elements c ++ x ∷ [])
unfolding put_last IsValid elements
put_last-elements c x h =
    let room : ltb c.size (length c.storage) ≡ true = ground arith in
    let same = length-set c.storage c.size x in
    (
      record { size = suc c.size; storage = set c.storage c.size x },
      rw room refl,
      omega arith,
      same,
      take-set_last c.size x c.storage h,
    )

-- A larger storage with the same elements and room for one more, of a size that the header holds.
increase_capacity-elements :
    (c : OrderedCollection)
    → IsValid c
    → IsSized c
    → c.size < 2 ^ 28
    → length c.storage ≤ c.size
    → (d : OrderedCollection) × (increase_capacity c ≡ ok d)
      × (d.size ≡ c.size)
      × (d.size < length d.storage)
      × IsSized d
      × (elements d ≡ elements c)
unfolding increase_capacity IsValid IsSized elements new_capacity
increase_capacity-elements c h sized few full =
    let read = size_in_slots-small (length c.storage) sized in
    let capacity = new_capacity (length c.storage) in
    let twice : length c.storage * 2 ≤ capacity = ground arith in
    let four : 4 ≤ capacity = ground arith in
    let bound : capacity < 2 ^ 29 = ground arith in
    let fresh : length (replicate {A = ℕ} capacity 0) ≡ capacity = length-replicate capacity 0 in
    let grown = length-copied c.size 0 c.storage (replicate capacity 0) in
    let kept =
      copied-take c.size 0 c.storage (replicate capacity 0) (omega arith) (omega arith) refl in
    let run =
      copy_loop-copied c.size 0 c.storage (replicate capacity 0) (omega arith) (omega arith) in
    let z : 0 + c.size ≡ c.size = omega arith in
    (
      record { size = c.size; storage = copied c.size 0 c.storage (replicate capacity 0) },
      rw (read, run) refl,
      refl,
      omega arith,
      omega arith,
      rw z at kept,
    )

-- Adding to a collection of fewer than 2^28 elements, whose size is not above its capacity and whose
-- capacity is below the 2^29 slots that the header of an object can hold, succeeds, through any growth
-- of the storage, keeps both bounds, and appends the element to the sequence.
pub add-elements :
    (c : OrderedCollection) (x : ℕ)
    → IsValid c
    → IsSized c
    → c.size < 2 ^ 28
    → (d : OrderedCollection) × (add c x ≡ ok d)
      × IsValid d
      × IsSized d
      × (elements d ≡ elements c ++ x ∷ [])
unfolding add IsValid IsSized
add-elements c x h sized few =
    let read = size_in_slots-small (length c.storage) sized in
    elim (Bool-cases (leb (length c.storage) c.size)) [
      | inr e ↦
          let room : c.size < length c.storage = ground arith in
          let (d, run, valid, same, more) = put_last-elements c x room in
          (d, rw (read, e) run, valid, omega arith, more)
      | inl e ↦
          let full : length c.storage ≤ c.size = ground arith in
          let (b, grow, size, room, sized', same) = increase_capacity-elements c h sized few full in
          let (d, run, valid, kept, more) = put_last-elements b x room in
          let test : leb (size_in_slots (length c.storage)) c.size ≡ true = rw read e in
          (d, rw (test, grow) run, valid, omega arith, rw (← same) more)
    ]
