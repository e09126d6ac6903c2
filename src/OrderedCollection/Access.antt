-- ===== src/OrderedCollection/Access.antt =====
-- Reading, writing and searching a collection, against the sequence that it stands for.
use sysmel.OrderedCollection.{OrderedCollection, at_index, at_put, includes_loop, identity_includes}
use sysmel.OrderedCollection.Growth.{IsValid, elements}
use sysmel.Prelude.{
  ℕ, zero, suc, ◌≤◌, ◌<◌, ◌≡◌, refl, ap, true, false, ltb, leb, ◌==◌, arith, none, some, List, [],
  ◌∷◌, length, ◌↔◌, get_elem?, set, take, length-set, Bool-cases, inl, inr,
}
use sysmel.Run.{ok, err, index_out_of_bounds}

get_elem?-take : (n i : ℕ) (l : List ℕ) → i < n → get_elem? (take n l) i ≡ get_elem? l i
get_elem?-take zero i l h = absurd (omega arith)
get_elem?-take (suc n) i [] h = refl
get_elem?-take (suc n) zero (x ∷ l) h = refl
get_elem?-take (suc n) (suc i) (x ∷ l) h = get_elem?-take n i l (omega arith)

get_elem?-take_end : (n i : ℕ) (l : List ℕ) → n ≤ i → get_elem? (take n l) i ≡ none
get_elem?-take_end zero i l h = refl
get_elem?-take_end (suc n) i [] h = refl
get_elem?-take_end (suc n) zero (x ∷ l) h = absurd (omega arith)
get_elem?-take_end (suc n) (suc i) (x ∷ l) h = get_elem?-take_end n i l (omega arith)

inside_some : (i : ℕ) (l : List ℕ) → i < length l → (x : ℕ) × (get_elem? l i ≡ some x)
inside_some i [] h = absurd (omega arith)
inside_some zero (x ∷ l) h = (x, refl)
inside_some (suc i) (x ∷ l) h = inside_some i l (omega arith)

-- Reading a collection whose size is not above its capacity gives the element of its sequence at
-- the index, and the error for an index past the end.
pub at_index-elements :
    (c : OrderedCollection) (i : ℕ)
    → IsValid c
    → at_index c i
      ≡ elim (get_elem? (elements c) i) [ some x ↦ ok x | none ↦ err index_out_of_bounds ]
unfolding at_index elements IsValid
at_index-elements c i h = elim (Bool-cases (leb c.size i)) [
  | inl e ↦ rw (e, get_elem?-take_end c.size i c.storage (ground arith)) refl
  | inr e ↦
      let below : i < c.size = ground arith in
      let (x, at) = inside_some i c.storage (omega arith) in
      rw (e, get_elem?-take c.size i c.storage below, at) refl
]

take-set : (n i x : ℕ) (l : List ℕ) → i < n → take n (set l i x) ≡ set (take n l) i x
take-set zero i x l h = absurd (omega arith)
take-set (suc n) i x [] h = refl
take-set (suc n) zero x (y ∷ l) h = refl
take-set (suc n) (suc i) x (y ∷ l) h = ap (λ (r : List ℕ). y ∷ r) (take-set n i x l (omega arith))

-- Writing at an index below the size of a collection within its capacity succeeds, keeps the size
-- within the capacity, and changes the one element of the sequence.
pub at_put-elements :
    (c : OrderedCollection) (i x : ℕ)
    → IsValid c
    → i < c.size
    → (d : OrderedCollection) × (at_put c i x ≡ ok d)
      × IsValid d
      × (elements d ≡ set (elements c) i x)
unfolding at_put elements IsValid
at_put-elements c i x h below =
    let inside : leb c.size i ≡ false = ground arith in
    let room : ltb i (length c.storage) ≡ true = ground arith in
    let same = length-set c.storage i x in
    (
      record c { storage = set c.storage i x },
      rw (inside, room) refl,
      omega arith,
      take-set c.size i x c.storage below,
    )

-- Some place of the list holds the value.
unfoldable pub Holds : ℕ → List ℕ → Type 0
Holds x l = (i : ℕ) × (get_elem? l i ≡ some x)

none_not_some : {x : ℕ} → none ≡ some x → ⊥
none_not_some h = grind arith

some_injective : {x y : ℕ} → some x ≡ some y → x ≡ y
some_injective h = grind arith

includes_loop-Holds : (n : ℕ) (l : List ℕ) (x : ℕ) → includes_loop n l x ≡ true → Holds x (take n l)
unfolding includes_loop Holds
includes_loop-Holds zero l x h = absurd (ground arith)
includes_loop-Holds (suc n) [] x h = absurd (ground arith)
includes_loop-Holds (suc n) (y ∷ l) x h = elim (Bool-cases (y == x)) [
  | inl e ↦ (0, ap some (ground arith))
  | inr e ↦ let (i, at) = includes_loop-Holds n l x (rw e at h) in (suc i, at)
]

Holds-includes_loop :
    (n : ℕ) (l : List ℕ) (x i : ℕ) → get_elem? (take n l) i ≡ some x → includes_loop n l x ≡ true
unfolding includes_loop
Holds-includes_loop zero l x i h = absurd (none_not_some h)
Holds-includes_loop (suc n) [] x i h = absurd (none_not_some h)
Holds-includes_loop (suc n) (y ∷ l) x zero h =
    let equal : y ≡ x = some_injective h in
    let same : (y == x) ≡ true = ground arith in rw same refl
Holds-includes_loop (suc n) (y ∷ l) x (suc i) h = elim (Bool-cases (y == x)) [
  | inl e ↦ rw e refl
  | inr e ↦ rw e (Holds-includes_loop n l x i h)
]

-- The search by identity answers true exactly when some place of the sequence holds the value.
pub identity_includes-Holds :
    (c : OrderedCollection) (x : ℕ) → (identity_includes c x ≡ true) ↔ Holds x (elements c)
unfolding identity_includes elements Holds
identity_includes-Holds c x =
    (includes_loop-Holds c.size c.storage x, λ (i, at). Holds-includes_loop c.size c.storage x i at)
