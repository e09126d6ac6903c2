-- ===== src/OffsetTable/Bounds.antt =====
-- The binary search on any keys, in order or not.
use sysmel.OffsetTable.{search_loop, value_found, find_in}
use sysmel.OffsetTable.Search.{middle_between, search_loop-low, search_loop-high, search_loop-done}
use sysmel.OrderedCollection.Access.{Holds}
use sysmel.OrderedCollection.Growth.{get_elem?-get_or}
use sysmel.Prelude.{
  ℕ, zero, suc, ◌+◌, ◌-◌, ◌/◌, ◌%◌, ◌^◌, ◌≤◌, ◌<◌, ◌≡◌, ◌⊎◌, refl, ap, ◌∙◌, arith, leb, List,
  length, get_or, low-or-high, Bool-cases, inl, inr,
}
use sysmel.Prelude.Int.{ℤ, pos, negsuc}
use sysmel.Word.{size_in_slots, size_in_slots-le}
use sysmel.Run.{Run, ok, ◌>>=◌}

search_loop-ends :
    (fuel lower upper : ℕ) (best : ℤ) (keys : List ℕ) (offset : ℕ)
    → upper - lower < fuel
    → lower ≤ upper
    → upper ≤ length keys
    → (found : ℤ) × (search_loop fuel lower upper best keys offset ≡ ok found)
search_loop-ends zero lower upper best keys offset enough order inside = absurd (omega arith)
search_loop-ends (suc fuel) lower upper best keys offset enough order inside =
    let m : ℕ = lower + (upper - lower) / 2 in
    elim (low-or-high upper lower) [
      | inl e ↦
          let same : upper ≡ lower = omega arith in
          (best, rw same (search_loop-done fuel lower best keys offset))
      | inr less ↦
          let between : m < upper = middle_between lower upper less in
          elim (low-or-high (get_or keys m 0) offset) [
            | inl low ↦
                let step = search_loop-low fuel lower upper best keys offset less inside low in
                let (found, run) =
                  search_loop-ends fuel (suc m) upper (pos m) keys offset (omega arith)
                    (omega arith) inside in
                (found, step ∙ run)
            | inr high ↦
                let step = search_loop-high fuel lower upper best keys offset less inside high in
                let (found, run) =
                  search_loop-ends fuel lower m best keys offset (omega arith) (omega arith)
                    (omega arith) in
                (found, step ∙ run)
          ]
    ]

value_found-Holds :
    (values : List ℕ) (best : ℤ)
    → (x : ℕ) × (value_found values best ≡ ok x) × ((x ≡ 0) ⊎ Holds x values)
unfolding value_found Holds
value_found-Holds values (negsuc n) = (0, refl, inl refl)
value_found-Holds values (pos i) = elim (Bool-cases (leb (size_in_slots (length values)) i)) [
  | inl e ↦ (0, rw e refl, inl refl)
  | inr e ↦
      let at_most = size_in_slots-le (length values) in
      let below : i < size_in_slots (length values) = ground arith in
      let inside : i < length values = omega arith in
      let read = get_elem?-get_or values i inside in
      (get_or values i 0, rw (e, read) refl, inr (i, read))
]

-- On any keys, sorted or not, that are as many as the values or more, the search ends, reads inside
-- the two arrays alone, and returns null or one of the values; this holds for values of any count, of
-- which the search sees those that the header of their array says.
pub find_in-Holds :
    (keys values : List ℕ) (offset : ℕ)
    → length values ≤ length keys
    → (x : ℕ) × (find_in keys values offset ≡ ok x) × ((x ≡ 0) ⊎ Holds x values)
unfolding find_in
find_in-Holds keys values offset enough =
    let size = size_in_slots (length values) in
    let at_most = size_in_slots-le (length values) in
    let (best, run) =
      search_loop-ends (suc size) 0 (size % 2 ^ 32) (negsuc 0) keys offset (omega arith)
        (omega arith) (omega arith) in
    let (x, found, kept) = value_found-Holds values best in
    (x, ap (λ (m : Run ℤ). m >>= value_found values) run ∙ found, kept)
