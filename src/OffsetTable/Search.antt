-- ===== src/OffsetTable/Search.antt =====
-- The binary search, which reads inside the keys alone and finds the place that splits them.
use sysmel.OffsetTable.{search_loop, value_found, find_in}
use sysmel.OrderedCollection.Growth.{get_elem?-get_or}
use sysmel.OffsetTable.Latest.{latest, value_before, Under, Over, Sorted, latest-split}
use sysmel.Prelude.{
  ℕ, zero, suc, ◌+◌, ◌-◌, ◌/◌, ◌%◌, ◌^◌, ◌≤◌, ◌<◌, ◌≡◌, refl, ◌∙◌, true, false, ltb, leb, arith,
  List, length, get_or, low-or-high, inl, inr,
}
use sysmel.Prelude.Int.{ℤ, pos, negsuc}
use sysmel.Word.{size_in_slots-small}
use sysmel.Run.{ok}

-- The last place before `n`, and -1 where there is none.
abbrev place_before : ℕ → ℤ
place_before zero = negsuc 0
place_before (suc i) = pos i

pub middle_between : (lower upper : ℕ) → lower < upper → lower + (upper - lower) / 2 < upper
middle_between lower upper h = omega arith

-- The keys up to a place that is not above are none of them above, and those from one that is
-- above on are all above.
Under-place :
    (keys : List ℕ) (m offset : ℕ)
    → Sorted keys
    → m < length keys
    → get_or keys m 0 ≤ offset
    → Under (suc m) keys offset
unfolding Sorted Under
Under-place keys m offset sorted h low =
    λ i below. let up = sorted i m (omega arith) h in omega arith

Over-place :
    (keys : List ℕ) (m offset : ℕ) → Sorted keys → offset < get_or keys m 0 → Over m keys offset
unfolding Sorted Over
Over-place keys m offset sorted high = λ i from below. let up = sorted m i from below in omega arith

-- One round, by what the key in the middle is.
pub search_loop-low :
    (fuel lower upper : ℕ) (best : ℤ) (keys : List ℕ) (offset : ℕ)
    → lower < upper
    → upper ≤ length keys
    → get_or keys (lower + (upper - lower) / 2) 0 ≤ offset
    → search_loop (suc fuel) lower upper best keys offset
      ≡ search_loop fuel
          (suc (lower + (upper - lower) / 2))
          upper
          (pos (lower + (upper - lower) / 2))
          keys
          offset
unfolding search_loop
search_loop-low fuel lower upper best keys offset less inside low =
    let go : ltb lower upper ≡ true = ground arith in
    let between = middle_between lower upper less in
    let read = get_elem?-get_or keys (lower + (upper - lower) / 2) (omega arith) in
    let test : leb (get_or keys (lower + (upper - lower) / 2) 0) offset ≡ true = ground arith in
    rw (search_loop, go, read, test) refl

pub search_loop-high :
    (fuel lower upper : ℕ) (best : ℤ) (keys : List ℕ) (offset : ℕ)
    → lower < upper
    → upper ≤ length keys
    → offset < get_or keys (lower + (upper - lower) / 2) 0
    → search_loop (suc fuel) lower upper best keys offset
      ≡ search_loop fuel lower (lower + (upper - lower) / 2) best keys offset
unfolding search_loop
search_loop-high fuel lower upper best keys offset less inside high =
    let go : ltb lower upper ≡ true = ground arith in
    let between = middle_between lower upper less in
    let read = get_elem?-get_or keys (lower + (upper - lower) / 2) (omega arith) in
    let test : leb (get_or keys (lower + (upper - lower) / 2) 0) offset ≡ false = ground arith in
    rw (search_loop, go, read, test) refl

pub search_loop-done :
    (fuel n : ℕ) (best : ℤ) (keys : List ℕ) (offset : ℕ)
    → search_loop (suc fuel) n n best keys offset ≡ ok best
unfolding search_loop
search_loop-done fuel n best keys offset =
    let stop : ltb n n ≡ false = ground arith in rw (search_loop, stop) refl

Under-none : (keys : List ℕ) (offset : ℕ) → Under 0 keys offset
unfolding Under
Under-none keys offset = λ i below. absurd (omega arith)

Over-all : (keys : List ℕ) (offset n : ℕ) → length keys ≤ n → Over n keys offset
unfolding Over
Over-all keys offset n h = λ i from below. absurd (omega arith)

-- Where the keys below the bounds are not above the offset and those beyond them are, the search
-- ends, reads inside the keys alone, and finds the last place before the split.
search_loop-splits :
    (fuel lower upper : ℕ) (keys : List ℕ) (offset : ℕ)
    → Sorted keys
    → upper - lower < fuel
    → lower ≤ upper
    → upper ≤ length keys
    → Under lower keys offset
    → Over upper keys offset
    → (n : ℕ) × (n ≤ length keys)
      × Under n keys offset
      × Over n keys offset
      × (search_loop fuel lower upper (place_before lower) keys offset ≡ ok (place_before n))
search_loop-splits zero lower upper keys offset sorted enough order inside under over =
    absurd (omega arith)
search_loop-splits (suc fuel) lower upper keys offset sorted enough order inside under over =
    let m : ℕ = lower + (upper - lower) / 2 in
    let key : ℕ = get_or keys m 0 in
    elim (low-or-high upper lower) [
      | inl e ↦
          let same : upper ≡ lower = omega arith in
          (
            lower,
            omega arith,
            under,
            rw (← same) over,
            rw same (search_loop-done fuel lower (place_before lower) keys offset),
          )
      | inr less ↦
          let between : m < upper = middle_between lower upper less in
          elim (low-or-high key offset) [
            | inl low ↦
                let step =
                  search_loop-low fuel lower upper (place_before lower) keys offset less inside
                    low in
                let (n, bound, below, above, run) =
                  search_loop-splits fuel (suc m) upper keys offset sorted (omega arith)
                    (omega arith) inside (Under-place keys m offset sorted (omega arith) low)
                    over in
                (n, bound, below, above, step ∙ run)
            | inr high ↦
                let step =
                  search_loop-high fuel lower upper (place_before lower) keys offset less inside
                    high in
                let (n, bound, below, above, run) =
                  search_loop-splits fuel lower m keys offset sorted (omega arith) (omega arith)
                    (omega arith) under (Over-place keys m offset sorted high) in
                (n, bound, below, above, step ∙ run)
          ]
    ]

value_found-place_before :
    (n : ℕ) (values : List ℕ)
    → n ≤ length values
    → length values < 2 ^ 29
    → value_found values (place_before n) ≡ ok (value_before n values 0)
unfolding value_found
value_found-place_before zero values h few = refl
value_found-place_before (suc i) values h few =
    let read = size_in_slots-small (length values) few in
    let inside : leb (length values) i ≡ false = ground arith in
    rw (read, inside, get_elem?-get_or values i (omega arith)) refl

-- On sorted keys, as many as the values and fewer than 2^29, the binary search reads inside the two
-- arrays alone and returns the value of the last key that is not above the offset, null if none is.
pub find_in-latest :
    (keys values : List ℕ) (offset : ℕ)
    → Sorted keys
    → length keys ≡ length values
    → length values < 2 ^ 29
    → find_in keys values offset ≡ ok (latest keys values offset 0)
unfolding find_in
find_in-latest keys values offset sorted same few =
    let size = length values in
    let read = size_in_slots-small size few in
    let upper : size % 2 ^ 32 ≡ size = omega arith in
    let (n, bound, under, over, run) =
      search_loop-splits (suc size) 0 size keys offset sorted (omega arith) (omega arith)
        (omega arith) (Under-none keys offset) (Over-all keys offset size (omega arith)) in
    let found = value_found-place_before n values (omega arith) few in
    let split = latest-split keys values n offset 0 same bound under over in
    rw (read, upper, run, found, split) refl
