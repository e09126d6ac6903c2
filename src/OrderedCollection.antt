-- ===== src/OrderedCollection.antt =====
-- lib/sysbvm/orderedCollection.c: the growing array of tuples. A tuple is its word, and a null
-- storage is the list without slots. The calls are those on a collection that is not null.
pub mod Growth
pub mod Access
pub mod Words
use sysmel.Prelude.{
  ℕ, zero, suc, ◌+◌, ◌*◌, Bool, true, false, ltb, leb, ◌==◌, if◌then◌else◌, Option, none, some,
  List, [], ◌∷◌, length, get_elem?, get_or, set, take, replicate,
}
use sysmel.Word.{size_in_slots, uint32_decode}
use sysmel.Run.{Run, ok, err, fault, index_out_of_bounds, ◌>>=◌}

pub record OrderedCollection : Type 0 where
  pub size : ℕ
  pub storage : List ℕ

abbrev pub create : OrderedCollection
create = record { size = 0; storage = [] }

-- `newStorage->elements[i] = oldStorage->elements[i]`, from `i` on.
unfoldable pub copy_loop : ℕ → ℕ → List ℕ → List ℕ → Run (List ℕ)
copy_loop zero i source target = ok target
copy_loop (suc rounds) i source target = elim (get_elem? source i) [
  | none ↦ fault
  | some x ↦ elim (ltb i (length target)) [
    | true ↦ copy_loop rounds (suc i) source (set target i x)
    | false ↦ fault
  ]
]

unfoldable pub new_capacity : ℕ → ℕ
new_capacity old = if ltb (old * 2) 4 then 4 else old * 2

-- The old capacity is what the header of the storage says.
unfoldable pub increase_capacity : OrderedCollection → Run OrderedCollection
unfolding copy_loop new_capacity
increase_capacity c =
    let capacity = new_capacity (size_in_slots (length c.storage)) in
    copy_loop c.size 0 c.storage (replicate capacity 0) >>= λ storage.
    ok (record { size = c.size; storage = storage })

-- `storage->elements[size] = element`, and the new size.
unfoldable pub put_last : OrderedCollection → ℕ → Run OrderedCollection
put_last c x =
    if ltb c.size (length c.storage)
    then ok (record { size = suc c.size; storage = set c.storage c.size x })
    else fault

unfoldable pub add : OrderedCollection → ℕ → Run OrderedCollection
unfolding increase_capacity put_last
add c x =
    if leb (size_in_slots (length c.storage)) c.size
    then (increase_capacity c >>= λ d. put_last d x)
    else put_last c x

unfoldable pub at_index : OrderedCollection → ℕ → Run ℕ
at_index c i =
    if leb c.size i
    then err index_out_of_bounds
    else elim (get_elem? c.storage i) [ some x ↦ ok x | none ↦ fault ]

unfoldable pub at_put : OrderedCollection → ℕ → ℕ → Run OrderedCollection
at_put c i x =
    if leb c.size i
    then err index_out_of_bounds
    else if ltb i (length c.storage)
    then ok (record c { storage = set c.storage i x })
    else fault

-- The loop over the elements from the first on.
unfoldable pub includes_loop : ℕ → List ℕ → ℕ → Bool
includes_loop zero xs x = false
includes_loop (suc rounds) [] x = false
includes_loop (suc rounds) (y ∷ xs) x =
    let rest = includes_loop rounds xs x in if y == x then true else rest

unfoldable pub identity_includes : OrderedCollection → ℕ → Bool
unfolding includes_loop
identity_includes c x = includes_loop c.size c.storage x

unfoldable pub as_array : OrderedCollection → List ℕ
as_array c =
    let all = size_in_slots (length c.storage) in
    take (if ltb c.size all then c.size else all) c.storage

-- `words[i] = sysbvm_tuple_uint32_decode(...)`, from `i` on.
unfoldable pub word_loop : (ℕ → ℕ) → ℕ → ℕ → List ℕ → List ℕ → Run (List ℕ)
word_loop memory zero i source target = ok target
word_loop memory (suc rounds) i source target = elim (get_elem? source i) [
  | none ↦ fault
  | some x ↦ elim (ltb i (length target)) [
    | true ↦ word_loop memory rounds (suc i) source (set target i (uint32_decode memory x))
    | false ↦ fault
  ]
]

unfoldable pub as_word_array : (ℕ → ℕ) → OrderedCollection → Run (List ℕ)
unfolding word_loop
as_word_array memory c = elim c.storage [
  | [] ↦ ok []
  | x ∷ rest ↦ word_loop memory c.size 0 c.storage (replicate c.size 0)
]
