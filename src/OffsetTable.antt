-- ===== src/OffsetTable.antt =====
-- lib/sysbvm/orderedOffsetTable.c: the table from the offsets of a program to values, made by a
-- builder and read by a binary search. Null is the word 0, and a null reference is `none`.
pub mod Latest
pub mod Search
pub mod Bounds
pub mod Build
pub mod Add
pub mod Find
use sysmel.OrderedCollection.{OrderedCollection, at_index, add, as_array, as_word_array}
use sysmel.OrderedCollection
use sysmel.Prelude.{
  ℕ, zero, suc, ◌+◌, ◌-◌, ◌/◌, ◌%◌, ◌^◌, true, false, ltb, leb, ◌==◌, if◌then◌else◌, Option, none,
  some, List, [], ◌∷◌, length, get_elem?,
}
use sysmel.Prelude.Int.{ℤ, pos, negsuc}
use sysmel.Run.{Run, ok, fault, ◌>>=◌}
use sysmel.Word.{size_in_slots, uint32_encode}

pub record OffsetTableBuilder : Type 0 where
  pub keys : OrderedCollection
  pub values : OrderedCollection

-- The keys are an array of 32-bit words, and the values one of tuples.
pub record OffsetTable : Type 0 where
  pub keys : Option (List ℕ)
  pub values : List ℕ

abbrev pub builder_create : OffsetTableBuilder
builder_create = record { keys = OrderedCollection.create; values = OrderedCollection.create }

-- The two calls of `sysbvm_orderedCollection_add`.
unfoldable pub append_entry : OffsetTableBuilder → ℕ → ℕ → Run OffsetTableBuilder
append_entry b offset value = add b.keys (uint32_encode offset) >>= λ keys.
    add b.values value >>= λ values. ok (record { keys = keys; values = values })

unfoldable pub with_offset_add_value : OffsetTableBuilder → ℕ → ℕ → Run OffsetTableBuilder
unfolding append_entry
with_offset_add_value b offset value =
    if ltb 0 b.keys.size
    then (at_index b.values (b.keys.size - 1) >>= λ last_value.
        if last_value == value then ok b else append_entry b offset value)
    else append_entry b offset value

unfoldable pub finish : (ℕ → ℕ) → OffsetTableBuilder → Run (Option OffsetTable)
finish memory b =
    if b.keys.size == 0
    then ok none
    else as_word_array memory b.keys >>= λ keys.
        ok (some (record { keys = some keys; values = as_array b.values }))

-- The binary search, on fuel above the distance of the bounds, which are at most `upper` and so
-- do not wrap around.
unfoldable pub search_loop : ℕ → ℕ → ℕ → ℤ → List ℕ → ℕ → Run ℤ
search_loop zero lower upper best offsets offset = fault
search_loop (suc fuel) lower upper best offsets offset = elim (ltb lower upper) [
  | false ↦ ok best
  | true ↦
      let middle = lower + (upper - lower) / 2 in
      elim (get_elem? offsets middle) [
        | none ↦ fault
        | some entry ↦ elim (leb entry offset) [
          | true ↦ search_loop fuel (suc middle) upper (pos middle) offsets offset
          | false ↦ search_loop fuel lower middle best offsets offset
        ]
      ]
]

-- The tests of `bestFound` and the read.
unfoldable pub value_found : List ℕ → ℤ → Run ℕ
value_found values (negsuc n) = ok 0
value_found values (pos i) =
    if leb (size_in_slots (length values)) i
    then ok 0
    else elim (get_elem? values i) [ some x ↦ ok x | none ↦ fault ]

unfoldable pub find_in : List ℕ → List ℕ → ℕ → Run ℕ
unfolding search_loop value_found
find_in offsets values offset =
    let size = size_in_slots (length values) in
    search_loop (suc size) 0 (size % 2 ^ 32) (negsuc 0) offsets offset >>= λ best.
    value_found values best

unfoldable pub find_value_with_offset : Option OffsetTable → ℕ → Run ℕ
unfolding find_in
find_value_with_offset none offset = ok 0
find_value_with_offset (some t) offset = elim t.keys [
  | none ↦ ok 0
  | some keys ↦ find_in keys t.values offset
]
