-- ===== src/ByteStream.antt =====
-- lib/sysbvm/byteStream.c: the growing array of bytes. A null storage is the list without bytes,
-- and the calls are those on a stream that is not null. lib/sysbvm/stringStream.c has the same code.
pub mod Growth
pub mod Contents
use sysmel.Prelude.{
  ℕ, zero, suc, ◌+◌, ◌*◌, ◌/◌, ◌%◌, ◌^◌, true, false, ltb, leb, ◌==◌, ◌&&◌, if◌then◌else◌, List, [],
  ◌∷◌, ◌++◌, length, set, take, drop, replicate,
}
use sysmel.Run.{Run, ok, fault, ◌>>=◌}
use sysmel.Word.{size_in_bytes}

pub record ByteStream : Type 0 where
  pub size : ℕ
  pub storage : List ℕ

abbrev pub create : ByteStream
create = record { size = 0; storage = [] }

-- `memcpy(target + at, source, count)` on two objects
unfoldable pub memcpy : List ℕ → ℕ → List ℕ → ℕ → Run (List ℕ)
memcpy target at source count =
    if leb count (length source) && leb (at + count) (length target)
    then ok (take at target ++ (take count source ++ drop (at + count) target))
    else fault

-- `while(newCapacity < requiredCapacity) newCapacity *= 2`, on fuel
unfoldable pub capacity_loop : ℕ → ℕ → ℕ → Run ℕ
capacity_loop zero capacity required = fault
capacity_loop (suc fuel) capacity required = elim (ltb capacity required) [
  | true ↦ capacity_loop fuel (capacity * 2 % 2 ^ 64) required
  | false ↦ ok capacity
]

abbrev pub first_capacity : ℕ → ℕ
first_capacity old = let doubled = old * 2 % 2 ^ 64 in if ltb doubled 16 then 16 else doubled

-- The storage that replaces one that is too small for the required count.
unfoldable pub increase_capacity_to_at_least : ByteStream → ℕ → Run ByteStream
unfolding capacity_loop memcpy
increase_capacity_to_at_least c required =
    capacity_loop (suc required) (first_capacity (size_in_bytes (length c.storage))) required
    >>= λ capacity. memcpy (replicate capacity 0) 0 c.storage c.size >>= λ storage.
        ok (record { size = c.size; storage = storage })

unfoldable pub with_room : ByteStream → ℕ → Run ByteStream
unfolding increase_capacity_to_at_least
with_room c required = elim (ltb (size_in_bytes (length c.storage)) required) [
  | true ↦ increase_capacity_to_at_least c required
  | false ↦ ok c
]

-- `storage->bytes[size] = value`, and the new size.
unfoldable pub put_last : ByteStream → ℕ → Run ByteStream
put_last c value =
    if ltb c.size (length c.storage)
    then ok (record { size = suc c.size; storage = set c.storage c.size value })
    else fault

unfoldable pub next_put : ByteStream → ℕ → Run ByteStream
unfolding with_room put_last
next_put c value = with_room c ((c.size + 1) % 2 ^ 64) >>= λ d. put_last d value

unfoldable pub next_put_string_with_size : ByteStream → ℕ → List ℕ → Run ByteStream
unfolding with_room memcpy
next_put_string_with_size c count bytes =
    if count == 0
    then ok c
    else (with_room c ((c.size + count) % 2 ^ 64) >>= λ d.
        memcpy d.storage c.size bytes count >>= λ storage.
        ok (record { size = c.size + count; storage = storage }))

unfoldable pub next_put_byte_array : ByteStream → List ℕ → Run ByteStream
unfolding next_put_string_with_size
next_put_byte_array c bytes = next_put_string_with_size c (size_in_bytes (length bytes)) bytes

-- The bytes of an object that its header admits.
abbrev pub readable : List ℕ → List ℕ
readable bytes = take (size_in_bytes (length bytes)) bytes

unfoldable pub as_byte_array : ByteStream → Run (List ℕ)
unfolding memcpy
as_byte_array c = memcpy (replicate c.size 0) 0 c.storage c.size >>= λ bytes. ok (readable bytes)

-- The slots, of eight bytes, of the storage.
unfoldable pub get_capacity : ByteStream → ℕ
get_capacity c = size_in_bytes (length c.storage) / 8
