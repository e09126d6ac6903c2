-- ===== src/ByteStream/Contents.antt =====
-- A byte stream stands for the bytes that were put into it.
use sysmel.ByteStream.{
  ByteStream, create, memcpy, with_room, put_last, next_put, next_put_string_with_size,
  next_put_byte_array, as_byte_array,
}
use sysmel.ByteStream.Growth.{IsValid, contents, memcpy-inside, with_room-contents}
use sysmel.OrderedCollection.Growth.{take-set_last}
use sysmel.Prelude.{
  ℕ, suc, ◌+◌, ◌%◌, ◌^◌, ◌≤◌, ◌<◌, ◌≡◌, ◌≢◌, refl, ap, ◌∙◌, sym, true, false, ltb, ◌==◌, arith,
  List, [], ◌∷◌, ◌++◌, length, length-append, set, take, replicate, length-set, length-replicate,
  take-whole,
}
use sysmel.Run.{Run, ok, ◌>>=◌}
use sysmel.Word.{size_in_bytes}

-- What a call that puts bytes comes to.
unfoldable pub Puts : ByteStream → Run ByteStream → List ℕ → Type 0
Puts c run bytes =
    (d : ByteStream) × (run ≡ ok d)
    × IsValid d
    × (d.size ≡ c.size + length bytes)
    × (contents d ≡ contents c ++ bytes)

put_string_of_steps :
    (c d : ByteStream) (bytes storage : List ℕ)
    → length bytes ≢ 0
    → c.size + length bytes < 2 ^ 32
    → with_room c (c.size + length bytes) ≡ ok d
    → memcpy d.storage c.size bytes (length bytes) ≡ ok storage
    → next_put_byte_array c bytes ≡ ok (record { size = c.size + length bytes; storage = storage })
unfolding next_put_byte_array next_put_string_with_size
put_string_of_steps c d bytes storage some few run copied =
    let count : size_in_bytes (length bytes) ≡ length bytes = omega arith in
    let test : (length bytes == 0) ≡ false = ground arith in
    let required : (c.size + length bytes) % 2 ^ 64 ≡ c.size + length bytes = omega arith in
    rw (count, test, required, run, copied) refl

append-nil : (l : List ℕ) → l ++ [] ≡ l
append-nil [] = refl
append-nil (x ∷ l) = ap (λ (r : List ℕ). x ∷ r) (append-nil l)

-- Putting an array of bytes into a valid stream, up to 2^30 bytes in all, succeeds through any
-- growth of the storage, keeps the stream valid, and appends the bytes.
pub next_put_byte_array-contents :
    (c : ByteStream) (bytes : List ℕ)
    → IsValid c
    → c.size + length bytes ≤ 2 ^ 30
    → Puts c (next_put_byte_array c bytes) bytes
unfolding Puts IsValid contents next_put_byte_array next_put_string_with_size
next_put_byte_array-contents c [] valid few =
    (c, refl, valid, omega arith, sym (append-nil (take c.size c.storage)))
next_put_byte_array-contents c (x ∷ rest) valid few =
    let bytes : List ℕ = x ∷ rest in
    let (d, run, same, room, upper, kept) =
      with_room-contents c (c.size + length bytes) valid (omega arith) few in
    let (storage, copied, size, result) =
      memcpy-inside d.storage c.size bytes (length bytes) (omega arith) (omega arith) in
    let all = take-whole bytes (length bytes) (omega arith) in
    let before : take c.size d.storage ≡ take c.size c.storage = rw same at kept in
    (
      record { size = c.size + length bytes; storage = storage },
      put_string_of_steps c d bytes storage (omega arith) (omega arith) run copied,
      (omega arith, omega arith),
      refl,
      result
          ∙ ap (λ (l : List ℕ). l ++ take (length bytes) bytes) before
          ∙ ap (λ (l : List ℕ). take c.size c.storage ++ l) all,
    )

put_of_steps :
    (c d : ByteStream) (value : ℕ)
    → c.size + 1 < 2 ^ 64
    → with_room c (c.size + 1) ≡ ok d
    → d.size < length d.storage
    → next_put c value ≡ ok (record { size = suc d.size; storage = set d.storage d.size value })
unfolding next_put put_last
put_of_steps c d value few run room =
    let required : (c.size + 1) % 2 ^ 64 ≡ c.size + 1 = omega arith in
    let inside : ltb d.size (length d.storage) ≡ true = ground arith in
    rw (required, run, inside) refl

-- Putting one byte into a valid stream of fewer than 2^30 bytes succeeds, keeps the stream valid,
-- and appends the byte.
next_put-contents :
    (c : ByteStream) (value : ℕ)
    → IsValid c
    → c.size < 2 ^ 30
    → Puts c (next_put c value) (value ∷ [])
unfolding Puts IsValid contents
next_put-contents c value valid few =
    let (d, run, same, room, upper, kept) =
      with_room-contents c (c.size + 1) valid (omega arith) (omega arith) in
    let inside : d.size < length d.storage = omega arith in
    let size = length-set d.storage d.size value in
    (
      record { size = suc d.size; storage = set d.storage d.size value },
      put_of_steps c d value (omega arith) run inside,
      (omega arith, omega arith),
      omega arith,
      take-set_last d.size value d.storage inside ∙ ap (λ (l : List ℕ). l ++ value ∷ []) kept,
    )

-- The bytes of a valid stream of at most 2^30, as an array.
pub as_byte_array-contents :
    (c : ByteStream) → IsValid c → c.size ≤ 2 ^ 30 → as_byte_array c ≡ ok (contents c)
unfolding as_byte_array IsValid contents
as_byte_array-contents c (valid, bound) few =
    let fresh = length-replicate {A = ℕ} c.size 0 in
    let (result, run, size, bytes) =
      memcpy-inside (replicate c.size 0) 0 c.storage c.size valid (omega arith) in
    let from : 0 + c.size ≡ c.size = omega arith in
    let read : size_in_bytes (length result) ≡ c.size = omega arith in
    rw (run, read) (ap ok (rw from at bytes))

-- Putting one array after the other.
unfoldable pub put_all : ByteStream → List (List ℕ) → Run ByteStream
put_all c [] = ok c
put_all c (bytes ∷ more) = next_put_byte_array c bytes >>= λ d. put_all d more

abbrev pub concat : List (List ℕ) → List ℕ
concat [] = []
concat (bytes ∷ more) = bytes ++ concat more

append_assoc : (l m r : List ℕ) → (l ++ m) ++ r ≡ l ++ (m ++ r)
append_assoc [] m r = refl
append_assoc (x ∷ l) m r = ap (λ (t : List ℕ). x ∷ t) (append_assoc l m r)

put_all-contents :
    (arrays : List (List ℕ)) (c : ByteStream)
    → IsValid c
    → c.size + length (concat arrays) ≤ 2 ^ 30
    → (d : ByteStream) × (put_all c arrays ≡ ok d)
      × IsValid d
      × (d.size ≡ c.size + length (concat arrays))
      × (contents d ≡ contents c ++ concat arrays)
unfolding put_all Puts
put_all-contents [] c valid few = (c, refl, valid, omega arith, sym (append-nil (contents c)))
put_all-contents (bytes ∷ more) c valid few =
    let size = length-append bytes (concat more) in
    let (d, run, valid', same, holds) = next_put_byte_array-contents c bytes valid (omega arith) in
    let (e, runs, valid'', total, all) = put_all-contents more d valid' (omega arith) in
    (
      e,
      rw run runs,
      valid'',
      omega arith,
      all
          ∙ ap (λ (l : List ℕ). l ++ concat more) holds
          ∙ append_assoc (contents c) bytes (concat more),
    )

-- Arrays of bytes that are put into a new stream one after the other, at most 2^30 bytes in all,
-- come out as the one array that joins them: the storage grows as often as it has to, each loop of
-- the growth ends, and no copy leaves its objects.
pub as_byte_array-put_all :
    (arrays : List (List ℕ))
    → length (concat arrays) ≤ 2 ^ 30
    → (put_all create arrays >>= as_byte_array) ≡ ok (concat arrays)
unfolding IsValid contents
as_byte_array-put_all arrays few =
    let (d, run, valid, total, all) =
      put_all-contents arrays create (omega arith, omega arith) (omega arith) in
    rw run (as_byte_array-contents d valid (omega arith) ∙ ap ok all)
