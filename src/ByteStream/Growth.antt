-- ===== src/ByteStream/Growth.antt =====
-- How the storage of a byte stream grows.
use sysmel.Word.{size_in_bytes}
use sysmel.ByteStream.{
  ByteStream, memcpy, capacity_loop, first_capacity, increase_capacity_to_at_least, with_room,
}
use sysmel.Prelude.{
  ℕ, zero, suc, ◌+◌, ◌-◌, ◌*◌, ◌%◌, ◌^◌, ◌≤◌, ◌<◌, ◌≡◌, refl, ap, ◌∙◌, true, false, ltb, leb, ◌&&◌,
  arith, List, ◌++◌, length, take, drop, replicate, length-append, length-take, length-drop,
  length-replicate, take-append_left, take-append_all, take-whole, low-or-high, inl, inr,
}
use sysmel.Run.{ok}

-- The size is not above the capacity, which is at most twice the size and 16.
unfoldable pub IsValid : ByteStream → Type 0
IsValid c = (c.size ≤ length c.storage) × (length c.storage ≤ 2 * c.size + 16)

-- The bytes that a stream stands for.
unfoldable pub contents : ByteStream → List ℕ
contents c = take c.size c.storage

capacity_loop-round :
    (fuel capacity required : ℕ)
    → capacity < required
    → capacity * 2 < 2 ^ 64
    → capacity_loop (suc fuel) capacity required ≡ capacity_loop fuel (capacity * 2) required
unfolding capacity_loop
capacity_loop-round fuel capacity required less bound =
    let go : ltb capacity required ≡ true = ground arith in
    let next : capacity * 2 % 2 ^ 64 ≡ capacity * 2 = omega arith in
    rw (capacity_loop, go) (ap (λ (c : ℕ). capacity_loop fuel c required) next)

-- The loop of the capacity ends for a required count of at most 2^63, where doubling cannot wrap
-- around before it is reached.
capacity_loop-reaches :
    (fuel capacity required : ℕ)
    → 1 ≤ capacity
    → required ≤ 2 ^ 63
    → required - capacity < fuel
    → capacity ≤ 2 * required + 16
    → (n : ℕ) × (capacity_loop fuel capacity required ≡ ok n)
      × (required ≤ n)
      × (n ≤ 2 * required + 16)
unfolding capacity_loop
capacity_loop-reaches zero capacity required some few enough bound = absurd (omega arith)
capacity_loop-reaches (suc fuel) capacity required some few enough bound =
    elim (low-or-high required capacity) [
      | inl e ↦
          let stop : ltb capacity required ≡ false = ground arith in
          (capacity, rw (capacity_loop, stop) refl, e, bound)
      | inr less ↦
          let round = capacity_loop-round fuel capacity required less (omega arith) in
          let (n, run, reached, small) =
            capacity_loop-reaches fuel (capacity * 2) required (omega arith) few (omega arith)
              (omega arith) in
          (n, round ∙ run, reached, small)
    ]

-- A copy inside both objects puts the bytes in the place, and leaves the size and what is before.
pub memcpy-inside :
    (target : List ℕ) (at : ℕ) (source : List ℕ) (count : ℕ)
    → count ≤ length source
    → at + count ≤ length target
    → (result : List ℕ) × (memcpy target at source count ≡ ok result)
      × (length result ≡ length target)
      × (take (at + count) result ≡ take at target ++ take count source)
unfolding memcpy
memcpy-inside target at source count from into =
    let test : (leb count (length source) && leb (at + count) (length target)) ≡ true =
      ground arith in
    let before = length-take at target in
    let copied = length-take count source in
    let behind = length-drop (at + count) target in
    let tail = length-append (take count source) (drop (at + count) target) in
    let all = length-append (take at target) (take count source ++ drop (at + count) target) in
    let first =
      take-append_all (take at target) (take count source ++ drop (at + count) target) at count
        (omega arith) in
    let second =
      take-append_left (take count source) (drop (at + count) target) count (omega arith) in
    let third = take-whole (take count source) count (omega arith) in
    (
      take at target ++ (take count source ++ drop (at + count) target),
      rw test refl,
      omega arith,
      first ∙ ap (λ (l : List ℕ). take at target ++ l) (second ∙ third),
    )

increase_of_steps :
    (c : ByteStream) (required n : ℕ) (storage : List ℕ)
    → capacity_loop (suc required) (first_capacity (size_in_bytes (length c.storage))) required
      ≡ ok n
    → memcpy (replicate n 0) 0 c.storage c.size ≡ ok storage
    → increase_capacity_to_at_least c required ≡ ok (record { size = c.size; storage = storage })
unfolding increase_capacity_to_at_least
increase_of_steps c required n storage run copied = rw (run, copied) refl

-- Growth keeps the size and the bytes.
increase-contents :
    (c : ByteStream) (required : ℕ)
    → c.size ≤ length c.storage
    → length c.storage < required
    → required ≤ 2 ^ 30
    → (d : ByteStream) × (increase_capacity_to_at_least c required ≡ ok d)
      × (d.size ≡ c.size)
      × (required ≤ length d.storage)
      × (length d.storage ≤ 2 * required + 16)
      × (contents d ≡ contents c)
unfolding increase_capacity_to_at_least contents
increase-contents c required valid small few =
    let start : ℕ = first_capacity (size_in_bytes (length c.storage)) in
    let some : 1 ≤ start = ground arith in
    let bound : start ≤ 2 * required + 16 = ground arith in
    let (n, run, reached, upper) =
      capacity_loop-reaches (suc required) start required some (omega arith) (omega arith) bound in
    let fresh = length-replicate {A = ℕ} n 0 in
    let (storage, copied, size, bytes) =
      memcpy-inside (replicate n 0) 0 c.storage c.size valid (omega arith) in
    let from : 0 + c.size ≡ c.size = omega arith in
    (
      record { size = c.size; storage = storage },
      increase_of_steps c required n storage run copied,
      refl,
      omega arith,
      omega arith,
      rw from at bytes,
    )

-- After making room there is enough, and size and bytes are as before.
pub with_room-contents :
    (c : ByteStream) (required : ℕ)
    → IsValid c
    → c.size ≤ required
    → required ≤ 2 ^ 30
    → (d : ByteStream) × (with_room c required ≡ ok d)
      × (d.size ≡ c.size)
      × (required ≤ length d.storage)
      × (length d.storage ≤ 2 * required + 16)
      × (contents d ≡ contents c)
unfolding with_room IsValid
with_room-contents c required (valid, bound) more few =
    let read : size_in_bytes (length c.storage) ≡ length c.storage = omega arith in
    elim (low-or-high required (length c.storage)) [
      | inl enough ↦
          let stop : ltb (size_in_bytes (length c.storage)) required ≡ false =
            rw read (ground arith) in
          (c, rw (with_room, stop) refl, refl, enough, omega arith, refl)
      | inr small ↦
          let go : ltb (size_in_bytes (length c.storage)) required ≡ true =
            rw read (ground arith) in
          let (d, run, same, room, upper, bytes) = increase-contents c required valid small few in
          (d, rw (with_room, go) run, same, room, upper, bytes)
    ]
