-- ===== src/Word.antt =====
-- Machine words and the tagged immediates of include/sysbvm/tuple.h, for a 64-bit target: a
-- `sysbvm_tuple_t` is an uintptr_t of 64 bits whose low four bits are its tag.
use sysmel.Prelude.{
  ℕ, ◌+◌, ◌-◌, ◌*◌, ◌/◌, ◌%◌, ◌^◌, ◌≤◌, ◌<◌, ◌≡◌, Bool, true, false, ◌||◌, not, arith, ltb, ◌==◌,
  if◌then◌else◌,
}
use sysmel.Prelude.Int.{ℤ, pos, negsuc, ◌≤ℤ◌}

-- The low `w` bits of the two's complement of an integer: the cast to an unsigned type.
abbrev pub to_bits : ℕ → ℤ → ℕ
to_bits w (pos n) = n % 2 ^ w
to_bits w (negsuc n) = 2 ^ w - 1 - n % 2 ^ w

-- The integer that `w` bits stand for: the cast to a signed type.
abbrev pub of_bits : ℕ → ℕ → ℤ
of_bits w b = if ltb b (2 ^ (w - 1)) then pos b else negsuc (2 ^ w - 1 - b)

-- `>>` on a signed type.
abbrev pub shift_right : ℤ → ℕ → ℤ
shift_right (pos n) k = pos (n / 2 ^ k)
shift_right (negsuc n) k = negsuc (n / 2 ^ k)

-- SYSBVM_IMMEDIATE_INT_MAX and SYSBVM_IMMEDIATE_INT_MIN
abbrev pub immediate_int_max : ℤ
immediate_int_max = pos (2 ^ 59 - 1)

abbrev pub immediate_int_min : ℤ
immediate_int_min = negsuc (2 ^ 59 - 1)

-- `value << 4 | 1`: the four low bits are clear after the shift
unfoldable pub encode_small : ℤ → ℕ
encode_small value = to_bits 64 value * 16 % 2 ^ 64 + 1

unfoldable pub decode_small : ℕ → ℤ
decode_small tuple = shift_right (of_bits 64 tuple) 4

unfoldable pub is_immediate : ℕ → Bool
is_immediate tuple = not (tuple % 16 == 0)

-- sysbvm_tuple_getSizeInBytes and sysbvm_tuple_getSizeInSlots of an object that was allocated with
-- the count: lib/sysbvm/heap.c stores the bytes in the `objectSize` of the header, an uint32_t.
abbrev pub size_in_bytes : ℕ → ℕ
size_in_bytes allocated = allocated % 2 ^ 32

abbrev pub size_in_slots : ℕ → ℕ
size_in_slots allocated = size_in_bytes (allocated * 8) / 8

-- SYSBVM_TUPLE_TAG_UINT32 is 9, and a word is wider than an uint32_t.
unfoldable pub uint32_encode : ℕ → ℕ
uint32_encode value = value * 16 + 9

-- The uint32_t of an immediate is the low half of the shifted word; `memory` is what stands at the
-- address of an object.
unfoldable pub uint32_decode : (ℕ → ℕ) → ℕ → ℕ
unfolding is_immediate
uint32_decode memory tuple =
    if is_immediate tuple || tuple == 0 then tuple / 16 % 2 ^ 32 else memory tuple

unfoldable pub is_pointer : ℕ → Bool
is_pointer tuple = tuple % 16 == 0

unfoldable pub is_non_null_pointer : ℕ → Bool
is_non_null_pointer tuple = if tuple == 0 then false else tuple % 16 == 0

-- Decoding an encoded small integer gives it back, from the least to the greatest immediate.
pub decode_small-encode_small :
    (v : ℤ) → immediate_int_min ≤ℤ v → v ≤ℤ immediate_int_max → decode_small (encode_small v) ≡ v
unfolding decode_small encode_small
decode_small-encode_small (pos n) lo hi = ground arith
decode_small-encode_small (negsuc n) lo hi = ground arith

pub encode_small-is_immediate : (v : ℤ) → is_immediate (encode_small v) ≡ true
unfolding encode_small is_immediate
encode_small-is_immediate v = ground arith

-- The casts are inverse to one another on the values of the type.
pub of_bits-to_bits :
    (v : ℤ) → negsuc (2 ^ 63 - 1) ≤ℤ v → v ≤ℤ pos (2 ^ 63 - 1) → of_bits 64 (to_bits 64 v) ≡ v
of_bits-to_bits (pos n) lo hi = ground arith
of_bits-to_bits (negsuc n) lo hi = ground arith

-- A small integer carries the integer tag.
pub encode_small-integer : (v : ℤ) → (encode_small v < 2 ^ 64) × (encode_small v % 16 ≡ 1)
unfolding encode_small
encode_small-integer v = omega arith

-- Up to the sizes that the header holds, what was allocated is read back; never more is.
pub size_in_slots-small : (n : ℕ) → n < 2 ^ 29 → size_in_slots n ≡ n
size_in_slots-small n h = omega arith

pub size_in_slots-le : (n : ℕ) → size_in_slots n ≤ n
size_in_slots-le n = omega arith

-- Decoding an encoded uint32_t gives it back.
pub uint32_decode-uint32_encode :
    (memory : ℕ → ℕ) (v : ℕ) → v < 2 ^ 32 → uint32_decode memory (uint32_encode v) ≡ v
unfolding uint32_decode uint32_encode is_immediate
uint32_decode-uint32_encode memory v h =
    let tag : (v * 16 + 9) % 16 ≡ 9 = omega arith in
    let immediate : ((v * 16 + 9) % 16 == 0) ≡ false = ground arith in rw immediate (omega arith)
