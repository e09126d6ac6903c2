-- ===== src/Integer/Magnitude.antt =====
-- lib/sysbvm/integer.c: magnitudes, little-endian arrays of 32-bit words, and the loops over them.
-- A pointer with its word count is a list; an array that a loop writes is the list it returns.
pub mod Sum
pub mod Compare
pub mod Subtract
pub mod Multiply
use sysmel.Integer.Words.{word_at}
use sysmel.Prelude.{
  ℕ, zero, suc, ◌+◌, ◌-◌, ◌*◌, ◌/◌, ◌%◌, ◌^◌, ◌≤◌, ◌<◌, ◌≡◌, refl, Bool, true, false, arith, ltb,
  ◌==◌, if◌then◌else◌, List, [], ◌∷◌, ◌++◌, length, get_or, set, take, drop, replicate, max,
}
use sysmel.Prelude.Int.{ℤ, pos, negsuc, ◌+ℤ◌, ◌-ℤ◌}
use sysmel.Run.{Run, ok, fault, ◌>>=◌}
use sysmel.Word.{to_bits, shift_right}

-- The result of `compareMagnitudes`: -1, 0 or 1.
pub compare_loop : ℕ → List ℕ → List ℕ → ℤ
compare_loop zero left right = pos 0
compare_loop (suc index) left right =
    if ltb (word_at left index) (word_at right index)
    then negsuc 0
    else if ltb (word_at right index) (word_at left index)
    then pos 1
    else compare_loop index left right

unfoldable pub compare_magnitudes : List ℕ → List ℕ → ℤ
unfolding compare_loop
compare_magnitudes left right = compare_loop (max (length left) (length right)) left right

-- One carry step for each round; a write past the end of the result is skipped.
pub sum_loop : ℕ → ℕ → ℕ → List ℕ → List ℕ → List ℕ → ℕ × List ℕ
sum_loop zero i carry left right result = (carry, result)
sum_loop (suc rounds) i carry left right result =
    let sum = (word_at left i + word_at right i + carry) % 2 ^ 64 in
    sum_loop rounds (suc i) (sum / 2 ^ 32) left right (set result i (sum % 2 ^ 32))

-- The second loop, over the words of the result that are left.
pub carry_loop : ℕ → ℕ → ℕ → List ℕ → ℕ × List ℕ
carry_loop zero i carry result = (carry, result)
carry_loop (suc rounds) i carry result = carry_loop rounds (suc i) 0 (set result i carry)

unfoldable pub sum_into : List ℕ → List ℕ → List ℕ → ℕ × List ℕ
unfolding sum_loop carry_loop
sum_into left right result =
    let words = max (length left) (length right) in
    let (carry, summed) = sum_loop words 0 0 left right result in
    carry_loop (length result - words) words carry summed

-- `result` is the array from `resultWords + i` on. The write has no guard.
pub multiply_word_loop : ℕ → ℕ → ℕ → List ℕ → ℕ → List ℕ → Run (List ℕ)
multiply_word_loop zero i carry left word result = ok result
multiply_word_loop (suc rounds) i carry left word result =
    let multiplication = (word_at left i * word + word_at result i + carry) % 2 ^ 64 in
    let rest =
      multiply_word_loop rounds (suc i) (multiplication / 2 ^ 32) left word
        (set result i (multiplication % 2 ^ 32)) in
    if ltb i (length result) then rest else fault

unfoldable pub multiply_by_word_adding_into : List ℕ → ℕ → List ℕ → Run (List ℕ)
unfolding multiply_word_loop
multiply_by_word_adding_into left word result =
    multiply_word_loop (max (length left) (length result)) 0 0 left word result

-- Round `i` works on the words of the result from `i` on and leaves those before.
pub multiply_loop : ℕ → ℕ → List ℕ → List ℕ → List ℕ → Run (List ℕ)
multiply_loop zero i left right result = ok result
multiply_loop (suc rounds) i left right result =
    let rest = multiply_by_word_adding_into left (word_at right i) (drop i result) >>= λ tail.
    multiply_loop rounds (suc i) left right (take i result ++ tail) in
    if ltb i (length result) then rest else ok result

unfoldable pub multiply_into : List ℕ → List ℕ → List ℕ → Run (List ℕ)
unfolding multiply_loop multiply_by_word_adding_into
multiply_into left right result =
    multiply_loop (length right) 0 left right (replicate (length result) 0)

-- `borrow` is 0 or -1; the shift of a negative int64_t keeps its sign.
pub subtract_loop : ℕ → ℕ → ℤ → List ℕ → List ℕ → List ℕ → ℤ × List ℕ
subtract_loop zero i borrow left right result = (borrow, result)
subtract_loop (suc rounds) i borrow left right result =
    let subtraction = pos (word_at left i) -ℤ pos (word_at right i) +ℤ borrow in
    subtract_loop rounds (suc i) (shift_right subtraction 32) left right
      (set result i (to_bits 32 subtraction))

pub clear_loop : ℕ → ℕ → List ℕ → List ℕ
clear_loop zero i result = result
clear_loop (suc rounds) i result = clear_loop rounds (suc i) (set result i 0)

unfoldable pub subtract_from_into : List ℕ → List ℕ → List ℕ → ℤ × List ℕ
unfolding subtract_loop clear_loop
subtract_from_into left right result =
    let words = max (length left) (length right) in
    let (borrow, subtracted) = subtract_loop words 0 (pos 0) left right result in
    (borrow, clear_loop (length result - words) words subtracted)
