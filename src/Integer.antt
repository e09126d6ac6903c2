-- ===== src/Integer.antt =====
-- lib/sysbvm/integer.c: large integers and the numeric primitives.
pub mod Words
pub mod Magnitude
pub mod Tuple
pub mod Arithmetic
pub mod Value
pub mod Sums
pub mod Encode
pub mod Products
pub mod Order
pub mod Differences
pub mod Normalize
pub mod Text
pub mod Parse
pub mod Factorial
pub mod Primitives
