-- ===== src/Integer/Parse.antt =====
-- Reading integer literals, and reading back what is printed.
mod Natural
mod Digits
mod Printed
unfoldable pub use Natural.*
unfoldable pub use Digits.*
unfoldable pub use Printed.*
