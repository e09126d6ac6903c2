-- ===== src/Parser/Reading.antt =====
-- Each function of the parser does not fault, and takes the tokens that it is called for.
pub mod Literals
pub mod Sequences
pub mod Blocks
pub mod Messages
pub mod Expressions
pub mod Total
