-- ===== src/Scanner.antt =====
-- lib/sysbvm/scanner.c: from the bytes of a source text to its tokens.
pub mod Characters
pub mod Cursor
pub mod Messages
pub mod Convert
pub mod Token
pub mod Skip
pub mod Lex
pub mod Quoted
pub mod Punctuation
pub mod Scan
pub mod Reach
pub mod Progress
pub mod Numbers
pub mod Closed
pub mod Marks
pub mod Blank
pub mod Order
pub mod Strings
