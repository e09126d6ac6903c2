-- ===== src/Parser.antt =====
-- lib/sysbvm/parser.c: from the tokens of a source text to its syntax tree.
pub mod Syntax
pub mod State
pub mod Literals
pub mod Sequences
pub mod Blocks
pub mod Messages
pub mod Expressions
pub mod Parse
pub mod Progress
pub mod Behind
pub mod Sends
pub mod Reading
pub mod Unfinished
