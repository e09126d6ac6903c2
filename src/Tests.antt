-- ===== src/Tests.antt =====
-- Runs at concrete inputs of what is proved.
mod Samples
mod Arithmetic
mod Conversions
mod Text
mod Collections
mod Offsets
mod Streams
mod Tables
mod Lookups
mod Parsing
