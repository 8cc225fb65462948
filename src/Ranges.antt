-- ===== src/Ranges.antt =====
-- src/ranges.rs: slices of arrays, numeric sequences and brace expansion.
pub mod Slice
pub mod Sequence
pub mod Braces
pub mod Index
