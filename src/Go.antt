-- ===== src/Go.antt =====
-- What the program uses of Go and of its standard library: faults, slices, decimal text, word-wise
-- text functions and maps.
pub mod Bits
pub mod Result
pub mod Slice
pub mod Decimal
pub mod Text
pub mod Map
pub mod Float
