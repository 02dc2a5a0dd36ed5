-- ===== src/Wire.antt =====
-- The packed encodings of internal/typefacts, byte slices as lists of numbers below 256.
pub mod Varint
pub mod Strings
pub mod Flags
pub mod Demands
