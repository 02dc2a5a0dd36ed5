-- ===== src/Transition.antt =====
-- Table transitions of internal/typefacts: the facts, their tags, their wire rows and the symbol delta.
pub mod Facts
pub mod Tables
pub mod Tags
pub mod Equal
pub mod Codes
pub mod Writer
pub mod Rows
pub mod Entities
pub mod Paths
pub mod Symbols
pub mod PathPlan
pub mod TablePaths
pub mod ExactSymbols
pub mod Encoder
