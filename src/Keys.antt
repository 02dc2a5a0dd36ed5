-- ===== src/Keys.antt =====
-- Go strings as lists of bytes, with Go's bytewise `<` and `==`, and rows that are kept in key order.
pub mod Order
pub mod Search
pub mod Rows
pub mod Edit
pub mod Utf8
pub mod Clean
mod CleanTests
use solid_ts_facts.Prelude.{ℕ, Bool, true, false, ◌&&◌, ◌||◌, List, [], ◌∷◌, ltb, ◌==◌}

-- A Go string is its bytes.
abbrev pub GoString : Type 0
GoString = List ℕ

-- left == right
unfoldable pub str_eq : GoString → GoString → Bool
str_eq [] [] = true
str_eq [] (y ∷ ys) = false
str_eq (x ∷ xs) [] = false
str_eq (x ∷ xs) (y ∷ ys) = x == y && str_eq xs ys

-- left < right: bytewise, the shorter one first when it is a prefix of the other.
unfoldable pub str_lt : GoString → GoString → Bool
str_lt [] [] = false
str_lt [] (y ∷ ys) = true
str_lt (x ∷ xs) [] = false
str_lt (x ∷ xs) (y ∷ ys) = ltb x y || (x == y && str_lt xs ys)
