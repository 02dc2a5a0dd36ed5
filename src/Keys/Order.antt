-- ===== src/Keys/Order.antt =====
-- Go's string order is a strict total order whose equivalence is equality of bytes.
use solid_ts_facts.Prelude.{◌≡◌, refl, true, false, [], ◌∷◌, arith}
use solid_ts_facts.Keys.{GoString, str_eq, str_lt}

pub str_eq_refl : (a : GoString) → str_eq a a ≡ true
unfolding str_eq
str_eq_refl [] = refl
str_eq_refl (x ∷ xs) = ground (arith, str_eq_refl xs)

pub eq_of_str_eq : (a b : GoString) → str_eq a b ≡ true → a ≡ b
unfolding str_eq
eq_of_str_eq [] [] h = refl
eq_of_str_eq [] (y ∷ ys) h = cc
eq_of_str_eq (x ∷ xs) [] h = cc
eq_of_str_eq (x ∷ xs) (y ∷ ys) h = ground (arith, eq_of_str_eq xs ys)

pub str_lt_irrefl : (a : GoString) → str_lt a a ≡ false
unfolding str_lt
str_lt_irrefl [] = refl
str_lt_irrefl (x ∷ xs) = ground (arith, str_lt_irrefl xs)

pub str_lt_trans : (a b c : GoString) → str_lt a b ≡ true → str_lt b c ≡ true → str_lt a c ≡ true
unfolding str_lt
str_lt_trans [] [] c h k = cc
str_lt_trans [] (y ∷ ys) [] h k = cc
str_lt_trans [] (y ∷ ys) (z ∷ zs) h k = refl
str_lt_trans (x ∷ xs) [] c h k = cc
str_lt_trans (x ∷ xs) (y ∷ ys) [] h k = cc
str_lt_trans (x ∷ xs) (y ∷ ys) (z ∷ zs) h k = ground (arith, str_lt_trans xs ys zs)

-- Of two different strings one is below the other.
pub str_lt_total : (a b : GoString) → str_lt a b ≡ false → str_eq a b ≡ false → str_lt b a ≡ true
unfolding str_eq str_lt
str_lt_total [] [] h k = cc
str_lt_total [] (y ∷ ys) h k = cc
str_lt_total (x ∷ xs) [] h k = refl
str_lt_total (x ∷ xs) (y ∷ ys) h k = ground (arith, str_lt_total xs ys)

pub str_eq_of_eq : {a b : GoString} → a ≡ b → str_eq a b ≡ true
str_eq_of_eq {a} e = rw (← e) (str_eq_refl a)

pub str_lt-str_eq : (a b : GoString) → str_lt a b ≡ true → str_eq a b ≡ false
unfolding str_eq str_lt
str_lt-str_eq [] [] h = cc
str_lt-str_eq [] (y ∷ ys) h = refl
str_lt-str_eq (x ∷ xs) [] h = cc
str_lt-str_eq (x ∷ xs) (y ∷ ys) h = ground (arith, str_lt-str_eq xs ys)

pub str_lt_asymm : (a b : GoString) → str_lt a b ≡ true → str_lt b a ≡ false
unfolding str_lt
str_lt_asymm [] [] h = cc
str_lt_asymm [] (y ∷ ys) h = refl
str_lt_asymm (x ∷ xs) [] h = cc
str_lt_asymm (x ∷ xs) (y ∷ ys) h = ground (arith, str_lt_asymm xs ys)
