-- ===== src/Transition/Tags.antt =====
-- internal/typefacts/typefacts.go: Go's == on the enums of the facts. A value's tag is the number of
-- its constructor with the string that it carries.
pub mod Values
pub mod Calls
use solid_ts_facts.Prelude.{
  ℕ, ◌≡◌, sym, ap, ◌∙◌, Bool, true, ◌&&◌, none, some, List, arith, ◌==◌, get_elem?,
}
use solid_ts_facts.Keys.{GoString, str_eq}
use solid_ts_facts.Keys.Order.{eq_of_str_eq}

abbrev pub Tag : Type 0
Tag = ℕ × GoString

unfoldable pub tag_equal : Tag → Tag → Bool
tag_equal a b = a.0 == b.0 && str_eq a.1 b.1

tag_equal-eq : (a b : Tag) → tag_equal a b ≡ true → a ≡ b
unfolding tag_equal
tag_equal-eq (m, s) (n, t) h = ground (arith, eq_of_str_eq s t)

-- The value with a tag, among those that carry nothing and the others.
abbrev pub value_of {ℓ} : {A : Type ℓ} → List A → (GoString → A) → Tag → A
value_of known other (n, s) = elim (get_elem? known n) [ none ↦ other s | some a ↦ a ]

-- A tag that a value can be read back from tells values apart.
pub tags-eq {ℓ} :
    {A : Type ℓ} (tag : A → Tag) (known : List A) (other : GoString → A)
    → ((a : A) → value_of known other (tag a) ≡ a)
    → (a b : A) → tag_equal (tag a) (tag b) ≡ true
    → a ≡ b
tags-eq tag known other p a b h =
    sym (p a) ∙ ap (value_of known other) (tag_equal-eq (tag a) (tag b) h) ∙ p b
