-- ===== src/Transition/Tags/Values.antt =====
-- internal/typefacts/typefacts.go: Go's == on the enums of the facts about values.
use solid_ts_facts.Prelude.{◌≡◌, refl, Bool, true, List, [], ◌∷◌}
use solid_ts_facts.Keys.{GoString}
use solid_ts_facts.Transition.Facts.{
  Callability, callability_absent, callability_callable, callability_untyped_callable,
  callability_non_callable, callability_mixed, callability_unknown, callability_other,
  Constructability, constructability_absent, constructability_constructable,
  constructability_non_constructable, constructability_mixed, constructability_unknown,
  constructability_other, ArrayShape, array_shape_absent, array_shape_array, array_shape_not_array,
  array_shape_mixed, array_shape_unknown, array_shape_other, ReferenceSpace, reference_space_absent,
  reference_space_value, reference_space_type, reference_space_both, reference_space_neither,
  reference_space_other,
}
use solid_ts_facts.Transition.Tags.{Tag, tag_equal, value_of, tags-eq}

unfoldable pub callability_name : Callability → Tag
callability_name callability_absent = (0, [])
callability_name callability_callable = (1, [])
callability_name callability_untyped_callable = (2, [])
callability_name callability_non_callable = (3, [])
callability_name callability_mixed = (4, [])
callability_name callability_unknown = (5, [])
callability_name (callability_other s) = (6, s)

abbrev pub callability_equal : Callability → Callability → Bool
callability_equal a b = tag_equal (callability_name a) (callability_name b)

abbrev known_callability : List Callability
known_callability =
    callability_absent ∷ callability_callable ∷ callability_untyped_callable
    ∷ callability_non_callable ∷ callability_mixed ∷ callability_unknown ∷ []

callability-value_of :
    (a : Callability) → value_of known_callability callability_other (callability_name a) ≡ a
unfolding callability_name
callability-value_of callability_absent = refl
callability-value_of callability_callable = refl
callability-value_of callability_untyped_callable = refl
callability-value_of callability_non_callable = refl
callability-value_of callability_mixed = refl
callability-value_of callability_unknown = refl
callability-value_of (callability_other s) = refl

pub callability_equal-eq : (a b : Callability) → callability_equal a b ≡ true → a ≡ b
callability_equal-eq =
    tags-eq callability_name known_callability callability_other callability-value_of

unfoldable pub constructability_name : Constructability → Tag
constructability_name constructability_absent = (0, [])
constructability_name constructability_constructable = (1, [])
constructability_name constructability_non_constructable = (2, [])
constructability_name constructability_mixed = (3, [])
constructability_name constructability_unknown = (4, [])
constructability_name (constructability_other n) = (5, n ∷ [])

abbrev pub constructability_equal : Constructability → Constructability → Bool
constructability_equal a b = tag_equal (constructability_name a) (constructability_name b)

other_number : GoString → Constructability
other_number [] = constructability_absent
other_number (n ∷ s) = constructability_other n

abbrev known_constructability : List Constructability
known_constructability =
    constructability_absent ∷ constructability_constructable ∷ constructability_non_constructable
    ∷ constructability_mixed ∷ constructability_unknown ∷ []

constructability-value_of :
    (a : Constructability)
    → value_of known_constructability other_number (constructability_name a) ≡ a
unfolding constructability_name other_number
constructability-value_of constructability_absent = refl
constructability-value_of constructability_constructable = refl
constructability-value_of constructability_non_constructable = refl
constructability-value_of constructability_mixed = refl
constructability-value_of constructability_unknown = refl
constructability-value_of (constructability_other s) = refl

pub constructability_equal-eq : (a b : Constructability) → constructability_equal a b ≡ true → a ≡ b
constructability_equal-eq =
    tags-eq constructability_name known_constructability other_number constructability-value_of

unfoldable pub array_shape_name : ArrayShape → Tag
array_shape_name array_shape_absent = (0, [])
array_shape_name array_shape_array = (1, [])
array_shape_name array_shape_not_array = (2, [])
array_shape_name array_shape_mixed = (3, [])
array_shape_name array_shape_unknown = (4, [])
array_shape_name (array_shape_other s) = (5, s)

abbrev pub array_shape_equal : ArrayShape → ArrayShape → Bool
array_shape_equal a b = tag_equal (array_shape_name a) (array_shape_name b)

abbrev known_array_shape : List ArrayShape
known_array_shape =
    array_shape_absent ∷ array_shape_array ∷ array_shape_not_array ∷ array_shape_mixed
    ∷ array_shape_unknown ∷ []

array_shape-value_of :
    (a : ArrayShape) → value_of known_array_shape array_shape_other (array_shape_name a) ≡ a
unfolding array_shape_name
array_shape-value_of array_shape_absent = refl
array_shape-value_of array_shape_array = refl
array_shape-value_of array_shape_not_array = refl
array_shape-value_of array_shape_mixed = refl
array_shape-value_of array_shape_unknown = refl
array_shape-value_of (array_shape_other s) = refl

pub array_shape_equal-eq : (a b : ArrayShape) → array_shape_equal a b ≡ true → a ≡ b
array_shape_equal-eq =
    tags-eq array_shape_name known_array_shape array_shape_other array_shape-value_of

unfoldable pub reference_space_name : ReferenceSpace → Tag
reference_space_name reference_space_absent = (0, [])
reference_space_name reference_space_value = (1, [])
reference_space_name reference_space_type = (2, [])
reference_space_name reference_space_both = (3, [])
reference_space_name reference_space_neither = (4, [])
reference_space_name (reference_space_other s) = (5, s)

abbrev pub reference_space_equal : ReferenceSpace → ReferenceSpace → Bool
reference_space_equal a b = tag_equal (reference_space_name a) (reference_space_name b)

abbrev known_reference_space : List ReferenceSpace
known_reference_space =
    reference_space_absent ∷ reference_space_value ∷ reference_space_type ∷ reference_space_both
    ∷ reference_space_neither ∷ []

reference_space-value_of :
    (a : ReferenceSpace)
    → value_of known_reference_space reference_space_other (reference_space_name a) ≡ a
unfolding reference_space_name
reference_space-value_of reference_space_absent = refl
reference_space-value_of reference_space_value = refl
reference_space-value_of reference_space_type = refl
reference_space-value_of reference_space_both = refl
reference_space-value_of reference_space_neither = refl
reference_space-value_of (reference_space_other s) = refl

pub reference_space_equal-eq : (a b : ReferenceSpace) → reference_space_equal a b ≡ true → a ≡ b
reference_space_equal-eq =
    tags-eq reference_space_name known_reference_space reference_space_other
      reference_space-value_of
