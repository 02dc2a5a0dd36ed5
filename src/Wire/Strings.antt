-- ===== src/Wire/Strings.antt =====
-- `stringTableV3` and `stringUntableV3` of protocolv3_compact.go: strings in first-occurrence
-- order, index 0 for the empty string. The Go map is an association list, newest entry first.
pub mod Laws
use solid_ts_facts.Prelude.{
  ℕ, Option, none, some, List, [], ◌∷◌, ◌++◌, if◌then◌else◌, length, get_elem?,
}
use solid_ts_facts.Keys.{GoString, str_eq}
use solid_ts_facts.Keys.Utf8.{valid_string, to_valid_utf8}

pub record StringTable : Type 0 where
  pub indexes : List (GoString × ℕ)
  pub values : List GoString

-- m[key], with `ok`.
unfoldable pub map_get {ℓ} : {V : Type ℓ} → List (GoString × V) → GoString → Option V
map_get [] key = none
map_get ((k, v) ∷ rest) key = if str_eq k key then some v else map_get rest key

unfoldable pub new_string_table : StringTable
new_string_table = record { indexes = ([], 0) ∷ []; values = [] ∷ [] }

-- What is stored for a string: itself, with runs of invalid UTF-8 replaced.
unfoldable pub wire_text : GoString → GoString
wire_text value = if valid_string value then value else to_valid_utf8 value

unfoldable pub intern_text : StringTable → GoString → ℕ × StringTable
intern_text t value = elim (map_get t.indexes value) [
  | some index ↦ (index, t)
  | none ↦ (
    length t.values,
    record { indexes = (value, length t.values) ∷ t.indexes; values = t.values ++ (value ∷ []) },
  )
]

unfoldable pub intern : StringTable → GoString → ℕ × StringTable
unfolding intern_text
intern t value = intern_text t (wire_text value)

-- An index past the end is an error.
unfoldable pub lookup : List GoString → ℕ → Option GoString
lookup values index = get_elem? values index
