-- ===== src/Keys/Rows.antt =====
-- Slices of rows kept strictly ordered by a string key, and the lookup idiom over them:
-- `index := sort.Search(len(rows), func(i int) bool { return rows[i].key >= key })`, then
-- `if index == len(rows) || rows[index].key != key`.
use solid_ts_facts.Prelude.{
  ℕ, zero, suc, ◌≤◌, ◌<◌, ◌≡◌, Bool, true, false, not, List, [], ◌∷◌, Option, none, some,
  if◌then◌else◌, length, get_elem?, All, arith, inl, inr, refl, Bool-cases,
}
use solid_ts_facts.Keys.{GoString, str_eq, str_lt}
use solid_ts_facts.Keys.Order.{str_lt_trans, str_lt-str_eq, eq_of_str_eq}
use solid_ts_facts.Keys.Search.{sort_search, sort_search-first, sort_search-le}

module _ {ℓ} {A : Type ℓ} (key : A → GoString) where
  -- The rows are in strictly increasing key order.
  abbrev pub IsAbove : GoString → List A → Type 0
  IsAbove k l = All (λ row. str_lt k (key row) ≡ true) l

  abbrev pub IsSorted : List A → Type 0
  IsSorted [] = Unit
  IsSorted (x ∷ xs) = IsAbove (key x) xs × IsSorted xs

  -- rows[i].key >= key
  unfoldable pub at_least : List A → GoString → ℕ → Bool
  at_least l k i = elim (get_elem? l i) [ none ↦ true | some row ↦ not (str_lt (key row) k) ]

  unfoldable pub search_rows : List A → GoString → ℕ
  search_rows l k = sort_search (length l) (at_least l k)

  unfoldable pub row_at : List A → GoString → Option A
  unfolding search_rows
  row_at l k = elim (get_elem? l (search_rows l k)) [
    | none ↦ none
    | some row ↦ if str_eq (key row) k then some row else none
  ]

  -- The specification: the first row with the key, by a scan.
  unfoldable pub find : List A → GoString → Option A
  find [] k = none
  find (x ∷ xs) k = if str_eq (key x) k then some x else find xs k

  -- The rows in front of the first one that is not below the key.
  unfoldable pub lower_bound : List A → GoString → ℕ
  lower_bound [] k = 0
  lower_bound (x ∷ xs) k = if str_lt (key x) k then suc (lower_bound xs k) else 0

  pub search_rows-le : (l : List A) (k : GoString) → search_rows l k ≤ length l
  unfolding search_rows
  search_rows-le l k = sort_search-le (length l) (at_least l k)

  pub lower_bound-le : (l : List A) (k : GoString) → lower_bound l k ≤ length l
  unfolding lower_bound
  lower_bound-le [] k = omega arith
  lower_bound-le (x ∷ xs) k = ground (arith, lower_bound-le xs k)

  at_least_before :
      (l : List A) (k : GoString) (i : ℕ) → i < lower_bound l k → at_least l k i ≡ false
  unfolding lower_bound at_least
  at_least_before [] k i h = absurd (omega arith)
  at_least_before (x ∷ xs) k zero h = ground arith
  at_least_before (x ∷ xs) k (suc i) h = ground (arith, at_least_before xs k i)

  IsAbove-at_least :
      (l : List A) (j k : GoString) (i : ℕ)
      → IsAbove j l
      → str_lt j k ≡ false
      → at_least l k i ≡ true
  unfolding at_least
  IsAbove-at_least [] j k i a h = refl
  IsAbove-at_least (x ∷ xs) j k zero a h = ground (arith, str_lt_trans j (key x) k)
  IsAbove-at_least (x ∷ xs) j k (suc i) a h = IsAbove-at_least xs j k i a.1 h

  at_least_after :
      (l : List A) (k : GoString) (i : ℕ) → IsSorted l → lower_bound l k ≤ i → at_least l k i ≡ true
  unfolding lower_bound at_least
  at_least_after [] k i s h = refl
  at_least_after (x ∷ xs) k zero s h = ground arith
  at_least_after (x ∷ xs) k (suc i) s h = elim (Bool-cases (str_lt (key x) k)) [
    | inl lt ↦ at_least_after xs k i s.1 (ground arith)
    | inr ge ↦ IsAbove-at_least xs (key x) k i s.0 ge
  ]

  -- On rows in key order the binary search returns the first row that is not below the key.
  pub search_rows-lower_bound :
      (l : List A) (k : GoString) → IsSorted l → search_rows l k ≡ lower_bound l k
  unfolding search_rows
  search_rows-lower_bound l k s =
      sort_search-first (at_least l k) (length l) (lower_bound l k) (at_least_before l k)
        (λ i h _. at_least_after l k i s h) (lower_bound-le l k)

  pub IsAbove-find :
      (l : List A) (j k : GoString) → IsAbove j l → str_lt j k ≡ false → find l k ≡ none
  unfolding find
  IsAbove-find [] j k a h = refl
  IsAbove-find (x ∷ xs) j k a h = ground (arith, eq_of_str_eq (key x) k, IsAbove-find xs j k a.1 h)

  find-lower_bound :
      (l : List A) (k : GoString)
      → IsSorted l
      → elim (get_elem? l (lower_bound l k)) [
        | none ↦ none
        | some row ↦ if str_eq (key row) k then some row else none
      ]
        ≡ find l k
  unfolding lower_bound find
  find-lower_bound [] k s = refl
  find-lower_bound (x ∷ xs) k s = elim (Bool-cases (str_lt (key x) k)) [
    | inl lt ↦ rw (lt, str_lt-str_eq (key x) k lt) (find-lower_bound xs k s.1)
    | inr ge ↦ rw ge (ground (arith, IsAbove-find xs (key x) k s.0 ge))
  ]

  -- So the lookup finds the row that a scan finds, and nothing when the scan finds nothing.
  pub row_at-find : (l : List A) (k : GoString) → IsSorted l → row_at l k ≡ find l k
  unfolding row_at
  row_at-find l k s = rw (search_rows-lower_bound l k s, row_at) (find-lower_bound l k s)
