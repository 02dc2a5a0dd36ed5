-- ===== src/Keys/Edit.antt =====
-- Replacing, inserting and removing one row of a slice in key order, at the index that the binary
-- search gives, against the same edits as a walk over the rows.
use solid_ts_facts.Prelude.{
  ℕ, zero, suc, ◌≤◌, ◌≡◌, true, List, [], ◌∷◌, none, some, refl, ap, if◌then◌else◌, length,
  get_elem?, set, arith, subst,
}
use solid_ts_facts.Keys.{GoString, str_eq, str_lt}
use solid_ts_facts.Keys.Order.{str_lt_trans, str_lt_total, eq_of_str_eq, str_lt_irrefl}
use solid_ts_facts.Keys.Rows.{IsAbove, IsSorted, find, lower_bound, IsAbove-find}

module _ {ℓ} {A : Type ℓ} where
  -- append(rows, zero); copy(rows[i+1:], rows[i:]); rows[i] = row
  unfoldable pub insert_at : ℕ → A → List A → List A
  insert_at zero row l = row ∷ l
  insert_at (suc i) row [] = row ∷ []
  insert_at (suc i) row (x ∷ xs) = x ∷ insert_at i row xs

  -- copy(rows[i:], rows[i+1:]); rows[:len(rows)-1]
  unfoldable pub remove_at : ℕ → List A → List A
  remove_at i [] = []
  remove_at zero (x ∷ xs) = xs
  remove_at (suc i) (x ∷ xs) = x ∷ remove_at i xs

  pub remove_at-insert_at :
      (i : ℕ) (row : A) (l : List A) → i ≤ length l → remove_at i (insert_at i row l) ≡ l
  unfolding remove_at insert_at
  remove_at-insert_at zero row l h = refl
  remove_at-insert_at (suc i) row [] h = absurd (omega arith)
  remove_at-insert_at (suc i) row (x ∷ xs) h =
      ap (◌∷◌ x) (remove_at-insert_at i row xs (omega arith))

  pub insert_at-remove_at :
      (i : ℕ) (row : A) (l : List A)
      → get_elem? l i ≡ some row
      → insert_at i row (remove_at i l) ≡ l
  unfolding remove_at insert_at
  insert_at-remove_at i row [] h = cc
  insert_at-remove_at zero row (x ∷ xs) h = ap (λ a. a ∷ xs) (cc)
  insert_at-remove_at (suc i) row (x ∷ xs) h = ap (◌∷◌ x) (insert_at-remove_at i row xs h)

  pub set-set :
      (i : ℕ) (old row : A) (l : List A) → get_elem? l i ≡ some old → set (set l i row) i old ≡ l
  set-set i old row [] h = cc
  set-set zero old row (x ∷ xs) h = ap (λ a. a ∷ xs) (cc)
  set-set (suc i) old row (x ∷ xs) h = ap (◌∷◌ x) (set-set i old row xs h)

module _ {ℓ} {A : Type ℓ} (key : A → GoString) where
  unfoldable pub put : List A → A → List A
  put [] row = row ∷ []
  put (x ∷ xs) row =
      if str_lt (key x) (key row)
      then x ∷ put xs row
      else if str_eq (key x) (key row)
      then row ∷ xs
      else row ∷ x ∷ xs

  unfoldable pub delete : List A → GoString → List A
  delete [] k = []
  delete (x ∷ xs) k =
      if str_lt (key x) k then x ∷ delete xs k else if str_eq (key x) k then xs else x ∷ xs

  -- The edits by index, at the first row that is not below the key.
  pub put_by_index :
      (l : List A) (row : A)
      → elim (get_elem? l (lower_bound key l (key row))) [
        | none ↦ insert_at (lower_bound key l (key row)) row l
        | some old ↦
            if str_eq (key old) (key row)
            then set l (lower_bound key l (key row)) row
            else insert_at (lower_bound key l (key row)) row l
      ]
        ≡ put l row
  unfolding lower_bound insert_at put
  put_by_index [] row = refl
  put_by_index (x ∷ xs) row = ground (arith, put_by_index xs row)

  pub IsAbove-put :
      (l : List A) (row : A) (j : GoString)
      → IsAbove key j l
      → str_lt j (key row) ≡ true
      → IsAbove key j (put l row)
  unfolding put
  IsAbove-put [] row j a h = (h, tt)
  IsAbove-put (x ∷ xs) row j a h = ground (arith, IsAbove-put xs row j a.1 h)

  pub IsAbove-trans :
      (l : List A) (j k : GoString) → str_lt j k ≡ true → IsAbove key k l → IsAbove key j l
  IsAbove-trans [] j k h a = tt
  IsAbove-trans (x ∷ xs) j k h a = (str_lt_trans j k (key x) h a.0, IsAbove-trans xs j k h a.1)

  IsAbove-eq : (l : List A) (j k : GoString) → str_eq j k ≡ true → IsAbove key j l → IsAbove key k l
  IsAbove-eq l j k e a = subst (λ i. IsAbove key i l) (eq_of_str_eq j k e) a

  IsAbove-delete : (l : List A) (k j : GoString) → IsAbove key j l → IsAbove key j (delete l k)
  unfolding delete
  IsAbove-delete [] k j a = tt
  IsAbove-delete (x ∷ xs) k j a = ground (arith, IsAbove-delete xs k j a.1)

  pub put-IsSorted : (l : List A) (row : A) → IsSorted key l → IsSorted key (put l row)
  unfolding put
  put-IsSorted [] row s = (tt, tt)
  put-IsSorted (x ∷ xs) row s = ground (
    arith,
    put-IsSorted xs row s.1,
    IsAbove-put xs row (key x) s.0,
    IsAbove-eq xs (key x) (key row),
    IsAbove-trans xs (key row) (key x),
    str_lt_total (key x) (key row),
  )

  pub delete-IsSorted : (l : List A) (k : GoString) → IsSorted key l → IsSorted key (delete l k)
  unfolding delete
  delete-IsSorted [] k s = tt
  delete-IsSorted (x ∷ xs) k s =
      ground (arith, delete-IsSorted xs k s.1, IsAbove-delete xs k (key x) s.0)

  -- A lookup after `put` reads the new row at its key, and every other key as before.
  pub find-put :
      (l : List A) (row : A) (k : GoString)
      → IsSorted key l
      → find key (put l row) k ≡ (if str_eq (key row) k then some row else find key l k)
  unfolding put find
  find-put [] row k s = refl
  find-put (x ∷ xs) row k s = ground (
    arith,
    find-put xs row k s.1,
    eq_of_str_eq (key x) (key row),
    eq_of_str_eq (key row) k,
    eq_of_str_eq (key x) k,
    str_lt_irrefl (key x),
  )

  pub find-delete :
      (l : List A) (k j : GoString)
      → IsSorted key l
      → find key (delete l k) j ≡ (if str_eq k j then none else find key l j)
  unfolding delete find
  find-delete [] k j s = ground arith
  find-delete (x ∷ xs) k j s = ground (
    arith,
    find-delete xs k j s.1,
    eq_of_str_eq (key x) k,
    eq_of_str_eq k j,
    eq_of_str_eq (key x) j,
    str_lt_irrefl (key x),
    IsAbove-find key xs (key x) j s.0,
  )

  pub delete_by_index :
      (l : List A) (k : GoString)
      → elim (get_elem? l (lower_bound key l k)) [
        | none ↦ l
        | some old ↦ if str_eq (key old) k then remove_at (lower_bound key l k) l else l
      ]
        ≡ delete l k
  unfolding lower_bound remove_at delete
  delete_by_index [] k = refl
  delete_by_index (x ∷ xs) k = ground (arith, delete_by_index xs k)
