-- ===== src/Wire/Strings/Laws.antt =====
-- The table stays a bijection between its strings and their indexes, and only grows.
use solid_ts_facts.Prelude.{
  ℕ, zero, suc, ◌+◌, ◌≤◌, length-append, ◌≡◌, refl, ap, none, some, List, [], ◌∷◌, ◌++◌, length,
  get_elem?, arith, inl, inr, Option-cases, Bool-cases, ◌⊎◌, subst, some_inj,
}
use solid_ts_facts.Keys.{GoString, str_eq}
use solid_ts_facts.Keys.Order.{eq_of_str_eq, str_eq_refl}
use solid_ts_facts.Wire.Strings.{
  StringTable, map_get, new_string_table, wire_text, intern_text, intern, lookup,
}

module _ {ℓ} {A : Type ℓ} where
  get_elem?-append_left :
      (xs ys : List A) (i : ℕ) (a : A) → get_elem? xs i ≡ some a → get_elem? (xs ++ ys) i ≡ some a
  get_elem?-append_left [] ys i a h = cc
  get_elem?-append_left (x ∷ xs) ys zero a h = h
  get_elem?-append_left (x ∷ xs) ys (suc i) a h = get_elem?-append_left xs ys i a h

  get_elem?-length : (xs : List A) (a : A) → get_elem? (xs ++ (a ∷ [])) (length xs) ≡ some a
  get_elem?-length [] a = refl
  get_elem?-length (x ∷ xs) a = get_elem?-length xs a

  get_elem?-append_singleton :
      (xs : List A) (a b : A) (i : ℕ)
      → get_elem? (xs ++ (a ∷ [])) i ≡ some b
      → (get_elem? xs i ≡ some b) ⊎ ((i ≡ length xs) × (a ≡ b))
  get_elem?-append_singleton [] a b zero h = inr (refl, (cc))
  get_elem?-append_singleton [] a b (suc i) h = cc
  get_elem?-append_singleton (x ∷ xs) a b zero h = inl h
  get_elem?-append_singleton (x ∷ xs) a b (suc i) h = elim (get_elem?-append_singleton xs a b i h) [
    | inl old ↦ inl old
    | inr (e, f) ↦ inr (ap suc e, f)
  ]

-- Every index that the map holds is the index of its string, and every string is in the map.
pub record IsTable (t : StringTable) : Type 0 where
  pub sound : (k : GoString) (i : ℕ) → map_get t.indexes k ≡ some i → get_elem? t.values i ≡ some k
  pub complete :
      (i : ℕ) (k : GoString) → get_elem? t.values i ≡ some k → map_get t.indexes k ≡ some i
  pub reserved : get_elem? t.values 0 ≡ some []

-- An index that is handed out keeps its string.
abbrev pub Extends : StringTable → StringTable → Type 0
Extends t u = (i : ℕ) (k : GoString) → get_elem? t.values i ≡ some k → get_elem? u.values i ≡ some k

pub new_string_table-IsTable : IsTable new_string_table
unfolding new_string_table map_get str_eq
new_string_table-IsTable = record {
  sound = λ k i h. sound_at k i h;
  complete = λ i k h. complete_at i k h;
  reserved = refl;
}
  where
    sound_at :
        (k : GoString) (i : ℕ)
        → map_get {V = ℕ} (([], 0) ∷ []) k ≡ some i
        → get_elem? {A = GoString} ([] ∷ []) i ≡ some k
    sound_at [] i h = subst (λ j. get_elem? {A = GoString} ([] ∷ []) j ≡ some []) (some_inj h) refl
    sound_at (x ∷ k) i h = cc

    complete_at :
        (i : ℕ) (k : GoString)
        → get_elem? {A = GoString} ([] ∷ []) i ≡ some k
        → map_get {V = ℕ} (([], 0) ∷ []) k ≡ some i
    complete_at zero k h = subst (λ j. map_get {V = ℕ} (([], 0) ∷ []) j ≡ some 0) (some_inj h) refl
    complete_at (suc i) k h = cc

-- What a new entry does to a valid table.
module _ (t : StringTable) (value : GoString) (v : IsTable t)
    (fresh : map_get t.indexes value ≡ none) where
  pushed : StringTable
  pushed = record {
    indexes = (value, length t.values) ∷ t.indexes;
    values = t.values ++ (value ∷ []);
  }

  map_get-pushed :
      (k : GoString) (i : ℕ)
      → map_get pushed.indexes k ≡ some i
      → get_elem? pushed.values i ≡ some k
  unfolding pushed map_get
  map_get-pushed k i h = elim (Bool-cases (str_eq value k)) [
    | inl same ↦
        let index : length t.values ≡ i = some_inj (rw same at h) in
        rw (← index, ← eq_of_str_eq value k same) (get_elem?-length t.values value)
    | inr other ↦ get_elem?-append_left t.values (value ∷ []) i k (v.sound k i (rw other at h))
  ]

  get_elem?-pushed :
      (i : ℕ) (k : GoString)
      → get_elem? pushed.values i ≡ some k
      → map_get pushed.indexes k ≡ some i
  unfolding pushed map_get
  get_elem?-pushed i k h = elim (get_elem?-append_singleton t.values value k i h) [
    | inl old ↦ elim (Bool-cases (str_eq value k)) [
      | inl same ↦ cc (v.complete i k old, eq_of_str_eq value k same)
      | inr other ↦ rw other (v.complete i k old)
    ]
    | inr (e, f) ↦ rw (e, ← f, str_eq_refl value)
  ]

  pushed-IsTable : IsTable pushed
  pushed-IsTable = record {
    sound = map_get-pushed;
    complete = get_elem?-pushed;
    reserved = unfold pushed in get_elem?-append_left t.values (value ∷ []) 0 [] v.reserved;
  }

-- What `intern_text` gives: a valid table that extends the old one and holds the string at the index.
pub record Interns (t : StringTable) (value : GoString) (r : ℕ × StringTable) : Type 0 where
  pub valid : IsTable r.1
  pub extends : Extends t r.1
  pub holds : get_elem? r.1.values r.0 ≡ some value
  pub known : map_get r.1.indexes value ≡ some r.0

pub intern_text-Interns :
    (t : StringTable) (value : GoString) → IsTable t → Interns t value (intern_text t value)
unfolding intern_text
intern_text-Interns t value v = elim (Option-cases (map_get t.indexes value)) [
  | inl fresh ↦
      rw (fresh, intern_text)
        (record {
          valid = unfold pushed in pushed-IsTable t value v fresh;
          extends = λ i k h. get_elem?-append_left t.values (value ∷ []) i k h;
          holds = get_elem?-length t.values value;
          known = unfold map_get in rw (str_eq_refl value);
        })
  | inr (index, old) ↦
      rw (old, intern_text)
        (record { valid = v; extends = λ i k h. h; holds = v.sound value index old; known = old })
]

pub intern-Interns :
    (t : StringTable) (value : GoString) → IsTable t → Interns t (wire_text value) (intern t value)
unfolding intern
intern-Interns t value v = intern_text-Interns t (wire_text value) v

-- The index that a valid table hands out for a string reads back, from the table after it and from
-- every one that extends that, the text of the string.
pub lookup-intern :
    (t u : StringTable) (value : GoString)
    → IsTable t
    → Extends (intern t value).1 u
    → lookup u.values (intern t value).0 ≡ some (wire_text value)
unfolding lookup
lookup-intern t u value v later =
    let r : Interns t (wire_text value) (intern t value) = intern-Interns t value v in
    later (intern t value).0 (wire_text value) r.holds

intern_text_known :
    (t : StringTable) (value : GoString) (i : ℕ)
    → map_get t.indexes value ≡ some i
    → intern_text t value ≡ (i, t)
unfolding intern_text
intern_text_known t value i h = rw (h, intern_text)

-- A string that was interned before gets its index again and changes nothing.
pub intern_twice :
    (t : StringTable) (value : GoString)
    → IsTable t
    → intern (intern t value).1 value ≡ intern t value
unfolding intern
intern_twice t value v =
    intern_text_known (intern_text t (wire_text value)).1 (wire_text value) _
      (intern_text-Interns t (wire_text value) v).known

-- Two strings that a valid table interns one after the other get one index only if they have the same
-- text.
pub intern_injective :
    (t : StringTable) (a b : GoString)
    → IsTable t
    → (intern (intern t a).1 b).0 ≡ (intern t a).0
    → wire_text a ≡ wire_text b
intern_injective t a b v same =
    let first : Interns t (wire_text a) (intern t a) = intern-Interns t a v in
    let second : Interns (intern t a).1 (wire_text b) (intern (intern t a).1 b) =
      intern-Interns (intern t a).1 b first.valid in
    let kept : get_elem? (intern (intern t a).1 b).1.values (intern t a).0 ≡ some (wire_text a) =
      second.extends (intern t a).0 (wire_text a) first.holds in
    cc (kept, second.holds, same)

-- A later table: valid, with every index kept, and at most `n` strings more.
pub record Grows (t u : StringTable) (n : ℕ) : Type 0 where
  pub valid : IsTable u
  pub extends : Extends t u
  pub bounded : length u.values ≤ length t.values + n

length-intern_text :
    (t : StringTable) (value : GoString)
    → length (intern_text t value).1.values ≤ length t.values + 1
unfolding intern_text
length-intern_text t value = elim (Option-cases (map_get t.indexes value)) [
  | inl e ↦ rw (e, intern_text) (omega (arith, length-append t.values (value ∷ [])))
  | inr (i, e) ↦ rw (e, intern_text) (omega arith)
]

pub intern-Grows : (t : StringTable) (value : GoString) → IsTable t → Grows t (intern t value).1 1
unfolding intern
intern-Grows t value v =
    let r : Interns t (wire_text value) (intern_text t (wire_text value)) =
      intern_text-Interns t (wire_text value) v in
    record {
      valid = r.valid;
      extends = r.extends;
      bounded = length-intern_text t (wire_text value);
    }

pub Grows-trans : (t u w : StringTable) (n k : ℕ) → Grows t u n → Grows u w k → Grows t w (n + k)
Grows-trans t u w n k a b = record {
  valid = b.valid;
  extends = λ i s h. b.extends i s (a.extends i s h);
  bounded = omega (arith, a.bounded, b.bounded);
}

pub Grows-refl : (t : StringTable) (n : ℕ) → IsTable t → Grows t t n
Grows-refl t n v = record { valid = v; extends = λ i s h. h; bounded = omega arith }
