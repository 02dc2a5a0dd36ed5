-- ===== src/Session/Interner/Tracked.antt =====
-- internal/typefacts/symbol_intern.go: a set of handles as the list of its IDs.
use solid_ts_facts.Prelude.{
  ℕ, ◌<◌, ◌≡◌, refl, sym, ap, ◌∙◌, inl, inr, Bool, true, false, not, ◌||◌, none, some, List, [],
  ◌∷◌, ◌++◌, arith, ◌==◌, if◌then◌else◌, Bool-cases, Option-cases, some_inj,
}
use solid_ts_facts.Keys.{GoString, str_eq}
use solid_ts_facts.Keys.Order.{str_eq_refl, eq_of_str_eq}
use solid_ts_facts.Session.Interner.{
  SymbolInterner, lookup_handle, SymbolHandleSet, add, contains, contains_id,
}
use solid_ts_facts.Session.Interner.Dense.{IsInterned, entered}
use solid_ts_facts.Session.Interner.Laws.{add-Adds}
use solid_ts_facts.Transition.PathPlan.{is_member}
use solid_ts_facts.Wire.Strings.{map_get}

-- The set holds handles that are in use, those of the IDs.
pub record IsTracked (n : SymbolInterner) (s : SymbolHandleSet) (ids : List GoString) : Type 0 where
  pub below : (h : ℕ) → contains s h ≡ true → h < n.count
  pub listed : (k : GoString) → contains_id n s k ≡ is_member ids k

is_member-snoc :
    (ids : List GoString) (id k : GoString)
    → is_member (ids ++ (id ∷ [])) k ≡ (str_eq id k || is_member ids k)
unfolding is_member
is_member-snoc [] id k = refl
is_member-snoc (i ∷ ids) id k = ground (arith, is_member-snoc ids id k)

module _ (n : SymbolInterner) (id : GoString) where
  pub entered-IsTracked :
      (s : SymbolHandleSet) (ids : List GoString)
      → map_get n.handles id ≡ none
      → IsTracked n s ids
      → IsTracked (entered n id) s ids
  unfolding entered map_get contains_id lookup_handle
  entered-IsTracked s ids none_yet t = record {
    below = λ h e. let lt : h < n.count = t.below h e in omega arith;
    listed = listed;
  }
    where
      empty_cell : contains s n.count ≡ false
      empty_cell = elim (Bool-cases (contains s n.count)) [
        | inl full ↦ let lt : n.count < n.count = t.below n.count full in absurd (omega arith)
        | inr empty ↦ empty
      ]

      listed : (k : GoString) → contains_id (entered n id) s k ≡ is_member ids k
      listed k = elim (Bool-cases (str_eq id k)) [
        | inl same ↦
            rw (contains_id, lookup_handle, same)
              (empty_cell
                ∙ (ap (λ o. elim o as (λ p. Bool) [ none ↦ false | some h ↦ contains s h ])
                      (sym none_yet)
                    ∙ t.listed id
                    ∙ ap (is_member ids) (eq_of_str_eq id k same)))
        | inr other ↦ rw (contains_id, lookup_handle, other) (t.listed k)
      ]

-- A list with an ID at its end, unless it has the ID.
abbrev pub with_id : List GoString → GoString → List GoString
with_id ids id = if is_member ids id then ids else ids ++ (id ∷ [])

pub is_member-with_id :
    (ids : List GoString) (id k : GoString)
    → is_member (with_id ids id) k ≡ (str_eq id k || is_member ids k)
is_member-with_id ids id k = elim (Bool-cases (is_member ids id)) [
  | inl has ↦ rw has (elim (Bool-cases (str_eq id k)) [
    | inl same ↦ rw same (ap (is_member ids) (sym (eq_of_str_eq id k same)) ∙ has)
    | inr other ↦ rw other refl
  ])
  | inr lacks ↦ rw lacks (is_member-snoc ids id k)
]

-- What adding an ID's handle does to a set that tracks a list.
module _ (n : SymbolInterner) (s : SymbolHandleSet) (ids : List GoString) (id : GoString) (h : ℕ)
    (v : IsInterned n) (e : map_get n.handles id ≡ some h) (t : IsTracked n s ids) where
  same_handle : (k : GoString) (j : ℕ) → map_get n.handles k ≡ some j → (j == h) ≡ str_eq id k
  same_handle k j f = elim (Bool-cases (str_eq id k)) [
    | inl same ↦
        let equal : j ≡ h =
          some_inj (sym f ∙ ap (map_get n.handles) (sym (eq_of_str_eq id k same)) ∙ e) in
        rw same (ground arith)
    | inr other ↦ elim (Bool-cases (j == h)) [
      | inl equal ↦
          let is : j ≡ h = ground arith in
          let one : id ≡ k = v.apart id k h e (f ∙ ap some is) in
          absurd (ground (arith, str_eq_refl id))
      | inr apart ↦ rw other apart
    ]
  ]

  add-contains_id :
      (k : GoString) → contains_id n (add n s h).1 k ≡ (str_eq id k || contains_id n s k)
  unfolding contains_id lookup_handle
  add-contains_id k =
      let (_, holds, _) = add-Adds n s h in
      elim (Option-cases (map_get n.handles k)) [
        | inl none_yet ↦ elim (Bool-cases (str_eq id k)) [
          | inl same ↦
              let both : some h ≡ none =
                sym e ∙ ap (map_get n.handles) (eq_of_str_eq id k same) ∙ none_yet in
              absurd cc
          | inr other ↦ rw (contains_id, lookup_handle, none_yet, other) refl
        ]
        | inr (j, f) ↦
            rw (contains_id, lookup_handle, f)
              (holds j ∙ ap (λ b. b || contains s j) (same_handle k j f))
      ]

  pub add-IsTracked : IsTracked n (add n s h).1 (with_id ids id)
  add-IsTracked = record {
    below = λ i f.
        let (_, holds, _) = add-Adds n s h in
        let lt : h < n.count = v.bounded id h e in ground (arith, holds i, t.below i, f);
    listed = λ k.
        add-contains_id k
        ∙ ap (λ b. str_eq id k || b) (t.listed k)
        ∙ sym (is_member-with_id ids id k);
  }

  pub fresh_ids : (if (add n s h).0 then ids ++ (id ∷ []) else ids) ≡ with_id ids id
  unfolding contains_id lookup_handle
  fresh_ids =
      let (fresh, _, _) = add-Adds n s h in
      let cell : contains s h ≡ contains_id n s id = rw (contains_id, lookup_handle, e) refl in
      let is : (add n s h).0 ≡ not (is_member ids id) = fresh ∙ ap not (cell ∙ t.listed id) in
      elim (Bool-cases (is_member ids id)) [
        | inl has ↦ rw (is, has) refl
        | inr lacks ↦ rw (is, lacks) refl
      ]
