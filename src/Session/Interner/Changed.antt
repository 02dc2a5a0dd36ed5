-- ===== src/Session/Interner/Changed.antt =====
-- internal/typefacts/symbol_intern.go: the changed symbol set as a list without repeats.
use solid_ts_facts.Prelude.{
  ℕ, ◌+◌, ◌^◌, ◌≤◌, ◌<◌, ◌≡◌, refl, sym, ap, ◌∙◌, subst, inl, inr, Bool, false, ◌||◌, some, List,
  [], ◌∷◌, ◌++◌, arith, if◌then◌else◌, Option-cases, length,
}
use solid_ts_facts.Keys.{GoString}
use solid_ts_facts.Keys.Order.{str_eq_refl}
use solid_ts_facts.Session.Interner.{
  SymbolInterner, handle, lookup_handle, new_symbol_handle_set, grown, add, contains, add_id,
  contains_id, ChangedSymbolSet, new_changed_symbol_set, add_changed,
}
use solid_ts_facts.Session.Interner.Dense.{
  IsInterned, entered, Handles, known, new, handle-Handles, entered-IsInterned,
}
use solid_ts_facts.Session.Interner.Laws.{reads-falses}
use solid_ts_facts.Session.Interner.Tracked.{
  IsTracked, entered-IsTracked, with_id, is_member-with_id, add-IsTracked, fresh_ids,
}
use solid_ts_facts.Transition.PathPlan.{is_member}
use solid_ts_facts.Wire.Strings.{map_get}

Added : SymbolInterner → ChangedSymbolSet → GoString → ChangedSymbolSet × SymbolInterner → Type 0
Added n c id (after, m) =
    IsInterned m
    × IsTracked m after.handle_set after.ids
    × (after.ids ≡ with_id c.ids id)
    × (m.count ≤ n.count + 1)

-- The changed set once the handle is known.
module _ (n : SymbolInterner) (c : ChangedSymbolSet) (id : GoString) where
  inserted : SymbolInterner → ℕ → ChangedSymbolSet
  inserted m h = record {
    handle_set = (add m c.handle_set h).1;
    ids = if (add m c.handle_set h).0 then c.ids ++ (id ∷ []) else c.ids;
  }

  inserted-Added :
      (m : SymbolInterner) (h : ℕ)
      → IsInterned m
      → map_get m.handles id ≡ some h
      → IsTracked m c.handle_set c.ids
      → m.count ≤ n.count + 1
      → Added n c id (inserted m h, m)
  unfolding Added inserted
  inserted-Added m h v e t few =
      let ids : (inserted m h).ids ≡ with_id c.ids id = fresh_ids m c.handle_set c.ids id h v e t in
      (
        v,
        subst (IsTracked m (inserted m h).handle_set) (sym ids)
            (add-IsTracked m c.handle_set c.ids id h v e t),
        ids,
        few,
      )

  Handles-Added :
      (h : ℕ) (m : SymbolInterner)
      → IsInterned n
      → IsTracked n c.handle_set c.ids
      → Handles n id h m
      → Added n c id (inserted m h, m)
  unfolding entered map_get
  Handles-Added _ _ v t (known h e) = inserted-Added n h v e t (omega arith)
  Handles-Added _ _ v t (new none_yet) =
      inserted-Added (entered n id) n.count (entered-IsInterned n id v none_yet)
        (rw (str_eq_refl id) refl) (entered-IsTracked n id c.handle_set c.ids none_yet t)
        (omega arith)

  add_changed-Added :
      IsInterned n
      → IsTracked n c.handle_set c.ids
      → n.count + 1 < 2 ^ 32
      → Added n c id (add_changed n c id)
  unfolding add_changed add_id inserted
  add_changed-Added v t room =
      Handles-Added (handle n id).0 (handle n id).1 v t (handle-Handles n id room)

-- The IDs of a list at their first places, after those of another.
unfoldable pub first_places : List GoString → List GoString → List GoString
first_places seen [] = seen
first_places seen (id ∷ rest) = first_places (with_id seen id) rest

is_member-first_places :
    (seen ids : List GoString) (k : GoString)
    → is_member (first_places seen ids) k ≡ (is_member seen k || is_member ids k)
unfolding first_places is_member
is_member-first_places seen [] k = ground arith
is_member-first_places seen (id ∷ rest) k =
    ground (arith, is_member-first_places (with_id seen id) rest k, is_member-with_id seen id k)

-- A changed set after several calls of `add`, one after the other.
pub add_all : SymbolInterner → ChangedSymbolSet → List GoString → ChangedSymbolSet × SymbolInterner
add_all n c [] = (c, n)
add_all n c (id ∷ rest) = let (next, m) = add_changed n c id in add_all m next rest

add_all-first_places :
    (n : SymbolInterner) (c : ChangedSymbolSet) (ids : List GoString)
    → IsInterned n
    → IsTracked n c.handle_set c.ids
    → n.count + length ids < 2 ^ 31
    → let (after, m) = add_all n c ids in
      (after.ids ≡ first_places c.ids ids) × IsTracked m after.handle_set after.ids
unfolding add_all first_places Added
add_all-first_places n c [] v t room = (refl, t)
add_all-first_places n c (id ∷ rest) v t room =
    let (w, u, grown, few) = add_changed-Added n c id v t (omega (arith, room)) in
    let next = add_changed n c id in
    let (ids, tracked) = add_all-first_places next.1 next.0 rest w u (omega (arith, room, few)) in
    (ids ∙ ap (λ l. first_places l rest) grown, tracked)

vacant :
    (n : SymbolInterner) (scratch : List Bool) (h : ℕ)
    → contains (new_symbol_handle_set n scratch) h ≡ false
unfolding contains new_symbol_handle_set
vacant n scratch h = reads-falses [] _ h

new_symbol_handle_set-IsTracked :
    (n : SymbolInterner) (scratch : List Bool) → IsTracked n (new_symbol_handle_set n scratch) []
unfolding contains_id lookup_handle is_member
new_symbol_handle_set-IsTracked n scratch = record {
  below = λ h e. absurd (ground (arith, vacant n scratch h, e));
  listed = λ k. elim (Option-cases (map_get n.handles k)) [
    | inl none_yet ↦ rw (contains_id, lookup_handle, none_yet) refl
    | inr (h, f) ↦ rw (contains_id, lookup_handle, f) (vacant n scratch h)
  ];
}

-- A changed symbol set that starts out empty, on whatever scratch, lists the IDs that are added to it
-- once each, in the order of their first additions, and answers for any ID, known or not, whether it
-- was added. This takes an interner whose handles are below its count and are not shared, and IDs
-- few enough for 31-bit handles.
pub add_all-new_changed_symbol_set :
    (n : SymbolInterner) (scratch : List Bool) (ids : List GoString)
    → IsInterned n
    → n.count + length ids < 2 ^ 31
    → let (after, m) = add_all n (new_changed_symbol_set n scratch) ids in
      (after.ids ≡ first_places [] ids)
      × ((k : GoString) → contains_id m after.handle_set k ≡ is_member ids k)
unfolding new_changed_symbol_set is_member
add_all-new_changed_symbol_set n scratch ids v room =
    let (listed, tracked) =
      add_all-first_places n (new_changed_symbol_set n scratch) ids v
        (new_symbol_handle_set-IsTracked n scratch) room in
    (
      listed,
      λ k. tracked.listed k ∙ ap (λ l. is_member l k) listed ∙ is_member-first_places [] ids k,
    )
