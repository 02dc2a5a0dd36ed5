-- ===== src/Session/DemandStore/Contents.antt =====
-- What a transaction does to the groups: they stay in path order, one for each path, and a path
-- reads as the last run that named it, or as nothing once it is removed.
use solid_ts_facts.Prelude.{
  ℕ, ◌≡◌, refl, ap, ◌∙◌, fun_ext, Bool, true, false, Option, none, some, List, [], ◌∷◌,
  if◌then◌else◌, get_elem?, set, inl, inr, Option-cases, Bool-cases,
}
use solid_ts_facts.Keys.{GoString, str_eq}
use solid_ts_facts.Keys.Clean.{clean}
use solid_ts_facts.Keys.Rows.{IsSorted, find, search_rows, search_rows-lower_bound}
use solid_ts_facts.Keys.Edit.{
  insert_at, remove_at, put, delete, put_by_index, delete_by_index, put-IsSorted, delete-IsSorted,
  find-put, find-delete,
}
use solid_ts_facts.Session.DemandStore.{
  DemandGroup, Transaction, group_path, insert_group, replace, remove, replace_all, remove_all,
  start_runs, begin_runs,
}

abbrev pub InOrder : Transaction → Type 0
InOrder t = IsSorted group_path t.groups

-- The groups after an edit at an index.
unfoldable put_at : List DemandGroup → DemandGroup → ℕ → List DemandGroup
put_at l group index = elim (get_elem? l index) [
  | none ↦ insert_at index group l
  | some previous ↦
      if str_eq (group_path previous) (group_path group)
      then set l index group
      else insert_at index group l
]

unfoldable delete_at : List DemandGroup → GoString → ℕ → List DemandGroup
delete_at l path index = elim (get_elem? l index) [
  | none ↦ l
  | some previous ↦ if str_eq (group_path previous) path then remove_at index l else l
]

replace-put_at :
    (t : Transaction) (group : DemandGroup)
    → (replace t group).groups
      ≡ put_at t.groups group (search_rows group_path t.groups (group_path group))
unfolding replace insert_group put_at insert_at
replace-put_at t group =
    let index : ℕ = search_rows group_path t.groups group.path in
    elim (Option-cases (get_elem? t.groups index)) [
      | inl e ↦ rw (put_at, e, replace)
      | inr (previous, e) ↦ elim (Bool-cases (str_eq previous.path group.path)) [
        | inl same ↦ rw (put_at, e, same, replace)
        | inr other ↦ rw (put_at, e, other, replace)
      ]
    ]

remove-delete_at :
    (t : Transaction) (path : GoString)
    → (remove t path).groups ≡ delete_at t.groups path (search_rows group_path t.groups path)
unfolding remove delete_at
remove-delete_at t path =
    let index : ℕ = search_rows group_path t.groups path in
    elim (Option-cases (get_elem? t.groups index)) [
      | inl e ↦ rw (delete_at, e, remove)
      | inr (previous, e) ↦ elim (Bool-cases (str_eq previous.path path)) [
        | inl same ↦ rw (delete_at, e, same, remove)
        | inr other ↦ rw (delete_at, e, other, remove)
      ]
    ]

replace-put :
    (t : Transaction) (group : DemandGroup)
    → InOrder t
    → (replace t group).groups ≡ put group_path t.groups group
unfolding put_at
replace-put t group s =
    replace-put_at t group
    ∙ ap (put_at t.groups group) (search_rows-lower_bound group_path t.groups (group_path group) s)
    ∙ put_by_index group_path t.groups group

remove-delete :
    (t : Transaction) (path : GoString)
    → InOrder t
    → (remove t path).groups ≡ delete group_path t.groups path
unfolding delete_at
remove-delete t path s =
    remove-delete_at t path
    ∙ ap (delete_at t.groups path) (search_rows-lower_bound group_path t.groups path s)
    ∙ delete_by_index group_path t.groups path

-- A map from paths to groups with one path's group replaced, or gone.
abbrev pub overlay :
    (GoString → Option DemandGroup) → List DemandGroup → GoString → Option DemandGroup
overlay f [] k = f k
overlay f (group ∷ rest) k = overlay (λ j. if str_eq group.path j then some group else f j) rest k

abbrev pub without : (GoString → Option DemandGroup) → List GoString → GoString → Option DemandGroup
without f [] k = f k
without f (path ∷ rest) k = without (λ j. if str_eq (clean path) j then none else f j) rest k

replace_all-overlay :
    (t : Transaction) (groups : List DemandGroup)
    → InOrder t
    → InOrder (replace_all t groups)
      × find group_path (replace_all t groups).groups ≡ overlay (find group_path t.groups) groups
unfolding replace_all
replace_all-overlay t [] s = (s, refl)
replace_all-overlay t (group ∷ rest) s =
    let next = replace_all-overlay (replace t group) rest ordered in
    (next.0, next.1 ∙ ap (λ f. overlay f rest) (fun_ext reads))
  where
    edited : (replace t group).groups ≡ put group_path t.groups group
    edited = replace-put t group s

    ordered : InOrder (replace t group)
    ordered = rw edited (put-IsSorted group_path t.groups group s)

    reads :
        (k : GoString)
        → find group_path (replace t group).groups k
          ≡ (if str_eq (group_path group) k then some group else find group_path t.groups k)
    reads k = rw edited (find-put group_path t.groups group k s)

remove_all-without :
    (t : Transaction) (paths : List GoString)
    → InOrder t
    → InOrder (remove_all t paths)
      × find group_path (remove_all t paths).groups ≡ without (find group_path t.groups) paths
unfolding remove_all
remove_all-without t [] s = (s, refl)
remove_all-without t (path ∷ rest) s =
    let next = remove_all-without (remove t (clean path)) rest ordered in
    (next.0, next.1 ∙ ap (λ f. without f rest) (fun_ext reads))
  where
    edited : (remove t (clean path)).groups ≡ delete group_path t.groups (clean path)
    edited = remove-delete t (clean path) s

    ordered : InOrder (remove t (clean path))
    ordered = rw edited (delete-IsSorted group_path t.groups (clean path) s)

    reads :
        (k : GoString)
        → find group_path (remove t (clean path)).groups k
          ≡ (if str_eq (clean path) k then none else find group_path t.groups k)
    reads k = rw edited (find-delete group_path t.groups (clean path) k s)

-- From groups in path order, a transaction ends with groups in path order in which a path reads as
-- nothing when it is one of the cleaned removed paths, else as the last run with that path, else as
-- before, or as nothing after a reset.
pub begin_runs-overlay :
    (groups changed_runs : List DemandGroup) (removed_paths : List GoString) (reset : Bool)
    → IsSorted group_path groups
    → InOrder (begin_runs groups changed_runs removed_paths reset)
      × find group_path (begin_runs groups changed_runs removed_paths reset).groups
        ≡ without
            (overlay (find group_path (if reset then [] else groups)) changed_runs)
            removed_paths
unfolding begin_runs start_runs
begin_runs-overlay groups changed_runs removed_paths reset s =
    (removed.0, removed.1 ∙ ap (λ f. without f removed_paths) replaced.1)
  where
    start : Transaction
    start = start_runs groups changed_runs removed_paths reset

    start_in_order : (r : Bool) → IsSorted group_path (if r then [] else groups)
    start_in_order true = tt
    start_in_order false = s

    replaced :
        InOrder (replace_all start changed_runs)
        × find group_path (replace_all start changed_runs).groups
          ≡ overlay (find group_path start.groups) changed_runs
    replaced = replace_all-overlay start changed_runs (start_in_order reset)

    removed :
        InOrder (remove_all (replace_all start changed_runs) removed_paths)
        × find group_path (remove_all (replace_all start changed_runs) removed_paths).groups
          ≡ without (find group_path (replace_all start changed_runs).groups) removed_paths
    removed = remove_all-without (replace_all start changed_runs) removed_paths replaced.0
