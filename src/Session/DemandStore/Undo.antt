-- ===== src/Session/DemandStore/Undo.antt =====
-- The undo log takes a transaction back to the groups that it started from.
use solid_ts_facts.Prelude.{
  ℕ, ◌≤◌, ◌≡◌, refl, ap, ◌∙◌, Bool, false, List, [], ◌∷◌, if◌then◌else◌, length, get_elem?, arith,
  inl, inr, Option-cases, Bool-cases,
}
use solid_ts_facts.Keys.{GoString, str_eq}
use solid_ts_facts.Keys.Clean.{clean}
use solid_ts_facts.Keys.Rows.{search_rows, search_rows-le}
use solid_ts_facts.Keys.Edit.{remove_at-insert_at, insert_at-remove_at, set-set}
use solid_ts_facts.Session.DemandStore.{
  DemandGroup, Transaction, group_path, insert_group, replace, remove, replace_all, remove_all,
  start_runs, begin_runs, finish, undo_all, rollback,
}

-- What undoing the whole log gives.
abbrev undone : Transaction → List DemandGroup
undone t = undo_all t.undo t.groups

undone-insert_group :
    (t : Transaction) (index : ℕ) (group : DemandGroup)
    → index ≤ length t.groups
    → undone (insert_group t index group) ≡ undone t
unfolding insert_group undo_all
undone-insert_group t index group h =
    ap (undo_all t.undo) (remove_at-insert_at index group t.groups h)

undone-replace : (t : Transaction) (group : DemandGroup) → undone (replace t group) ≡ undone t
unfolding replace undo_all
undone-replace t group =
    let index : ℕ = search_rows group_path t.groups group.path in
    elim (Option-cases (get_elem? t.groups index)) [
      | inl e ↦
          rw (e, replace)
            (undone-insert_group t index group (search_rows-le group_path t.groups group.path))
      | inr (previous, e) ↦ elim (Bool-cases (str_eq previous.path group.path)) [
        | inl same ↦
            rw (e, same, replace) (ap (undo_all t.undo) (set-set index previous group t.groups e))
        | inr other ↦
            rw (e, other, replace)
              (undone-insert_group t index group (search_rows-le group_path t.groups group.path))
      ]
    ]

undone-remove : (t : Transaction) (path : GoString) → undone (remove t path) ≡ undone t
unfolding remove undo_all
undone-remove t path =
    let index : ℕ = search_rows group_path t.groups path in
    elim (Option-cases (get_elem? t.groups index)) [
      | inl e ↦ rw (e, remove)
      | inr (previous, e) ↦ elim (Bool-cases (str_eq previous.path path)) [
        | inl same ↦
            rw (e, same, remove)
              (ap (undo_all t.undo) (insert_at-remove_at index previous t.groups e))
        | inr other ↦ rw (e, other, remove)
      ]
    ]

undone-replace_all :
    (t : Transaction) (groups : List DemandGroup) → undone (replace_all t groups) ≡ undone t
unfolding replace_all
undone-replace_all t [] = refl
undone-replace_all t (group ∷ rest) =
    undone-replace_all (replace t group) rest ∙ undone-replace t group

undone-remove_all :
    (t : Transaction) (paths : List GoString) → undone (remove_all t paths) ≡ undone t
unfolding remove_all
undone-remove_all t [] = refl
undone-remove_all t (path ∷ rest) =
    undone-remove_all (remove t (clean path)) rest ∙ undone-remove t (clean path)

-- No edit touches the reset data or finishes the transaction.
abbrev Kept : Transaction → Transaction → Type 0
Kept t u = (u.reset ≡ t.reset) × (u.reset_old ≡ t.reset_old) × (u.finished ≡ t.finished)

replace-Kept : (t : Transaction) (group : DemandGroup) → Kept t (replace t group)
unfolding replace insert_group
replace-Kept t group = (ground arith, ground arith, ground arith)

remove-Kept : (t : Transaction) (path : GoString) → Kept t (remove t path)
unfolding remove
remove-Kept t path = (ground arith, ground arith, ground arith)

Kept-trans : (t u w : Transaction) → Kept t u → Kept u w → Kept t w
Kept-trans t u w (a, b, c) (d, e, f) = (d ∙ a, e ∙ b, f ∙ c)

replace_all-Kept : (t : Transaction) (groups : List DemandGroup) → Kept t (replace_all t groups)
unfolding replace_all
replace_all-Kept t [] = (refl, refl, refl)
replace_all-Kept t (group ∷ rest) =
    Kept-trans t (replace t group) (replace_all (replace t group) rest) (replace-Kept t group)
      (replace_all-Kept (replace t group) rest)

remove_all-Kept : (t : Transaction) (paths : List GoString) → Kept t (remove_all t paths)
unfolding remove_all
remove_all-Kept t [] = (refl, refl, refl)
remove_all-Kept t (path ∷ rest) =
    Kept-trans t (remove t (clean path)) (remove_all (remove t (clean path)) rest)
      (remove-Kept t (clean path)) (remove_all-Kept (remove t (clean path)) rest)

rollback-groups :
    (t : Transaction) (before : List DemandGroup)
    → t.finished ≡ false
    → (if t.reset then t.reset_old else undone t) ≡ before
    → (rollback t).groups ≡ before
unfolding rollback finish
rollback-groups t before open_ same = ground arith

-- Whatever runs a transaction replaces and whatever paths it removes, with or without a reset,
-- rolling it back leaves exactly the groups that it began with.
pub rollback-begin_runs :
    (groups changed_runs : List DemandGroup) (removed_paths : List GoString) (reset : Bool)
    → (rollback (begin_runs groups changed_runs removed_paths reset)).groups ≡ groups
unfolding begin_runs start_runs undo_all
rollback-begin_runs groups changed_runs removed_paths reset = rollback-groups t groups kept.2 (
    rw
      (
        kept.0,
        kept.1,
        undone-remove_all edited removed_paths,
        undone-replace_all start changed_runs,
      )
      (ground arith))
  where
    start : Transaction
    start = start_runs groups changed_runs removed_paths reset

    edited : Transaction
    edited = replace_all start changed_runs

    t : Transaction
    t = remove_all edited removed_paths

    kept : Kept start t
    kept =
        Kept-trans start edited t (replace_all-Kept start changed_runs)
          (remove_all-Kept edited removed_paths)
