-- ===== src/Tests/Store.antt =====
-- A transaction of demand groups over two paths, and a set of handles.
use solid_ts_facts.Prelude.{
  ℕ, ◌+◌, ◌^◌, ◌<◌, ◌≡◌, refl, true, false, none, some, List, [], ◌∷◌, arith, length,
}
use solid_ts_facts.Keys.{GoString, str_eq, str_lt}
use solid_ts_facts.Keys.Clean.{clean}
use solid_ts_facts.Keys.Edit.{insert_at, remove_at}
use solid_ts_facts.Keys.Rows.{IsSorted, at_least, search_rows, row_at, find, row_at-find}
use solid_ts_facts.Keys.Search.{sort_search}
use solid_ts_facts.Session.DemandStore.{
  DemandGroup, group_path, replace, remove, replace_all, remove_all, changed_paths_of, start_runs,
  begin_runs, rollback,
}
use solid_ts_facts.Session.DemandStore.Contents.{InOrder, overlay, without, begin_runs-overlay}
use solid_ts_facts.Session.DemandStore.Undo.{rollback-begin_runs}
use solid_ts_facts.Session.Interner.{
  new_symbol_interner, SymbolHandleSet, new_symbol_handle_set, add, contains_id,
  new_changed_symbol_set,
}
use solid_ts_facts.Session.Interner.Changed.{first_places, add_all, add_all-new_changed_symbol_set}
use solid_ts_facts.Session.Interner.Dense.{new_symbol_interner-IsInterned}
use solid_ts_facts.Session.Interner.Laws.{Adds, add-Adds}
use solid_ts_facts.Transition.PathPlan.{is_member}

abbrev path_a : GoString
path_a = 97 ∷ []

abbrev path_b : GoString
path_b = 98 ∷ []

abbrev group_of : GoString → ℕ → DemandGroup
group_of path n = record {
  path = path;
  demands = none;
  compact = record { path = n; demands = [] };
  strings = none;
  hash = 0;
  contribution = none;
}

abbrev groups : List DemandGroup
groups = group_of path_a 1 ∷ group_of path_b 2 ∷ []

a_below_b : str_lt path_a path_b ≡ true
unfolding str_lt
a_below_b = refl

groups-IsSorted : IsSorted group_path groups
groups-IsSorted = ((a_below_b, tt), (tt, tt))

rollback-begin_runs_example :
    (rollback (begin_runs groups (group_of path_b 3 ∷ []) (path_a ∷ []) false)).groups ≡ groups
rollback-begin_runs_example =
    rollback-begin_runs groups (group_of path_b 3 ∷ []) (path_a ∷ []) false

begin_runs-overlay_example :
    InOrder (begin_runs groups (group_of path_b 3 ∷ []) (path_a ∷ []) false)
    × find group_path (begin_runs groups (group_of path_b 3 ∷ []) (path_a ∷ []) false).groups
      ≡ without (overlay (find group_path groups) (group_of path_b 3 ∷ [])) (path_a ∷ [])
begin_runs-overlay_example =
    begin_runs-overlay groups (group_of path_b 3 ∷ []) (path_a ∷ []) false groups-IsSorted

row_at-find_example : row_at group_path groups path_b ≡ find group_path groups path_b
row_at-find_example = row_at-find group_path groups path_b groups-IsSorted

-- The run that replaces path b is read there, and path a is gone.
replaced_b :
    find group_path (begin_runs groups (group_of path_b 3 ∷ []) (path_a ∷ []) false).groups path_b
    ≡ some (group_of path_b 3)
unfolding begin_runs start_runs replace_all remove_all replace remove search_rows find str_eq str_lt
    clean insert_at remove_at at_least sort_search changed_paths_of
replaced_b = refl

-- Handle 70 makes the empty set grow to 71 cells.
abbrev empty_set : SymbolHandleSet
empty_set = new_symbol_handle_set new_symbol_interner []

add-Adds_example : Adds empty_set 70 (add new_symbol_interner empty_set 70)
add-Adds_example = add-Adds new_symbol_interner empty_set 70

-- Three IDs, one of them twice, on a scratch with an old member.
abbrev changed_ids : List GoString
changed_ids = path_b ∷ path_a ∷ path_b ∷ []

few_ids : new_symbol_interner.count + length changed_ids < 2 ^ 31
unfolding new_symbol_interner
few_ids = omega arith

add_all-new_changed_symbol_set_example :
    let (after, m) =
      add_all new_symbol_interner
        (new_changed_symbol_set new_symbol_interner (true ∷ []))
        changed_ids in
    (after.ids ≡ first_places [] changed_ids)
    × ((k : GoString) → contains_id m after.handle_set k ≡ is_member changed_ids k)
add_all-new_changed_symbol_set_example =
    add_all-new_changed_symbol_set new_symbol_interner (true ∷ []) changed_ids
      new_symbol_interner-IsInterned few_ids

first_ids : first_places [] changed_ids ≡ path_b ∷ path_a ∷ []
unfolding first_places is_member str_eq
first_ids = refl
