-- ===== src/Session/DemandStore.antt =====
-- internal/typefacts/session_demands.go: the session's demand groups in path order, edited by
-- transactions that an undo log can take back. The scratch slices that the source keeps for reuse
-- hold no state.
pub mod Undo
pub mod Contents
pub mod Runs
pub mod Begun
pub mod OffsetOrder
pub mod Canonical
pub mod Expanded
use solid_ts_facts.Prelude.{
  ℕ, Bool, true, false, Option, none, some, List, [], ◌∷◌, ◌++◌, map, ◌>>=◌, if◌then◌else◌,
  get_elem?, set, Result, err, ok,
}
use solid_ts_facts.Keys.{GoString, str_eq, str_lt}
use solid_ts_facts.Keys.Clean.{clean}
use solid_ts_facts.Keys.Edit.{insert_at, remove_at}
use solid_ts_facts.Keys.Rows.{search_rows}
use solid_ts_facts.Model.{EntityDemand, CompactDemandGroup, CompactDemands}
use solid_ts_facts.Wire.Demands.{ExpandError, lookup_string, demand_shape}

-- `demands` and `strings` may be nil. The contribution is a pointer that the closure hangs on a group,
-- given by its address.
pub record DemandGroup : Type 0 where
  pub path : GoString
  pub demands : Option (List EntityDemand)
  pub compact : CompactDemandGroup
  pub strings : Option (List GoString)
  pub hash : ℕ
  pub contribution : Option ℕ

abbrev pub group_path : DemandGroup → GoString
group_path g = g.path

pub data DemandUndo : Type 0 where
  replaced : ℕ → DemandGroup → DemandUndo
  inserted : ℕ → DemandUndo
  removed : ℕ → DemandGroup → DemandUndo

-- A transaction with the groups of the store that it points to. The undo log has its newest entry
-- first.
pub record Transaction : Type 0 where
  pub groups : List DemandGroup
  pub undo : List DemandUndo
  pub changed_paths : List GoString
  pub reset_old : List DemandGroup
  pub reset : Bool
  pub finished : Bool

unfoldable pub insert_group : Transaction → ℕ → DemandGroup → Transaction
insert_group t index group = record t {
  undo = inserted index ∷ t.undo;
  groups = insert_at index group t.groups;
}

unfoldable pub replace : Transaction → DemandGroup → Transaction
unfolding insert_group
replace t group =
    let index = search_rows group_path t.groups group.path in
    elim (get_elem? t.groups index) [
      | none ↦ insert_group t index group
      | some previous ↦
          if str_eq previous.path group.path
          then record t {
            undo = replaced index previous ∷ t.undo;
            groups = set t.groups index group;
          }
          else insert_group t index group
    ]

unfoldable pub remove : Transaction → GoString → Transaction
remove t path =
    let index = search_rows group_path t.groups path in
    elim (get_elem? t.groups index) [
      | none ↦ t
      | some previous ↦
          if str_eq previous.path path
          then record t {
            undo = removed index previous ∷ t.undo;
            groups = remove_at index t.groups;
          }
          else t
    ]

unfoldable pub replace_all : Transaction → List DemandGroup → Transaction
replace_all t [] = t
replace_all t (group ∷ rest) = replace_all (replace t group) rest

unfoldable pub remove_all : Transaction → List GoString → Transaction
remove_all t [] = t
remove_all t (path ∷ rest) = remove_all (remove t (clean path)) rest

-- sort.Strings
unfoldable pub insert_path : GoString → List GoString → List GoString
insert_path p [] = p ∷ []
insert_path p (q ∷ rest) = if str_lt q p then q ∷ insert_path p rest else p ∷ q ∷ rest

unfoldable pub sort_paths : List GoString → List GoString
unfolding insert_path
sort_paths [] = []
sort_paths (p ∷ rest) = insert_path p (sort_paths rest)

-- Keeps the first of equal neighbours; `written` is the path written last.
unfoldable pub compact_after : GoString → List GoString → List GoString
compact_after written [] = []
compact_after written (p ∷ rest) =
    if str_eq written p then compact_after written rest else p ∷ compact_after p rest

unfoldable pub compact_sorted_paths : List GoString → List GoString
unfolding compact_after
compact_sorted_paths [] = []
compact_sorted_paths (p ∷ rest) = p ∷ compact_after p rest

unfoldable pub changed_paths_of : List DemandGroup → List GoString → List GoString
changed_paths_of changed_runs removed_paths =
    compact_sorted_paths (sort_paths (map group_path changed_runs ++ map clean removed_paths))

-- A transaction before its edits. A reset keeps the old groups aside and starts from none.
unfoldable pub start_runs : List DemandGroup → List DemandGroup → List GoString → Bool → Transaction
start_runs groups changed_runs removed_paths reset = record {
  groups = if reset then [] else groups;
  undo = [];
  changed_paths = changed_paths_of changed_runs removed_paths;
  reset_old = if reset then groups else [];
  reset = reset;
  finished = false;
}

unfoldable pub begin_runs : List DemandGroup → List DemandGroup → List GoString → Bool → Transaction
begin_runs groups changed_runs removed_paths reset =
    remove_all (replace_all (start_runs groups changed_runs removed_paths reset) changed_runs)
      removed_paths

unfoldable pub finish : Transaction → Transaction
finish t =
    if t.finished
    then t
    else record t { finished = true; undo = []; changed_paths = []; reset_old = [] }

unfoldable pub commit : Transaction → Transaction
commit t = finish t

undo_one : DemandUndo → List DemandGroup → List DemandGroup
undo_one (replaced index previous) groups = set groups index previous
undo_one (inserted index) groups = remove_at index groups
undo_one (removed index previous) groups = insert_at index previous groups

unfoldable pub undo_all : List DemandUndo → List DemandGroup → List DemandGroup
unfolding undo_one
undo_all [] groups = groups
undo_all (u ∷ older) groups = undo_all older (undo_one u groups)

unfoldable pub rollback : Transaction → Transaction
rollback t =
    if t.finished
    then t
    else if t.reset
    then finish (record t { groups = t.reset_old })
    else finish (record t { groups = undo_all t.undo t.groups })

-- Why a compact snapshot is refused.
pub data BeginError : Type 0 where
  malformed : ExpandError → BeginError
  path_named_twice : GoString → BeginError

as_begin {ℓ} : {A : Type ℓ} → Result ExpandError A → Result BeginError A
as_begin (ok a) = ok a
as_begin (err e) = err (malformed e)

unfoldable pub compact_run : List GoString → CompactDemandGroup → Result BeginError DemandGroup
unfolding as_begin
compact_run strings group = do
  path ← as_begin (lookup_string strings group.path)
  _ ← as_begin (demand_shape (record { groups = group ∷ []; strings = strings }))
  ok (record {
    path = clean path;
    demands = none;
    compact = group;
    strings = some strings;
    hash = 0;
    contribution = none;
  })

unfoldable pub compact_runs :
    List GoString → List CompactDemandGroup → Result BeginError (List DemandGroup)
unfolding compact_run
compact_runs strings [] = ok []
compact_runs strings (group ∷ rest) = do
  run ← compact_run strings group
  runs ← compact_runs strings rest
  ok (run ∷ runs)

insert_run : DemandGroup → List DemandGroup → List DemandGroup
insert_run g [] = g ∷ []
insert_run g (h ∷ rest) = if str_lt h.path g.path then h ∷ insert_run g rest else g ∷ h ∷ rest

unfoldable pub sort_runs : List DemandGroup → List DemandGroup
unfolding insert_run
sort_runs [] = []
sort_runs (g ∷ rest) = insert_run g (sort_runs rest)

-- The first path that two neighbours of the sorted runs share.
unfoldable pub repeated_path : List DemandGroup → Option GoString
repeated_path [] = none
repeated_path (g ∷ []) = none
repeated_path (g ∷ h ∷ rest) =
    if str_eq g.path h.path then some h.path else repeated_path (h ∷ rest)

unfoldable pub begin_compact :
    List DemandGroup → CompactDemands → List GoString → Bool → Result BeginError Transaction
unfolding compact_runs repeated_path
begin_compact groups compact removed_paths reset = do
  runs ← compact_runs compact.strings compact.groups
  let sorted = sort_runs runs
  elim (repeated_path sorted) [
    | some path ↦ err (path_named_twice path)
    | none ↦ ok (begin_runs groups sorted removed_paths reset)
  ]
