-- ===== src/Session/DemandStore/Runs.antt =====
-- internal/typefacts/session_demands.go and semantic_demand.go: the demand runs that a request's
-- plain demands make, one for each path in path order, every run in canonical form.
use mathlib.Core.Option
use solid_ts_facts.Prelude.{
  Option, none, some, Bool, true, false, not, ◌&&◌, ◌||◌, List, [], ◌∷◌, map, ◌==◌, if◌then◌else◌,
  int_lt,
}
use solid_ts_facts.Keys.{GoString, str_eq, str_lt}
use solid_ts_facts.Keys.Clean.{clean}
use solid_ts_facts.Model.{Location, EntityDemand}
use solid_ts_facts.Session.DemandStore.{
  DemandGroup, Transaction, sort_paths, compact_sorted_paths, begin_runs,
}

-- A demand's path as the session keys it.
unfoldable pub demand_path : EntityDemand → GoString
demand_path demand = clean demand.location.path

abbrev pub Run : Type 0
Run = GoString × List EntityDemand

extend_run : GoString → EntityDemand → List Run → List Run
extend_run path demand [] = (path, demand ∷ []) ∷ []
extend_run path demand (run ∷ rest) =
    if str_eq path run.0 then (path, demand ∷ run.1) ∷ rest else (path, demand ∷ []) ∷ run ∷ rest

-- The runs of neighbouring demands that share a path.
unfoldable pub contiguous_runs : List EntityDemand → List Run
unfolding extend_run
contiguous_runs [] = []
contiguous_runs (demand ∷ rest) = extend_run (demand_path demand) demand (contiguous_runs rest)

unfoldable pub in_path_order : List Run → Bool
in_path_order [] = true
in_path_order (run ∷ []) = true
in_path_order (run ∷ next ∷ rest) = str_lt run.0 next.0 && in_path_order (next ∷ rest)

-- grouped[path]
unfoldable pub grouped_at : GoString → List EntityDemand → List EntityDemand
grouped_at path [] = []
grouped_at path (demand ∷ rest) =
    if str_eq (demand_path demand) path then demand ∷ grouped_at path rest else grouped_at path rest

unfoldable pub grouped_runs : List EntityDemand → List Run
grouped_runs changes =
    map (λ path. (path, grouped_at path changes))
      (compact_sorted_paths (sort_paths (map demand_path changes)))

unfoldable pub session_changed_demand_runs : List EntityDemand → List Run
session_changed_demand_runs changes =
    let runs = contiguous_runs changes in if in_path_order runs then runs else grouped_runs changes

-- A path that is neither the run's nor clean.
unfoldable pub is_dirty : GoString → GoString → Bool
is_dirty path p = not (str_eq p path) && not (str_eq (clean p) p)

unfoldable pub is_dirty_query : GoString → Option Location → Bool
unfolding is_dirty
is_dirty_query path none = false
is_dirty_query path (some query) = is_dirty path query.path

unfoldable pub copy_required : GoString → List EntityDemand → Bool
unfolding is_dirty is_dirty_query
copy_required path [] = false
copy_required path (demand ∷ rest) =
    is_dirty path demand.location.path
    || is_dirty_query path demand.query_location
    || copy_required path rest

-- left comes before right: by start, then by end, as `int`s.
unfoldable pub starts_before : Location → Location → Bool
starts_before left right =
    if left.start_byte == right.start_byte
    then int_lt left.end_byte right.end_byte
    else int_lt left.start_byte right.start_byte

unfoldable pub is_ordered : List EntityDemand → Bool
unfolding starts_before
is_ordered [] = true
is_ordered (demand ∷ []) = true
is_ordered (demand ∷ next ∷ rest) =
    not (starts_before next.location demand.location) && is_ordered (next ∷ rest)

unfoldable pub clean_location : Location → Location
clean_location location = record location { path = clean location.path }

unfoldable pub clean_demand : EntityDemand → EntityDemand
unfolding clean_location
clean_demand demand = record demand {
  location = clean_location demand.location;
  query_location = Option.map clean_location demand.query_location;
}

unfoldable pub insert_demand : EntityDemand → List EntityDemand → List EntityDemand
insert_demand demand [] = demand ∷ []
insert_demand demand (next ∷ rest) =
    if starts_before next.location demand.location
    then next ∷ insert_demand demand rest
    else demand ∷ next ∷ rest

-- sort.SliceStable
unfoldable pub sort_demands : List EntityDemand → List EntityDemand
unfolding insert_demand
sort_demands [] = []
sort_demands (demand ∷ rest) = insert_demand demand (sort_demands rest)

unfoldable pub canonical_demand_run : GoString → List EntityDemand → List EntityDemand
unfolding copy_required clean_demand
canonical_demand_run path demands =
    let ordered = is_ordered demands in
    if not (copy_required path demands) && ordered
    then demands
    else if ordered
    then map clean_demand demands
    else sort_demands (map clean_demand demands)

unfoldable pub plain_group : Run → DemandGroup
plain_group run = record {
  path = clean run.0;
  demands = some (canonical_demand_run (clean run.0) run.1);
  compact = record { path = 0; demands = [] };
  strings = none;
  hash = 0;
  contribution = none;
}

unfoldable pub begin : List DemandGroup → List EntityDemand → List GoString → Bool → Transaction
unfolding plain_group
begin groups changes removed_paths reset =
    begin_runs groups (map plain_group (session_changed_demand_runs changes)) removed_paths reset
