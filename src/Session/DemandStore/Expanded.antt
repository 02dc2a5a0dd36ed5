-- ===== src/Session/DemandStore/Expanded.antt =====
-- internal/typefacts/semantic_retained.go and session_demands.go: reading a group's demands, which
-- expands a compact group in place.
use mathlib.Core.Option
use solid_ts_facts.Prelude.{
  ℕ, Bool, Option, none, some, List, [], ◌∷◌, map, if◌then◌else◌, get_elem?, set, Result, err, ok,
}
use solid_ts_facts.Keys.{GoString, str_eq}
use solid_ts_facts.Keys.Clean.{clean}
use solid_ts_facts.Keys.Rows.{search_rows}
use solid_ts_facts.Model.{EntityDemand}
use solid_ts_facts.Session.DemandStore.{DemandGroup, group_path}
use solid_ts_facts.Session.DemandStore.Runs.{clean_location}
use solid_ts_facts.Transition.Rows.{is_some}
use solid_ts_facts.Wire.Demands.{ExpandError, expand}

abbrev pub is_compact : DemandGroup → Bool
is_compact g = is_some g.strings

-- canonicalizeDemandRun of one demand.
unfoldable pub canonicalize_demand : GoString → EntityDemand → EntityDemand
unfolding clean_location
canonicalize_demand path demand = record demand {
  location = record demand.location { path = path };
  query_location = Option.map clean_location demand.query_location;
}

expand_into : DemandGroup → Result ExpandError (List EntityDemand) → Result ExpandError DemandGroup
unfolding canonicalize_demand
expand_into g (ok demands) =
    ok (record g { demands = some (map (canonicalize_demand g.path) demands) })
expand_into g (err e) = err e

expand_strings :
    DemandGroup
    → Option (List EntityDemand)
    → Option (List GoString)
    → Result ExpandError DemandGroup
unfolding expand_into
expand_strings g (some demands) strings = ok g
expand_strings g none none = ok g
expand_strings g none (some strings) =
    expand_into g (expand (record { groups = g.compact ∷ []; strings = strings }))

-- The group with its demands, unless its rows are malformed.
unfoldable pub ensure_expanded : DemandGroup → Result ExpandError DemandGroup
unfolding expand_strings
ensure_expanded g = expand_strings g g.demands g.strings

demands_of :
    List DemandGroup
    → ℕ
    → Result ExpandError DemandGroup
    → Option (List EntityDemand) × List DemandGroup
demands_of groups index (ok g) = (g.demands, set groups index g)
demands_of groups index (err e) = (none, groups)

demands_at :
    List DemandGroup
    → GoString
    → ℕ
    → Option DemandGroup
    → Option (List EntityDemand) × List DemandGroup
unfolding demands_of
demands_at groups path index none = (none, groups)
demands_at groups path index (some g) =
    if str_eq g.path path then demands_of groups index (ensure_expanded g) else (none, groups)

-- The demands of a path, nil for none, and the store's groups with them.
unfoldable pub at : List DemandGroup → GoString → Option (List EntityDemand) × List DemandGroup
unfolding demands_at
at groups path =
    let cleaned = clean path in
    let index = search_rows group_path groups cleaned in
    demands_at groups cleaned index (get_elem? groups index)
