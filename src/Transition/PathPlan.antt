-- ===== src/Transition/PathPlan.antt =====
-- internal/typefacts/wire_transition_diff.go and wire_transition.go: a path's rows in a table, the
-- operation between two of them, and the path operations of a sparse delta.
pub mod Difference
pub mod Sparse
use solid_ts_facts.Prelude.{
  Bool, true, false, not, ◌&&◌, ◌||◌, Option, none, some, List, [], ◌∷◌, ◌++◌, map, if◌then◌else◌,
  drop,
}
use solid_ts_facts.Keys.{GoString, str_eq}
use solid_ts_facts.Keys.Rows.{search_rows, row_at}
use solid_ts_facts.Session.DemandStore.{sort_paths, compact_sorted_paths}
use solid_ts_facts.Transition.Equal.{entity_facts_equal, file_fact_equal}
use solid_ts_facts.Transition.Facts.{EntityFact, FileFact, SourceDigest}
use solid_ts_facts.Transition.Paths.{removed, CollectionOp, unchanged, replaced_by, PathOp}
use solid_ts_facts.Transition.Tables.{TransportChanges, FactTable}

pub record PathRows : Type 0 where
  pub path : GoString
  pub source : Option SourceDigest
  pub entities : List EntityFact
  pub file : Option FileFact

abbrev pub no_rows : GoString → PathRows
no_rows path = record { path = path; source = none; entities = []; file = none }

abbrev pub digest_path : SourceDigest → GoString
digest_path digest = digest.path

abbrev pub fact_path : FileFact → GoString
fact_path file = file.path

abbrev pub entity_path : EntityFact → GoString
entity_path entity = entity.location.path

-- The path of a run; no run of a table is empty.
abbrev pub run_path : List EntityFact → GoString
run_path [] = []
run_path (entity ∷ rest) = entity_path entity

-- entities[:entityPathEnd(entities, 0)], while the path is the given one.
unfoldable pub take_path : GoString → List EntityFact → List EntityFact
take_path path [] = []
take_path path (entity ∷ rest) =
    if str_eq (entity_path entity) path then entity ∷ take_path path rest else []

unfoldable pub canonical_entity_path : List EntityFact → GoString → List EntityFact
canonical_entity_path entities path =
    take_path path (drop (search_rows entity_path entities path) entities)

or_empty : Option (List EntityFact) → List EntityFact
or_empty none = []
or_empty (some run) = run

unfoldable pub entities_at :
    List EntityFact → Option (List (List EntityFact)) → GoString → List EntityFact
unfolding or_empty
entities_at entities none path = canonical_entity_path entities path
entities_at entities (some runs) path = or_empty (row_at run_path runs path)

unfoldable pub path_rows_at : FactTable → GoString → PathRows
path_rows_at table path = record {
  path = path;
  source = row_at digest_path table.source_digests path;
  entities = entities_at table.entities table.entity_runs path;
  file = row_at fact_path table.files path;
}

unfoldable pub source_difference :
    Option SourceDigest → Option SourceDigest → CollectionOp SourceDigest
source_difference none none = unchanged
source_difference (some previous) none = removed
source_difference none (some next) = replaced_by next
source_difference (some previous) (some next) =
    if str_eq previous.sha256 next.sha256 then unchanged else replaced_by next

unfoldable pub entity_difference :
    (List EntityFact → List EntityFact → Bool)
    → List EntityFact
    → List EntityFact
    → CollectionOp (List EntityFact)
entity_difference same [] [] = unchanged
entity_difference same (e ∷ previous) [] = removed
entity_difference same previous (e ∷ next) =
    if same previous (e ∷ next) then unchanged else replaced_by (e ∷ next)

unfoldable pub file_difference : Option FileFact → Option FileFact → CollectionOp FileFact
file_difference none none = unchanged
file_difference (some previous) none = removed
file_difference none (some next) = replaced_by next
file_difference (some previous) (some next) =
    if file_fact_equal previous next then unchanged else replaced_by next

unfoldable pub is_unchanged : {A : Type 0} → CollectionOp A → Bool
is_unchanged unchanged = true
is_unchanged operation = false

unfoldable pub if_candidate : {A : Type 0} → Bool → CollectionOp A → CollectionOp A
if_candidate candidate operation = if candidate then operation else unchanged

unfoldable pub is_changed : PathOp → Bool
unfolding is_unchanged
is_changed operation = not (
    is_unchanged operation.source_op
    && is_unchanged operation.entity_op
    && is_unchanged operation.file_op)

-- `shared` tells whether two runs begin with one and the same row in memory. The flags say which of
-- the sources, entities and files may have changed.
unfoldable pub path_rows_difference :
    (List EntityFact → List EntityFact → Bool) → PathRows → PathRows → Bool → Bool → Bool → PathOp
unfolding source_difference entity_difference file_difference if_candidate
path_rows_difference shared previous next source_candidate entity_candidate file_candidate =
    record {
      path = next.path;
      source_op = if_candidate source_candidate (source_difference previous.source next.source);
      entity_op = if_candidate entity_candidate (
          entity_difference (λ l r. entity_facts_equal (shared l r) l r) previous.entities
            next.entities);
      file_op = if_candidate file_candidate (file_difference previous.file next.file);
    }

base_rows : Option FactTable → GoString → PathRows
base_rows none path = no_rows path
base_rows (some base) path = path_rows_at base path

-- wireTransitionPathDifference
unfoldable pub path_difference :
    (List EntityFact → List EntityFact → Bool)
    → Option FactTable
    → FactTable
    → GoString
    → Bool
    → Bool
    → Bool
    → PathOp
unfolding base_rows
path_difference shared base target path =
    path_rows_difference shared (base_rows base path) (path_rows_at target path)

unfoldable pub is_member : List GoString → GoString → Bool
is_member [] path = false
is_member (p ∷ rest) path = str_eq p path || is_member rest path

unfoldable pub sort_unique_paths : List GoString → List GoString
sort_unique_paths paths = compact_sorted_paths (sort_paths paths)

unfoldable pub sparse_row : {A : Type 0} → Bool → Option A → CollectionOp A
sparse_row false row = unchanged
sparse_row true none = removed
sparse_row true (some row) = replaced_by row

unfoldable pub sparse_rows : Bool → List EntityFact → CollectionOp (List EntityFact)
sparse_rows false rows = unchanged
sparse_rows true [] = removed
sparse_rows true (entity ∷ rows) = replaced_by (entity ∷ rows)

unfoldable pub sparse_op : FactTable → TransportChanges → GoString → PathOp
unfolding sparse_row sparse_rows
sparse_op target manifest path =
    let rows = path_rows_at target path in
    record {
      path = path;
      source_op = sparse_row (is_member manifest.source_paths path) rows.source;
      entity_op = sparse_rows (is_member manifest.entity_paths path) rows.entities;
      file_op = sparse_row (is_member manifest.file_paths path) rows.file;
    }

unfoldable pub sparse_paths : TransportChanges → List GoString
sparse_paths manifest =
    sort_unique_paths (manifest.source_paths ++ manifest.entity_paths ++ manifest.file_paths)

-- The path operations of planSparseDelta.
unfoldable pub plan_sparse_paths : FactTable → TransportChanges → List PathOp
plan_sparse_paths target manifest = map (sparse_op target manifest) (sparse_paths manifest)

changed_ops : List PathOp → List PathOp
changed_ops [] = []
changed_ops (operation ∷ rest) =
    if is_changed operation then operation ∷ changed_ops rest else changed_ops rest

-- planExactPathDelta
unfoldable pub plan_exact_paths :
    (List EntityFact → List EntityFact → Bool)
    → FactTable
    → FactTable
    → TransportChanges
    → List PathOp
unfolding changed_ops
plan_exact_paths shared base target manifest = changed_ops (
    map
      (λ path.
        path_difference shared (some base) target path (is_member manifest.source_paths path)
          (is_member manifest.entity_paths path) (is_member manifest.file_paths path))
      (sparse_paths manifest))
