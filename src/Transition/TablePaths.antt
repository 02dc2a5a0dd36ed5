-- ===== src/Transition/TablePaths.antt =====
-- internal/typefacts/wire_transition_diff.go: the walk over a table's paths, which merges its
-- sources, entity runs and files, and the full and fallback path plans. A cursor is what is left of
-- the three.
pub mod Cover
use solid_ts_facts.Prelude.{
  ℕ, zero, suc, ◌+◌, Bool, true, Option, none, some, List, [], ◌∷◌, ◌++◌, if◌then◌else◌, length,
}
use solid_ts_facts.Keys.{GoString, str_eq, str_lt}
use solid_ts_facts.Transition.Facts.{EntityFact, FileFact, SourceDigest}
use solid_ts_facts.Transition.PathPlan.{
  PathRows, no_rows, digest_path, fact_path, entity_path, run_path, take_path, is_changed,
  path_rows_difference,
}
use solid_ts_facts.Transition.Paths.{PathOp}
use solid_ts_facts.Transition.Tables.{FactTable}

pub data EntityRows : Type 0 where
  flat_rows : List EntityFact → EntityRows
  run_rows : List (List EntityFact) → EntityRows

pub record PathCursor : Type 0 where
  pub source_rows : List SourceDigest
  pub entity_rows_left : EntityRows
  pub file_rows : List FileFact

unfoldable pub entity_rows_of : List EntityFact → Option (List (List EntityFact)) → EntityRows
entity_rows_of entities none = flat_rows entities
entity_rows_of entities (some runs) = run_rows runs

unfoldable pub new_path_cursor : FactTable → PathCursor
unfolding entity_rows_of
new_path_cursor table = record {
  source_rows = table.source_digests;
  entity_rows_left = entity_rows_of table.entities table.entity_runs;
  file_rows = table.files;
}

unfoldable pub entity_head : EntityRows → Option GoString
entity_head (flat_rows []) = none
entity_head (flat_rows (entity ∷ rest)) = some (entity_path entity)
entity_head (run_rows []) = none
entity_head (run_rows (run ∷ rest)) = some (run_path run)

unfoldable pub head_path : {A : Type 0} → (A → GoString) → List A → Option GoString
head_path key [] = none
head_path key (row ∷ rest) = some (key row)

-- The smaller of the path so far and a candidate.
unfoldable pub consider : Option GoString → Option GoString → Option GoString
consider path none = path
consider none (some candidate) = some candidate
consider (some path) (some candidate) = some (if str_lt candidate path then candidate else path)

-- none when the cursor is not valid.
unfoldable pub cursor_path : PathCursor → Option GoString
unfolding entity_head head_path consider
cursor_path c =
    consider (consider (head_path digest_path c.source_rows) (entity_head c.entity_rows_left))
      (head_path fact_path c.file_rows)

unfoldable pub head_at : {A : Type 0} → (A → GoString) → GoString → List A → Option A
head_at key path [] = none
head_at key path (row ∷ rest) = if str_eq (key row) path then some row else none

unfoldable pub entities_head_at : GoString → EntityRows → List EntityFact
entities_head_at path (flat_rows entities) = take_path path entities
entities_head_at path (run_rows []) = []
entities_head_at path (run_rows (run ∷ rest)) = if str_eq (run_path run) path then run else []

unfoldable pub cursor_rows : PathCursor → GoString → PathRows
unfolding head_at entities_head_at
cursor_rows c path = record {
  path = path;
  source = head_at digest_path path c.source_rows;
  entities = entities_head_at path c.entity_rows_left;
  file = head_at fact_path path c.file_rows;
}

unfoldable pub behind : {A : Type 0} → (A → GoString) → GoString → List A → List A
behind key path [] = []
behind key path (row ∷ rest) = if str_eq (key row) path then rest else row ∷ rest

-- entities[entityPathEnd(entities, 0):] when the first row has the path.
unfoldable pub drop_path : GoString → List EntityFact → List EntityFact
drop_path path [] = []
drop_path path (entity ∷ rest) =
    if str_eq (entity_path entity) path then drop_path path rest else entity ∷ rest

unfoldable pub entities_behind : GoString → EntityRows → EntityRows
unfolding drop_path behind
entities_behind path (flat_rows entities) = flat_rows (drop_path path entities)
entities_behind path (run_rows runs) = run_rows (behind run_path path runs)

unfoldable pub cursor_next : PathCursor → GoString → PathCursor
unfolding behind entities_behind
cursor_next c path = record {
  source_rows = behind digest_path path c.source_rows;
  entity_rows_left = entities_behind path c.entity_rows_left;
  file_rows = behind fact_path path c.file_rows;
}

unfoldable pub entity_rows_count : EntityRows → ℕ
entity_rows_count (flat_rows entities) = length entities
entity_rows_count (run_rows runs) = length runs

unfoldable pub rows_left : PathCursor → ℕ
unfolding entity_rows_count
rows_left c = length c.source_rows + entity_rows_count c.entity_rows_left + length c.file_rows

-- Every path takes a row at least, so the number of rows is fuel enough.
unfoldable pub paths_from : ℕ → PathCursor → List GoString
paths_from zero c = []
paths_from (suc fuel) c = elim (cursor_path c) [
  | none ↦ []
  | some path ↦ path ∷ paths_from fuel (cursor_next c path)
]

-- planFull
unfoldable pub plan_full : FactTable → List GoString
plan_full target = let cursor = new_path_cursor target in paths_from (rows_left cursor) cursor

changed_op : PathOp → List PathOp
changed_op operation = if is_changed operation then operation ∷ [] else []

-- Which cursor moves: the one with the smaller path, both on the same, the other one at an end.
pub data Side : Type 0 where
  at_end : Side
  only_previous : GoString → Side
  only_next : GoString → Side
  on_both : GoString → Side

side : Option GoString → Option GoString → Side
side none none = at_end
side (some p) none = only_previous p
side none (some q) = only_next q
side (some p) (some q) =
    if str_lt p q then only_previous p else if str_lt q p then only_next q else on_both q

module _ (shared : List EntityFact → List EntityFact → Bool) where
  all_differences : PathRows → PathRows → List PathOp
  unfolding changed_op
  all_differences previous next =
      changed_op (path_rows_difference shared previous next true true true)

  unfoldable pub fallback_path_ops : ℕ → PathCursor → PathCursor → List PathOp
  unfolding side all_differences
  fallback_path_ops zero previous next = []
  fallback_path_ops (suc fuel) previous next =
      elim (side (cursor_path previous) (cursor_path next)) [
        | at_end ↦ []
        | only_previous p ↦
            all_differences (cursor_rows previous p) (no_rows p)
            ++ fallback_path_ops fuel (cursor_next previous p) next
        | only_next q ↦
            all_differences (no_rows q) (cursor_rows next q)
            ++ fallback_path_ops fuel previous (cursor_next next q)
        | on_both q ↦
            all_differences (cursor_rows previous q) (cursor_rows next q)
            ++ fallback_path_ops fuel (cursor_next previous q) (cursor_next next q)
      ]

  -- planFallbackPathDelta
  unfoldable pub plan_fallback_paths : FactTable → FactTable → List PathOp
  plan_fallback_paths base target =
      let previous = new_path_cursor base in
      let next = new_path_cursor target in
      fallback_path_ops (rows_left previous + rows_left next) previous next
