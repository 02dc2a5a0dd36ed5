-- ===== src/Transition/PathPlan/Sparse.antt =====
-- What a client that applies the path operations of a plan ends with.
use solid_ts_facts.Prelude.{Option, none, some, List, [], ◌∷◌, if◌then◌else◌}
use solid_ts_facts.Keys.{GoString, str_eq}
use solid_ts_facts.Transition.Facts.{EntityFact, FileFact, SourceDigest}
use solid_ts_facts.Transition.PathPlan.{path_rows_at, is_member}
use solid_ts_facts.Transition.Paths.{
  removed, CollectionOp, unchanged, replaced_by, other_op, PathOp,
}
use solid_ts_facts.Transition.Tables.{TransportChanges, FactTable}

-- What a client holds of one path, and of every path.
pub record Held : Type 0 where
  pub source : Option SourceDigest
  pub entities : List EntityFact
  pub file : Option FileFact

abbrev pub Store : Type 0
Store = GoString → Held

-- A collection after an operation on it; an operation of another number is never written.
unfoldable pub after_op : {A : Type 0} → CollectionOp A → A → A → A
after_op unchanged gone held = held
after_op (replaced_by row) gone held = row
after_op removed gone held = gone
after_op (other_op n) gone held = held

unfoldable pub row_after_op : {A : Type 0} → CollectionOp A → Option A → Option A
row_after_op unchanged held = held
row_after_op (replaced_by row) held = some row
row_after_op removed held = none
row_after_op (other_op n) held = held

unfoldable pub held_after : PathOp → Held → Held
held_after operation held = record {
  source = row_after_op operation.source_op held.source;
  entities = after_op operation.entity_op [] held.entities;
  file = row_after_op operation.file_op held.file;
}

unfoldable pub apply_path_op : Store → PathOp → Store
apply_path_op store operation path =
    if str_eq operation.path path then held_after operation (store path) else store path

unfoldable pub apply_path_ops : Store → List PathOp → Store
apply_path_ops store [] = store
apply_path_ops store (operation ∷ rest) = apply_path_ops (apply_path_op store operation) rest

module _ (target : FactTable) (manifest : TransportChanges) where
  -- What the plan means for one path: the target's rows for the collections that the manifest names.
  abbrev pub refreshed : GoString → Held → Held
  refreshed path held = record {
    source =
        if is_member manifest.source_paths path
        then (path_rows_at target path).source
        else held.source;
    entities =
        if is_member manifest.entity_paths path
        then (path_rows_at target path).entities
        else held.entities;
    file =
        if is_member manifest.file_paths path then (path_rows_at target path).file else held.file;
  }
