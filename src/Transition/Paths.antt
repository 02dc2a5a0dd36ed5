-- ===== src/Transition/Paths.antt =====
-- internal/typefacts/wire_transition_rows.go: the operations on one path, with what they replace.
pub mod Laws
use solid_ts_facts.Prelude.{ℕ, ◌*◌, ◌^◌, bit_or, not, List, Result, err, ok, ◌>>=◌}
use solid_ts_facts.Keys.{GoString, str_eq}
use solid_ts_facts.Transition.Codes.{RowError, empty_path, bad_collection_op, path_mismatch}
use solid_ts_facts.Transition.Entities.{write_entity_run}
use solid_ts_facts.Transition.Facts.{EntityFact, FileFact, SourceDigest}
use solid_ts_facts.Transition.Rows.{Written, refuse_if, is_empty, write_file_body}
use solid_ts_facts.Transition.Writer.{Draft, raw, put, text}

-- An operation on one of a path's collections, with what replaces it.
pub data CollectionOp {ℓ} (A : Type ℓ) : Type ℓ where
  unchanged : CollectionOp A
  replaced_by : A → CollectionOp A
  removed : CollectionOp A
  other_op : ℕ → CollectionOp A

pub record PathOp : Type 0 where
  pub path : GoString
  pub source_op : CollectionOp SourceDigest
  pub entity_op : CollectionOp (List EntityFact)
  pub file_op : CollectionOp FileFact

unfoldable pub op_code {ℓ} : {A : Type ℓ} → CollectionOp A → Result RowError ℕ
op_code unchanged = ok 0
op_code (replaced_by a) = ok 1
op_code removed = ok 2
op_code (other_op n) = err bad_collection_op

-- source << 0 | entity << 2 | file << 4
unfoldable pub path_flags : PathOp → Result RowError ℕ
unfolding op_code
path_flags operation = do
  source ← op_code operation.source_op
  entity ← op_code operation.entity_op
  file ← op_code operation.file_op
  ok (bit_or (bit_or source (entity * 2 ^ 2)) (file * 2 ^ 4))

write_source : Draft → GoString → CollectionOp SourceDigest → Written
unfolding refuse_if raw
write_source d path (replaced_by source) = do
  _ ← refuse_if (not (str_eq source.path path)) path_mismatch
  ok (raw d source.sha256)
write_source d path operation = ok d

write_entities : Draft → GoString → CollectionOp (List EntityFact) → ℕ → Written
unfolding write_entity_run
write_entities d path (replaced_by entities) schema = write_entity_run d path entities schema
write_entities d path operation schema = ok d

write_file : Draft → GoString → CollectionOp FileFact → Written
unfolding refuse_if write_file_body
write_file d path (replaced_by file) = do
  _ ← refuse_if (not (str_eq file.path path)) path_mismatch
  ok (write_file_body d file)
write_file d path operation = ok d

unfoldable pub write_path_op : Draft → PathOp → ℕ → Written
unfolding refuse_if is_empty text put path_flags write_source write_entities write_file
write_path_op d operation schema = do
  _ ← refuse_if (is_empty operation.path) empty_path
  flags ← path_flags operation
  sourced ← write_source (put (text d operation.path) flags) operation.path operation.source_op
  entities ← write_entities sourced operation.path operation.entity_op schema
  write_file entities operation.path operation.file_op
