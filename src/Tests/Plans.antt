-- ===== src/Tests/Plans.antt =====
-- Rows that compare, plans between two tables, and a full transition that is encoded.
use solid_ts_facts.Prelude.{
  ℕ, ◌≡◌, refl, sym, ap, ◌∙◌, Bool, true, false, none, some, List, [], ◌∷◌, map, some_inj, Result,
  err, ok,
}
use solid_ts_facts.Keys.{GoString, str_eq}
use solid_ts_facts.Tests.Transition.{entity}
use solid_ts_facts.Transition.Encoder.{encode_transition}
use solid_ts_facts.Transition.Equal.{
  list_equal, option_equal, bool_equal, location_equal, type_descriptor_equal, entity_fact_equal,
  entity_facts_equal, file_fact_equal,
}
use solid_ts_facts.Transition.Equal.Entities.{plain_entity, entity_facts_equal-plain}
use solid_ts_facts.Transition.Equal.Files.{file_fact_equal-eq}
use solid_ts_facts.Transition.Facts.{EntityFact, FileFact, SourceDigest}
use solid_ts_facts.Transition.PathPlan.{PathRows, path_rows_difference, is_member}
use solid_ts_facts.Transition.PathPlan.Difference.{held_of, IsOnePath, path_rows_difference-held}
use solid_ts_facts.Transition.PathPlan.Sparse.{Store, held_after}
use solid_ts_facts.Transition.TablePaths.{new_path_cursor, plan_full}
use solid_ts_facts.Transition.TablePaths.Cover.{cursor_has, plan_full-has}
use solid_ts_facts.Transition.Tables.{
  TransportChanges, FactTable, TransitionInput, full_mode, EncodedTransition, EncodeError,
}
use solid_ts_facts.Transition.Tags.{tag_equal}
use solid_ts_facts.Transition.Tags.Values.{
  callability_name, constructability_name, array_shape_name, reference_space_name,
}

abbrev path_a : GoString
path_a = 97 ∷ []

abbrev digest_a : ℕ → SourceDigest
digest_a n = record { path = path_a; sha256 = n ∷ [] }

abbrev file_a : FileFact
file_a = record { path = path_a; calls = []; bindings = []; functions = []; async_functions = [] }

abbrev manifest_a : TransportChanges
manifest_a = record {
  base_generation = 1;
  base_state_id = 1;
  source_paths = path_a ∷ [];
  entity_paths = path_a ∷ [];
  file_paths = path_a ∷ [];
  symbol_ids = [];
  exact = true;
}

abbrev target_a : FactTable
target_a = record {
  schema = 1;
  generation = 2;
  project_id = 47 ∷ 112 ∷ [];
  entities = [];
  symbols = [];
  symbols_address = 0;
  symbol_store = none;
  files = file_a ∷ [];
  state_id = 2;
  transport = some manifest_a;
  source_digests = digest_a 5 ∷ [];
  entity_runs = none;
}

abbrev nothing_shared : List EntityFact → List EntityFact → Bool
nothing_shared l r = false

abbrev old_store : Store
old_store path = record { source = some (digest_a 4); entities = []; file = none }

abbrev old_rows : PathRows
old_rows = record { path = path_a; source = some (digest_a 4); entities = []; file = some file_a }

abbrev new_rows : PathRows
new_rows = record { path = path_a; source = some (digest_a 5); entities = []; file = none }

path_rows_difference-held_example :
    let after =
      held_after
        (path_rows_difference nothing_shared old_rows new_rows true true true)
        (held_of old_rows) in
    (after.source ≡ some (digest_a 5))
    × (map plain_entity after.entities ≡ [])
    × (after.file ≡ none)
path_rows_difference-held_example =
    path_rows_difference-held nothing_shared old_rows new_rows (λ l r h. absurd cc) one_path
  where
    one_path : IsOnePath old_rows.source new_rows.source
    one_path a b p q = sym (ap (λ d. d.path) (some_inj p)) ∙ ap (λ d. d.path) (some_inj q)

file_fact_equal-eq_example : file_a ≡ file_a
unfolding file_fact_equal str_eq list_equal
file_fact_equal-eq_example = file_fact_equal-eq file_a file_a refl

same_entities : entity_facts_equal false (entity ∷ []) (entity ∷ []) ≡ true
unfolding entity_facts_equal entity_fact_equal list_equal option_equal str_eq location_equal
    bool_equal tag_equal callability_name constructability_name reference_space_name
    array_shape_name type_descriptor_equal
same_entities = refl

entity_facts_equal-plain_example : map plain_entity (entity ∷ []) ≡ map plain_entity (entity ∷ [])
entity_facts_equal-plain_example =
    entity_facts_equal-plain false (entity ∷ []) (entity ∷ []) (λ h. refl) same_entities

plan_full-has_example :
    is_member (plan_full target_a) path_a ≡ cursor_has path_a (new_path_cursor target_a)
plan_full-has_example = plan_full-has target_a path_a

abbrev full_input : TransitionInput
full_input = record {
  project_id = 47 ∷ 112 ∷ [];
  base_state_token = [];
  base = none;
  target = some target_a;
  sparse = false;
}

abbrev encoded_or : EncodedTransition → Result EncodeError EncodedTransition → EncodedTransition
encoded_or other (ok encoded) = encoded
encoded_or other (err e) = other

abbrev no_transition : EncodedTransition
no_transition = record { bytes = []; mode = full_mode; path_operations = 0; symbol_operations = 0 }

abbrev encoded_a : EncodedTransition
encoded_a = encoded_or no_transition (encode_transition nothing_shared 17 full_input)
