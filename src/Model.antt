-- ===== src/Model.antt =====
-- internal/typefacts/typefacts.go, model.go and protocolv3_compact.go: the data that demands carry.
use solid_ts_facts.Prelude.{ℕ, Bool, Option, List}
use solid_ts_facts.Keys.{GoString}

pub record Location : Type 0 where
  pub path : GoString
  pub start_byte : ℕ
  pub end_byte : ℕ

-- The fields of `EntityDemand`; `QueryLocation` is a pointer that may be nil.
pub record EntityDemand : Type 0 where
  pub location : Location
  pub query_location : Option Location
  pub symbol : Bool
  pub type_descriptor : Bool
  pub resolved_call : Bool
  pub callability : Bool
  pub constructability : Bool
  pub runtime_value_domain : Bool
  pub primitive_value_domain : Bool
  pub primitive_literal_candidates : Bool
  pub parameter_object_shape : Bool
  pub call_result_domain : Bool
  pub constant_value : Bool
  pub array_shape : Bool
  pub tuple_shape : Bool
  pub library_types : Bool
  pub reference_space : Bool
  pub runtime_identity : Bool
  pub references : Bool
  pub async : Bool
  pub structural_accessor : Bool

-- Packed demand rows for one path, an index into the frame's strings.
pub record CompactDemandGroup : Type 0 where
  pub path : ℕ
  pub demands : List ℕ

pub record CompactDemands : Type 0 where
  pub groups : List CompactDemandGroup
  pub strings : List GoString
