-- ===== src/Transition/Facts.antt =====
-- internal/typefacts/typefacts.go and model.go: the facts that a table holds. A Go string enum is a
-- data type with one more constructor for every other string, a pointer is an Option, a float64
-- its 64-bit pattern, and a nil slice is an empty one.
use solid_ts_facts.Prelude.{ℕ, Bool, Option, List}
use solid_ts_facts.Keys.{GoString}
use solid_ts_facts.Model.{Location}

pub record Declaration : Type 0 where
  pub name : GoString
  pub kind : GoString
  pub location : Location

pub record TypeDescriptor : Type 0 where
  pub text : GoString
  pub origin_module : GoString
  pub alias_declarations : List Declaration

pub data Callability : Type 0 where
  callability_absent : Callability
  callability_callable : Callability
  callability_untyped_callable : Callability
  callability_non_callable : Callability
  callability_mixed : Callability
  callability_unknown : Callability
  callability_other : GoString → Callability

pub data Constructability : Type 0 where
  constructability_absent : Constructability
  constructability_constructable : Constructability
  constructability_non_constructable : Constructability
  constructability_mixed : Constructability
  constructability_unknown : Constructability
  constructability_other : ℕ → Constructability

pub record RuntimeValueDomain : Type 0 where
  pub may_be_callable : Bool
  pub may_be_undefined : Bool
  pub may_be_other : Bool
  pub unknown : Bool

pub data PrimitiveLiteralKind : Type 0 where
  literal_string : PrimitiveLiteralKind
  literal_number : PrimitiveLiteralKind
  literal_boolean : PrimitiveLiteralKind
  literal_other : GoString → PrimitiveLiteralKind

-- The kind selects the payload that is meant; the others are there as well.
pub record PrimitiveLiteralCandidate : Type 0 where
  pub kind : PrimitiveLiteralKind
  pub string : GoString
  pub number : ℕ
  pub boolean : Bool

pub data ConstantValueKind : Type 0 where
  constant_string : ConstantValueKind
  constant_number : ConstantValueKind
  constant_other : GoString → ConstantValueKind

pub record ConstantValue : Type 0 where
  pub kind : ConstantValueKind
  pub string : GoString
  pub number : ℕ

pub data ArrayShape : Type 0 where
  array_shape_absent : ArrayShape
  array_shape_array : ArrayShape
  array_shape_not_array : ArrayShape
  array_shape_mixed : ArrayShape
  array_shape_unknown : ArrayShape
  array_shape_other : GoString → ArrayShape

pub record TupleShape : Type 0 where
  pub fixed_length : ℕ
  pub exact_length : ℕ
  pub exact_length_known : Bool
  pub has_rest : Bool
  pub element_zero : Callability
  pub element_zero_minimum_parameters : ℕ

pub data ReferenceSpace : Type 0 where
  reference_space_absent : ReferenceSpace
  reference_space_value : ReferenceSpace
  reference_space_type : ReferenceSpace
  reference_space_both : ReferenceSpace
  reference_space_neither : ReferenceSpace
  reference_space_other : GoString → ReferenceSpace

pub record SourceCall : Type 0 where
  pub location : Location
  pub callee : Location
  pub arguments : List Location
  pub target : GoString

pub record SourceBinding : Type 0 where
  pub array : Bool
  pub names : List Location
  pub initializer : SourceCall

pub record SourceFunction : Type 0 where
  pub name : Location
  pub body : Location
  pub parameters : List Location
  pub exported : Bool
  pub async : Bool
  pub arrow : Bool

pub record AsyncFunctionFact : Type 0 where
  pub expression : Location
  pub symbol : GoString
  pub target : GoString
  pub can_return_async : Bool
  pub calls_after_await : List Location

pub data ResolvedCallValidity : Type 0 where
  resolved_call_valid : ResolvedCallValidity
  resolved_call_recovery : ResolvedCallValidity
  resolved_call_unresolved : ResolvedCallValidity
  resolved_call_other : GoString → ResolvedCallValidity

pub data CallKind : Type 0 where
  call_kind_unknown : CallKind
  call_kind_call : CallKind
  call_kind_construct : CallKind
  call_kind_other : GoString → CallKind

pub record DeclarationOwner : Type 0 where
  pub symbol : GoString
  pub name : GoString
  pub kind : GoString
  pub location : Location

pub record ResolvedDeclaration : Type 0 where
  pub symbol : GoString
  pub name : GoString
  pub kind : GoString
  pub location : Location
  pub owners : List DeclarationOwner
  pub qualified_name : GoString
  pub origin_module : GoString
  pub source_file : GoString
  pub standard_library : Bool

pub data ArgumentMappingStatus : Type 0 where
  argument_mapping_resolved : ArgumentMappingStatus
  argument_mapping_unresolved : ArgumentMappingStatus
  argument_mapping_other : GoString → ArgumentMappingStatus

pub data ArgumentMappingReason : Type 0 where
  reason_absent : ArgumentMappingReason
  reason_call_unresolved : ArgumentMappingReason
  reason_recovery_signature : ArgumentMappingReason
  reason_composite_signature : ArgumentMappingReason
  reason_spread_argument : ArgumentMappingReason
  reason_parameter_unavailable : ArgumentMappingReason
  reason_other : GoString → ArgumentMappingReason

pub data ConstructionWitness : Type 0 where
  witness_unknown : ConstructionWitness
  witness_empty_array : ConstructionWitness
  witness_empty_object : ConstructionWitness
  witness_other : GoString → ConstructionWitness

pub record ObjectConstructionProperty : Type 0 where
  pub name : GoString
  pub witness : ConstructionWitness

pub record ParameterFact : Type 0 where
  pub index : ℕ
  pub symbol : GoString
  pub declaration : Option Declaration
  pub rest : Bool
  pub optional : Bool
  pub callability : Callability
  pub type_descriptor : Option TypeDescriptor
  pub object_shape : Option (List ObjectConstructionProperty)

pub record ArgumentMapping : Type 0 where
  pub argument_index : ℕ
  pub status : ArgumentMappingStatus
  pub unresolved : ArgumentMappingReason
  pub parameter : Option ParameterFact

pub record CallTargetSet : Type 0 where
  pub exhaustive : Bool
  pub candidates : List ResolvedDeclaration

pub record Call : Type 0 where
  pub target : GoString
  pub return_type_text : GoString
  pub validity : ResolvedCallValidity
  pub kind : CallKind
  pub declaration : Option ResolvedDeclaration
  pub targets : Option CallTargetSet
  pub arguments : List ArgumentMapping

-- `primitive_value_domain` is the `bits` of a `PrimitiveValueDomain`.
pub record EntityFact : Type 0 where
  pub location : Location
  pub symbol : GoString
  pub symbol_unresolved : Bool
  pub type_descriptor : Option TypeDescriptor
  pub resolved_call : Option Call
  pub callability : Callability
  pub runtime_value_domain : Option RuntimeValueDomain
  pub primitive_value_domain : ℕ
  pub primitive_literal_candidates : List PrimitiveLiteralCandidate
  pub constructability : Constructability
  pub call_result_domain : Option RuntimeValueDomain
  pub constant_value : Option ConstantValue
  pub array_shape : ArrayShape
  pub tuple_shape : Option TupleShape
  pub library_types : List GoString
  pub reference_space : ReferenceSpace
  pub runtime_identity : GoString

pub record SymbolFact : Type 0 where
  pub id : GoString
  pub alias_target : GoString
  pub declarations : List Declaration
  pub references : List Location

pub record FileFact : Type 0 where
  pub path : GoString
  pub calls : List SourceCall
  pub bindings : List SourceBinding
  pub functions : List SourceFunction
  pub async_functions : List AsyncFunctionFact

pub record SourceDigest : Type 0 where
  pub path : GoString
  pub sha256 : List ℕ
