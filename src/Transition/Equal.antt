-- ===== src/Transition/Equal.antt =====
-- internal/typefacts/facttable_equal.go: when two rows count as the same, so that nothing is sent.
pub mod Laws
pub mod Entities
pub mod Files
use solid_ts_facts.Prelude.{
  ℕ, ◌*◌, ◌%◌, ◌^◌, Bool, true, false, not, ◌&&◌, ◌||◌, Option, none, some, List, [], ◌∷◌, ltb,
  ◌==◌, length,
}
use solid_ts_facts.Keys.{str_eq}
use solid_ts_facts.Model.{Location}
use solid_ts_facts.Transition.Facts.{
  Declaration, TypeDescriptor, RuntimeValueDomain, PrimitiveLiteralKind, literal_string,
  literal_number, literal_boolean, literal_other, PrimitiveLiteralCandidate, ConstantValueKind,
  constant_string, constant_number, constant_other, ConstantValue, TupleShape, SourceCall,
  SourceBinding, SourceFunction, AsyncFunctionFact, DeclarationOwner, ResolvedDeclaration,
  ObjectConstructionProperty, ParameterFact, ArgumentMapping, CallTargetSet, Call, EntityFact,
  FileFact,
}
use solid_ts_facts.Transition.Symbols.{locations_equal}
use solid_ts_facts.Transition.Tags.Calls.{
  validity_equal, call_kind_equal, mapping_status_equal, mapping_reason_equal, witness_equal,
}
use solid_ts_facts.Transition.Tags.Values.{
  callability_equal, constructability_equal, array_shape_equal, reference_space_equal,
}
use solid_ts_facts.Transition.Writer.{text}

-- slices.Equal and slices.EqualFunc
unfoldable pub list_equal {ℓ} : {A : Type ℓ} → (A → A → Bool) → List A → List A → Bool
list_equal eq [] [] = true
list_equal eq [] (b ∷ right) = false
list_equal eq (a ∷ left) [] = false
list_equal eq (a ∷ left) (b ∷ right) = eq a b && list_equal eq left right

-- Two pointers: both nil, or equal targets.
unfoldable pub option_equal {ℓ} : {A : Type ℓ} → (A → A → Bool) → Option A → Option A → Bool
option_equal eq none none = true
option_equal eq none (some b) = false
option_equal eq (some a) none = false
option_equal eq (some a) (some b) = eq a b

unfoldable pub bool_equal : Bool → Bool → Bool
bool_equal true b = b
bool_equal false b = not b

unfoldable pub is_nan : ℕ → Bool
is_nan n = ltb (2047 * 2 ^ 52) (n % 2 ^ 63)

unfoldable pub is_zero : ℕ → Bool
is_zero n = n % 2 ^ 63 == 0

-- == on float64: a NaN equals nothing, and the two zeros are equal.
unfoldable pub float_equal : ℕ → ℕ → Bool
float_equal a b = not (is_nan a) && (a == b || (is_zero a && is_zero b))

unfoldable pub location_equal : Location → Location → Bool
location_equal l r =
    str_eq l.path r.path && l.start_byte == r.start_byte && l.end_byte == r.end_byte

unfoldable pub declaration_equal : Declaration → Declaration → Bool
declaration_equal l r =
    str_eq l.name r.name && str_eq l.kind r.kind && location_equal l.location r.location

unfoldable pub type_descriptor_equal : Option TypeDescriptor → Option TypeDescriptor → Bool
type_descriptor_equal = option_equal (λ l r.
    str_eq l.text r.text
    && str_eq l.origin_module r.origin_module
    && list_equal declaration_equal l.alias_declarations r.alias_declarations)

unfoldable pub owner_equal : DeclarationOwner → DeclarationOwner → Bool
owner_equal l r =
    str_eq l.symbol r.symbol
    && str_eq l.name r.name
    && str_eq l.kind r.kind
    && location_equal l.location r.location

unfoldable pub resolved_declaration_equal : ResolvedDeclaration → ResolvedDeclaration → Bool
resolved_declaration_equal l r =
    str_eq l.symbol r.symbol
    && str_eq l.name r.name
    && str_eq l.kind r.kind
    && location_equal l.location r.location
    && str_eq l.qualified_name r.qualified_name
    && str_eq l.origin_module r.origin_module
    && str_eq l.source_file r.source_file
    && bool_equal l.standard_library r.standard_library
    && list_equal owner_equal l.owners r.owners

unfoldable pub property_equal : ObjectConstructionProperty → ObjectConstructionProperty → Bool
property_equal l r = str_eq l.name r.name && witness_equal l.witness r.witness

unfoldable pub parameter_fact_equal : ParameterFact → ParameterFact → Bool
parameter_fact_equal l r =
    l.index == r.index
    && str_eq l.symbol r.symbol
    && bool_equal l.rest r.rest
    && bool_equal l.optional r.optional
    && callability_equal l.callability r.callability
    && option_equal (list_equal property_equal) l.object_shape r.object_shape
    && type_descriptor_equal l.type_descriptor r.type_descriptor
    && option_equal declaration_equal l.declaration r.declaration

unfoldable pub argument_mapping_equal : ArgumentMapping → ArgumentMapping → Bool
argument_mapping_equal l r =
    l.argument_index == r.argument_index
    && mapping_status_equal l.status r.status
    && mapping_reason_equal l.unresolved r.unresolved
    && option_equal parameter_fact_equal l.parameter r.parameter

unfoldable pub call_target_set_equal : CallTargetSet → CallTargetSet → Bool
call_target_set_equal l r =
    bool_equal l.exhaustive r.exhaustive
    && list_equal resolved_declaration_equal l.candidates r.candidates

unfoldable pub resolved_call_equal : Call → Call → Bool
resolved_call_equal l r =
    str_eq l.target r.target
    && str_eq l.return_type_text r.return_type_text
    && validity_equal l.validity r.validity
    && call_kind_equal l.kind r.kind
    && option_equal resolved_declaration_equal l.declaration r.declaration
    && option_equal call_target_set_equal l.targets r.targets
    && list_equal argument_mapping_equal l.arguments r.arguments

unfoldable pub runtime_value_domain_equal : RuntimeValueDomain → RuntimeValueDomain → Bool
runtime_value_domain_equal l r =
    bool_equal l.may_be_callable r.may_be_callable
    && bool_equal l.may_be_undefined r.may_be_undefined
    && bool_equal l.may_be_other r.may_be_other
    && bool_equal l.unknown r.unknown

unfoldable pub tuple_shape_equal : TupleShape → TupleShape → Bool
tuple_shape_equal l r =
    l.fixed_length == r.fixed_length
    && l.exact_length == r.exact_length
    && bool_equal l.exact_length_known r.exact_length_known
    && bool_equal l.has_rest r.has_rest
    && callability_equal l.element_zero r.element_zero
    && l.element_zero_minimum_parameters == r.element_zero_minimum_parameters

unfoldable pub literal_kind_equal : PrimitiveLiteralKind → PrimitiveLiteralKind → Bool
literal_kind_equal literal_string literal_string = true
literal_kind_equal literal_number literal_number = true
literal_kind_equal literal_boolean literal_boolean = true
literal_kind_equal (literal_other s) (literal_other t) = str_eq s t
literal_kind_equal l r = false

-- All payloads count, also those that the kind does not select.
unfoldable pub literal_equal : PrimitiveLiteralCandidate → PrimitiveLiteralCandidate → Bool
literal_equal l r =
    literal_kind_equal l.kind r.kind
    && str_eq l.string r.string
    && float_equal l.number r.number
    && bool_equal l.boolean r.boolean

unfoldable pub constant_kind_equal : ConstantValueKind → ConstantValueKind → Bool
constant_kind_equal constant_string constant_string = true
constant_kind_equal constant_number constant_number = true
constant_kind_equal (constant_other s) (constant_other t) = str_eq s t
constant_kind_equal l r = false

unfoldable pub constant_equal : ConstantValue → ConstantValue → Bool
constant_equal l r =
    constant_kind_equal l.kind r.kind && str_eq l.string r.string && float_equal l.number r.number

unfoldable pub entity_fact_equal : EntityFact → EntityFact → Bool
entity_fact_equal l r =
    location_equal l.location r.location
    && str_eq l.symbol r.symbol
    && bool_equal l.symbol_unresolved r.symbol_unresolved
    && callability_equal l.callability r.callability
    && constructability_equal l.constructability r.constructability
    && reference_space_equal l.reference_space r.reference_space
    && str_eq l.runtime_identity r.runtime_identity
    && option_equal runtime_value_domain_equal l.runtime_value_domain r.runtime_value_domain
    && l.primitive_value_domain == r.primitive_value_domain
    && list_equal literal_equal l.primitive_literal_candidates r.primitive_literal_candidates
    && option_equal runtime_value_domain_equal l.call_result_domain r.call_result_domain
    && option_equal constant_equal l.constant_value r.constant_value
    && array_shape_equal l.array_shape r.array_shape
    && option_equal tuple_shape_equal l.tuple_shape r.tuple_shape
    && list_equal str_eq l.library_types r.library_types
    && type_descriptor_equal l.type_descriptor r.type_descriptor
    && option_equal resolved_call_equal l.resolved_call r.resolved_call

-- `shared` says whether the first rows of the two lists are one and the same in memory.
unfoldable pub entity_facts_equal : Bool → List EntityFact → List EntityFact → Bool
entity_facts_equal shared left right =
    length left == length right
    && (length left == 0 || shared || list_equal entity_fact_equal left right)

unfoldable pub source_call_equal : SourceCall → SourceCall → Bool
source_call_equal l r =
    location_equal l.location r.location
    && location_equal l.callee r.callee
    && str_eq l.target r.target
    && locations_equal l.arguments r.arguments

unfoldable pub source_binding_equal : SourceBinding → SourceBinding → Bool
source_binding_equal l r =
    bool_equal l.array r.array
    && locations_equal l.names r.names
    && source_call_equal l.initializer r.initializer

unfoldable pub source_function_equal : SourceFunction → SourceFunction → Bool
source_function_equal l r =
    location_equal l.name r.name
    && location_equal l.body r.body
    && bool_equal l.exported r.exported
    && bool_equal l.async r.async
    && bool_equal l.arrow r.arrow
    && locations_equal l.parameters r.parameters

unfoldable pub async_function_fact_equal : AsyncFunctionFact → AsyncFunctionFact → Bool
async_function_fact_equal l r =
    location_equal l.expression r.expression
    && str_eq l.symbol r.symbol
    && str_eq l.target r.target
    && bool_equal l.can_return_async r.can_return_async
    && locations_equal l.calls_after_await r.calls_after_await

unfoldable pub file_fact_equal : FileFact → FileFact → Bool
file_fact_equal l r =
    str_eq l.path r.path
    && list_equal source_call_equal l.calls r.calls
    && list_equal source_binding_equal l.bindings r.bindings
    && list_equal source_function_equal l.functions r.functions
    && list_equal async_function_fact_equal l.async_functions r.async_functions
