-- ===== src/Transition/Rows.antt =====
-- internal/typefacts/wire_transition_rows.go: resolved calls, parameters, file bodies and symbol
-- operations. A row that is refused gives no draft: what was written before the error is dropped.
use solid_ts_facts.Prelude.{
  ℕ, Bool, true, false, not, ◌&&◌, Option, none, some, List, [], ◌∷◌, leb, ◌==◌, if◌then◌else◌,
  length, int_lt, Result, ok, err, ◌>>=◌,
}
use solid_ts_facts.Model.{Location}
use solid_ts_facts.Transition.Codes.{
  RowError, negative_start, end_before_start, negative_count, no_candidates,
  candidate_without_symbol, status_reason_disagree, bool_bit, validity_code, call_kind_code,
  mapping_status_code, mapping_reason_code, callability_code, construction_witness_code,
}
use solid_ts_facts.Transition.Facts.{
  Declaration, SourceCall, SourceBinding, SourceFunction, AsyncFunctionFact, ResolvedDeclaration,
  ObjectConstructionProperty, ParameterFact, ArgumentMapping, CallTargetSet, Call, FileFact,
}
use solid_ts_facts.Transition.Writer.{
  Draft, put, text, internal_location, internal_locations, wire_symbol_name,
  internal_type_descriptor, internal_resolved_declaration, internal_source_call,
}
use solid_ts_facts.Wire.Flags.{or_flags}

abbrev pub Written : Type 0
Written = Result RowError Draft

-- `value < 0` on an int.
unfoldable pub is_negative : ℕ → Bool
is_negative value = int_lt value 0

unfoldable pub refuse_if : Bool → RowError → Result RowError (Unit {0})
refuse_if test error = if test then err error else ok tt

unfoldable pub is_empty {ℓ} : {A : Type ℓ} → List A → Bool
is_empty [] = true
is_empty (x ∷ xs) = false

unfoldable pub is_some {ℓ} : {A : Type ℓ} → Option A → Bool
is_some none = false
is_some (some x) = true

unfoldable pub when_some {ℓ} : {A : Type ℓ} → Option A → Draft → (Draft → A → Draft) → Draft
when_some none d write = d
when_some (some a) d write = write d a

unfoldable pub validate_location : Location → Result RowError (Unit {0})
unfolding refuse_if is_negative
validate_location location = do
  _ ← refuse_if (is_negative location.start_byte) negative_start
  refuse_if (int_lt location.end_byte location.start_byte) end_before_start

property_rows : Draft → List ObjectConstructionProperty → Written
unfolding text construction_witness_code put
property_rows d [] = ok d
property_rows d (property ∷ rest) = do
  code ← construction_witness_code property.witness
  property_rows (put (text d property.name) code) rest

parameter_flags : ParameterFact → ℕ → ℕ
unfolding or_flags is_some
parameter_flags parameter schema =
    or_flags
      ((is_some parameter.declaration, 0)
        ∷ (parameter.rest, 1)
        ∷ (parameter.optional, 2)
        ∷ (is_some parameter.type_descriptor, 3)
        ∷ (leb 17 schema && is_some parameter.object_shape, 4)
        ∷ [])
      0

write_declaration : Draft → Declaration → Draft
unfolding text wire_symbol_name internal_location
write_declaration d declaration =
    (internal_location (text (text d (wire_symbol_name declaration.name)) declaration.kind)
      declaration.location none).0

write_object_shape : ℕ → Draft → Option (List ObjectConstructionProperty) → Written
unfolding property_rows put
write_object_shape schema d none = ok d
write_object_shape schema d (some properties) =
    if leb 17 schema then property_rows (put d (length properties)) properties else ok d

unfoldable pub write_parameter : Draft → ParameterFact → ℕ → Written
unfolding is_negative refuse_if callability_code parameter_flags write_declaration
    write_object_shape put text when_some internal_type_descriptor
write_parameter d parameter schema = do
  _ ← refuse_if (is_negative parameter.index) negative_count
  callability ← callability_code parameter.callability schema
  let headed =
      put (text (put d parameter.index) parameter.symbol) (parameter_flags parameter schema)
  let declared = when_some parameter.declaration headed write_declaration
  let described =
      when_some parameter.type_descriptor (put declared callability) internal_type_descriptor
  write_object_shape schema described parameter.object_shape

write_mapping : Draft → ArgumentMapping → ℕ → Written
unfolding is_negative refuse_if mapping_status_code mapping_reason_code is_some put write_parameter
write_mapping d mapping schema = do
  _ ← refuse_if (is_negative mapping.argument_index) negative_count
  status ← mapping_status_code mapping.status
  reason ← mapping_reason_code mapping.unresolved
  _ ← refuse_if (not (iff (status == 0) (reason == 0))) status_reason_disagree
  let headed =
      put (put (put (put d mapping.argument_index) status) reason)
        (bool_bit (is_some mapping.parameter))
  elim mapping.parameter [
    | none ↦ ok headed
    | some parameter ↦ write_parameter headed parameter schema
  ]
  where
    iff : Bool → Bool → Bool
    iff true b = b
    iff false b = not b

mapping_rows : Draft → List ArgumentMapping → ℕ → Written
unfolding write_mapping
mapping_rows d [] schema = ok d
mapping_rows d (mapping ∷ rest) schema = do
  next ← write_mapping d mapping schema
  mapping_rows next rest schema

candidate_rows : Draft → List ResolvedDeclaration → Written
unfolding refuse_if is_empty internal_resolved_declaration
candidate_rows d [] = ok d
candidate_rows d (candidate ∷ rest) = do
  _ ← refuse_if (is_empty candidate.symbol) candidate_without_symbol
  candidate_rows (internal_resolved_declaration d candidate) rest

write_targets : Draft → Option CallTargetSet → Written
unfolding put bool_bit refuse_if is_empty candidate_rows
write_targets d none = ok (put d 0)
write_targets d (some targets) = do
  _ ← refuse_if (is_empty targets.candidates) no_candidates
  candidate_rows (put (put (put d 1) (bool_bit targets.exhaustive)) (length targets.candidates))
      targets.candidates

unfoldable pub write_resolved_call : Draft → Call → ℕ → Written
unfolding validity_code call_kind_code put text when_some internal_resolved_declaration
    write_targets mapping_rows bool_bit is_some
write_resolved_call d call schema = do
  validity ← validity_code call.validity
  kind ← call_kind_code call.kind
  let headed =
      put (put (put (text (text d call.target) call.return_type_text) validity) kind)
        (bool_bit (is_some call.declaration))
  let declared = when_some call.declaration headed internal_resolved_declaration
  targeted ← (if leb 6 schema then write_targets declared call.targets else ok declared)
  mapping_rows (put targeted (length call.arguments)) call.arguments schema

source_call_rows : Draft → List SourceCall → Draft
unfolding internal_source_call
source_call_rows d [] = d
source_call_rows d (call ∷ rest) = source_call_rows (internal_source_call d call) rest

binding_rows : Draft → List SourceBinding → Draft
unfolding put bool_bit internal_locations internal_source_call
binding_rows d [] = d
binding_rows d (binding ∷ rest) =
    binding_rows
      (internal_source_call (internal_locations (put d (bool_bit binding.array)) binding.names)
        binding.initializer)
      rest

write_function : Draft → SourceFunction → Draft
unfolding internal_location internal_locations put or_flags
write_function d function =
    let (named, state) = internal_location d function.name none in
    let (bodied, after) = internal_location named function.body state in
    put (internal_locations bodied function.parameters)
      (or_flags ((function.exported, 0) ∷ (function.async, 1) ∷ (function.arrow, 2) ∷ []) 0)

function_rows : Draft → List SourceFunction → Draft
unfolding write_function
function_rows d [] = d
function_rows d (function ∷ rest) = function_rows (write_function d function) rest

write_async_function : Draft → AsyncFunctionFact → Draft
unfolding internal_location text put bool_bit internal_locations
write_async_function d function =
    let (placed, state) = internal_location d function.expression none in
    internal_locations
      (put (text (text placed function.symbol) function.target)
        (bool_bit function.can_return_async))
      function.calls_after_await

async_function_rows : Draft → List AsyncFunctionFact → Draft
unfolding write_async_function
async_function_rows d [] = d
async_function_rows d (function ∷ rest) = async_function_rows (write_async_function d function) rest

unfoldable pub write_file_body : Draft → FileFact → Draft
unfolding source_call_rows binding_rows function_rows async_function_rows put
write_file_body d file =
    let calls = source_call_rows (put d (length file.calls)) file.calls in
    let bindings = binding_rows (put calls (length file.bindings)) file.bindings in
    let functions = function_rows (put bindings (length file.functions)) file.functions in
    async_function_rows (put functions (length file.async_functions)) file.async_functions
