-- ===== src/Transition/Tags/Calls.antt =====
-- internal/typefacts/typefacts.go: Go's == on the enums of resolved calls.
use solid_ts_facts.Prelude.{◌≡◌, refl, Bool, true, List, [], ◌∷◌}
use solid_ts_facts.Transition.Facts.{
  ResolvedCallValidity, resolved_call_valid, resolved_call_recovery, resolved_call_unresolved,
  resolved_call_other, CallKind, call_kind_unknown, call_kind_call, call_kind_construct,
  call_kind_other, ArgumentMappingStatus, argument_mapping_resolved, argument_mapping_unresolved,
  argument_mapping_other, ArgumentMappingReason, reason_absent, reason_call_unresolved,
  reason_recovery_signature, reason_composite_signature, reason_spread_argument,
  reason_parameter_unavailable, reason_other, ConstructionWitness, witness_unknown,
  witness_empty_array, witness_empty_object, witness_other,
}
use solid_ts_facts.Transition.Tags.{Tag, tag_equal, value_of, tags-eq}

unfoldable pub validity_name : ResolvedCallValidity → Tag
validity_name resolved_call_valid = (0, [])
validity_name resolved_call_recovery = (1, [])
validity_name resolved_call_unresolved = (2, [])
validity_name (resolved_call_other s) = (3, s)

abbrev pub validity_equal : ResolvedCallValidity → ResolvedCallValidity → Bool
validity_equal a b = tag_equal (validity_name a) (validity_name b)

abbrev known_validity : List ResolvedCallValidity
known_validity = resolved_call_valid ∷ resolved_call_recovery ∷ resolved_call_unresolved ∷ []

validity-value_of :
    (a : ResolvedCallValidity) → value_of known_validity resolved_call_other (validity_name a) ≡ a
unfolding validity_name
validity-value_of resolved_call_valid = refl
validity-value_of resolved_call_recovery = refl
validity-value_of resolved_call_unresolved = refl
validity-value_of (resolved_call_other s) = refl

pub validity_equal-eq : (a b : ResolvedCallValidity) → validity_equal a b ≡ true → a ≡ b
validity_equal-eq = tags-eq validity_name known_validity resolved_call_other validity-value_of

unfoldable pub call_kind_name : CallKind → Tag
call_kind_name call_kind_unknown = (0, [])
call_kind_name call_kind_call = (1, [])
call_kind_name call_kind_construct = (2, [])
call_kind_name (call_kind_other s) = (3, s)

abbrev pub call_kind_equal : CallKind → CallKind → Bool
call_kind_equal a b = tag_equal (call_kind_name a) (call_kind_name b)

abbrev known_call_kind : List CallKind
known_call_kind = call_kind_unknown ∷ call_kind_call ∷ call_kind_construct ∷ []

call_kind-value_of :
    (a : CallKind) → value_of known_call_kind call_kind_other (call_kind_name a) ≡ a
unfolding call_kind_name
call_kind-value_of call_kind_unknown = refl
call_kind-value_of call_kind_call = refl
call_kind-value_of call_kind_construct = refl
call_kind-value_of (call_kind_other s) = refl

pub call_kind_equal-eq : (a b : CallKind) → call_kind_equal a b ≡ true → a ≡ b
call_kind_equal-eq = tags-eq call_kind_name known_call_kind call_kind_other call_kind-value_of

unfoldable pub mapping_status_name : ArgumentMappingStatus → Tag
mapping_status_name argument_mapping_resolved = (0, [])
mapping_status_name argument_mapping_unresolved = (1, [])
mapping_status_name (argument_mapping_other s) = (2, s)

abbrev pub mapping_status_equal : ArgumentMappingStatus → ArgumentMappingStatus → Bool
mapping_status_equal a b = tag_equal (mapping_status_name a) (mapping_status_name b)

abbrev known_mapping_status : List ArgumentMappingStatus
known_mapping_status = argument_mapping_resolved ∷ argument_mapping_unresolved ∷ []

mapping_status-value_of :
    (a : ArgumentMappingStatus)
    → value_of known_mapping_status argument_mapping_other (mapping_status_name a) ≡ a
unfolding mapping_status_name
mapping_status-value_of argument_mapping_resolved = refl
mapping_status-value_of argument_mapping_unresolved = refl
mapping_status-value_of (argument_mapping_other s) = refl

pub mapping_status_equal-eq :
    (a b : ArgumentMappingStatus) → mapping_status_equal a b ≡ true → a ≡ b
mapping_status_equal-eq =
    tags-eq mapping_status_name known_mapping_status argument_mapping_other mapping_status-value_of

unfoldable pub mapping_reason_name : ArgumentMappingReason → Tag
mapping_reason_name reason_absent = (0, [])
mapping_reason_name reason_call_unresolved = (1, [])
mapping_reason_name reason_recovery_signature = (2, [])
mapping_reason_name reason_composite_signature = (3, [])
mapping_reason_name reason_spread_argument = (4, [])
mapping_reason_name reason_parameter_unavailable = (5, [])
mapping_reason_name (reason_other s) = (6, s)

abbrev pub mapping_reason_equal : ArgumentMappingReason → ArgumentMappingReason → Bool
mapping_reason_equal a b = tag_equal (mapping_reason_name a) (mapping_reason_name b)

abbrev known_mapping_reason : List ArgumentMappingReason
known_mapping_reason =
    reason_absent ∷ reason_call_unresolved ∷ reason_recovery_signature ∷ reason_composite_signature
    ∷ reason_spread_argument ∷ reason_parameter_unavailable ∷ []

mapping_reason-value_of :
    (a : ArgumentMappingReason)
    → value_of known_mapping_reason reason_other (mapping_reason_name a) ≡ a
unfolding mapping_reason_name
mapping_reason-value_of reason_absent = refl
mapping_reason-value_of reason_call_unresolved = refl
mapping_reason-value_of reason_recovery_signature = refl
mapping_reason-value_of reason_composite_signature = refl
mapping_reason-value_of reason_spread_argument = refl
mapping_reason-value_of reason_parameter_unavailable = refl
mapping_reason-value_of (reason_other s) = refl

pub mapping_reason_equal-eq :
    (a b : ArgumentMappingReason) → mapping_reason_equal a b ≡ true → a ≡ b
mapping_reason_equal-eq =
    tags-eq mapping_reason_name known_mapping_reason reason_other mapping_reason-value_of

unfoldable pub witness_name : ConstructionWitness → Tag
witness_name witness_unknown = (0, [])
witness_name witness_empty_array = (1, [])
witness_name witness_empty_object = (2, [])
witness_name (witness_other s) = (3, s)

abbrev pub witness_equal : ConstructionWitness → ConstructionWitness → Bool
witness_equal a b = tag_equal (witness_name a) (witness_name b)

abbrev known_witness : List ConstructionWitness
known_witness = witness_unknown ∷ witness_empty_array ∷ witness_empty_object ∷ []

witness-value_of :
    (a : ConstructionWitness) → value_of known_witness witness_other (witness_name a) ≡ a
unfolding witness_name
witness-value_of witness_unknown = refl
witness-value_of witness_empty_array = refl
witness-value_of witness_empty_object = refl
witness-value_of (witness_other s) = refl

pub witness_equal-eq : (a b : ConstructionWitness) → witness_equal a b ≡ true → a ≡ b
witness_equal-eq = tags-eq witness_name known_witness witness_other witness-value_of
