-- ===== src/Transition/Equal/Entities.antt =====
-- Entity rows that count as the same are the same, except for the sign of a zero.
use mathlib.Core.Option
use solid_ts_facts.Prelude.{
  ℕ, ◌≡◌, refl, ap, Bool, true, false, ◌&&◌, List, [], ◌∷◌, map, arith, ◌==◌, if◌then◌else◌, length,
}
use solid_ts_facts.Keys.{str_eq}
use solid_ts_facts.Keys.Order.{eq_of_str_eq}
use solid_ts_facts.Transition.Equal.{
  is_zero, float_equal, resolved_declaration_equal, parameter_fact_equal, argument_mapping_equal,
  call_target_set_equal, resolved_call_equal, runtime_value_domain_equal, tuple_shape_equal,
  literal_kind_equal, literal_equal, constant_kind_equal, constant_equal, entity_fact_equal,
  entity_facts_equal,
}
use solid_ts_facts.Transition.Equal.Laws.{
  list_equal-eq, option_equal-eq, list_equal-map, option_equal-map, bool_equal-eq,
  location_equal-eq, descriptor_equal-eq, resolved_declaration_equal-eq, parameter_fact_equal-eq,
}
use solid_ts_facts.Transition.Facts.{
  RuntimeValueDomain, PrimitiveLiteralKind, literal_string, literal_number, literal_boolean,
  literal_other, PrimitiveLiteralCandidate, ConstantValueKind, constant_string, constant_number,
  constant_other, ConstantValue, TupleShape, ArgumentMapping, CallTargetSet, Call, EntityFact,
}
use solid_ts_facts.Transition.Tags.Calls.{
  validity_equal-eq, call_kind_equal-eq, mapping_status_equal-eq, mapping_reason_equal-eq,
}
use solid_ts_facts.Transition.Tags.Values.{
  callability_equal-eq, constructability_equal-eq, array_shape_equal-eq, reference_space_equal-eq,
}

argument_mapping_equal-eq : (l r : ArgumentMapping) → argument_mapping_equal l r ≡ true → l ≡ r
unfolding argument_mapping_equal
argument_mapping_equal-eq l r h = ground (
  arith,
  mapping_status_equal-eq l.status r.status,
  mapping_reason_equal-eq l.unresolved r.unresolved,
  option_equal-eq parameter_fact_equal parameter_fact_equal-eq l.parameter r.parameter,
)

call_target_set_equal-eq : (l r : CallTargetSet) → call_target_set_equal l r ≡ true → l ≡ r
unfolding call_target_set_equal
call_target_set_equal-eq l r h = ground (
  arith,
  bool_equal-eq l.exhaustive r.exhaustive,
  list_equal-eq resolved_declaration_equal resolved_declaration_equal-eq l.candidates r.candidates,
)

resolved_call_equal-eq : (l r : Call) → resolved_call_equal l r ≡ true → l ≡ r
unfolding resolved_call_equal
resolved_call_equal-eq l r h = ground (
  arith,
  eq_of_str_eq l.target r.target,
  eq_of_str_eq l.return_type_text r.return_type_text,
  validity_equal-eq l.validity r.validity,
  call_kind_equal-eq l.kind r.kind,
  option_equal-eq resolved_declaration_equal resolved_declaration_equal-eq l.declaration
      r.declaration,
  option_equal-eq call_target_set_equal call_target_set_equal-eq l.targets r.targets,
  list_equal-eq argument_mapping_equal argument_mapping_equal-eq l.arguments r.arguments,
)

runtime_value_domain_equal-eq :
    (l r : RuntimeValueDomain) → runtime_value_domain_equal l r ≡ true → l ≡ r
unfolding runtime_value_domain_equal
runtime_value_domain_equal-eq l r h = ground (
  arith,
  bool_equal-eq l.may_be_callable r.may_be_callable,
  bool_equal-eq l.may_be_undefined r.may_be_undefined,
  bool_equal-eq l.may_be_other r.may_be_other,
  bool_equal-eq l.unknown r.unknown,
)

tuple_shape_equal-eq : (l r : TupleShape) → tuple_shape_equal l r ≡ true → l ≡ r
unfolding tuple_shape_equal
tuple_shape_equal-eq l r h = ground (
  arith,
  bool_equal-eq l.exact_length_known r.exact_length_known,
  bool_equal-eq l.has_rest r.has_rest,
  callability_equal-eq l.element_zero r.element_zero,
)

-- A float's pattern, with both zeros as one.
abbrev unsigned_zero : ℕ → ℕ
unsigned_zero n = if is_zero n then 0 else n

float_equal-zero : (a b : ℕ) → float_equal a b ≡ true → unsigned_zero a ≡ unsigned_zero b
unfolding float_equal
float_equal-zero a b h = ground arith

unfoldable pub plain_literal : PrimitiveLiteralCandidate → PrimitiveLiteralCandidate
plain_literal literal = record literal { number = unsigned_zero literal.number }

unfoldable pub plain_constant : ConstantValue → ConstantValue
plain_constant constant = record constant { number = unsigned_zero constant.number }

literal_kind_equal-eq : (l r : PrimitiveLiteralKind) → literal_kind_equal l r ≡ true → l ≡ r
unfolding literal_kind_equal
literal_kind_equal-eq literal_string literal_string h = refl
literal_kind_equal-eq literal_number literal_number h = refl
literal_kind_equal-eq literal_boolean literal_boolean h = refl
literal_kind_equal-eq (literal_other s) (literal_other t) h = ap literal_other (eq_of_str_eq s t h)
literal_kind_equal-eq l r h = absurd cc

literal_equal-plain :
    (l r : PrimitiveLiteralCandidate) → literal_equal l r ≡ true → plain_literal l ≡ plain_literal r
unfolding literal_equal plain_literal
literal_equal-plain l r h = ground (
  arith,
  literal_kind_equal-eq l.kind r.kind,
  eq_of_str_eq l.string r.string,
  float_equal-zero l.number r.number,
  bool_equal-eq l.boolean r.boolean,
)

constant_kind_equal-eq : (l r : ConstantValueKind) → constant_kind_equal l r ≡ true → l ≡ r
unfolding constant_kind_equal
constant_kind_equal-eq constant_string constant_string h = refl
constant_kind_equal-eq constant_number constant_number h = refl
constant_kind_equal-eq (constant_other s) (constant_other t) h =
    ap constant_other (eq_of_str_eq s t h)
constant_kind_equal-eq l r h = absurd cc

constant_equal-plain :
    (l r : ConstantValue) → constant_equal l r ≡ true → plain_constant l ≡ plain_constant r
unfolding constant_equal plain_constant
constant_equal-plain l r h = ground (
  arith,
  constant_kind_equal-eq l.kind r.kind,
  eq_of_str_eq l.string r.string,
  float_equal-zero l.number r.number,
)

-- An entity with both zeros as one.
unfoldable pub plain_entity : EntityFact → EntityFact
plain_entity e = record e {
  primitive_literal_candidates = map plain_literal e.primitive_literal_candidates;
  constant_value = Option.map plain_constant e.constant_value;
}

both : (a b : Bool) → (a && b) ≡ true → (a ≡ true) × (b ≡ true)
both true b h = (refl, h)
both false b h = absurd cc

eq_of_test : (a b : ℕ) → (a == b) ≡ true → a ≡ b
eq_of_test a b h = ground arith

plain_entity-ext :
    (l r : EntityFact)
    → l.location ≡ r.location
    → l.symbol ≡ r.symbol
    → l.symbol_unresolved ≡ r.symbol_unresolved
    → l.callability ≡ r.callability
    → l.constructability ≡ r.constructability
    → l.reference_space ≡ r.reference_space
    → l.runtime_identity ≡ r.runtime_identity
    → l.runtime_value_domain ≡ r.runtime_value_domain
    → l.primitive_value_domain ≡ r.primitive_value_domain
    → map plain_literal l.primitive_literal_candidates
      ≡ map plain_literal r.primitive_literal_candidates
    → l.call_result_domain ≡ r.call_result_domain
    → Option.map plain_constant l.constant_value ≡ Option.map plain_constant r.constant_value
    → l.array_shape ≡ r.array_shape
    → l.tuple_shape ≡ r.tuple_shape
    → l.library_types ≡ r.library_types
    → l.type_descriptor ≡ r.type_descriptor
    → l.resolved_call ≡ r.resolved_call
    → plain_entity l ≡ plain_entity r
unfolding plain_entity
plain_entity-ext l r p0 p1 p2 p3 p4 p5 p6 p7 p8 p9 p10 p11 p12 p13 p14 p15 p16 = cc

entity_fact_equal-plain :
    (l r : EntityFact) → entity_fact_equal l r ≡ true → plain_entity l ≡ plain_entity r
unfolding entity_fact_equal
entity_fact_equal-plain l r h =
    let (h1, p16) = both _ _ h in
    let (h2, p15) = both _ _ h1 in
    let (h3, p14) = both _ _ h2 in
    let (h4, p13) = both _ _ h3 in
    let (h5, p12) = both _ _ h4 in
    let (h6, p11) = both _ _ h5 in
    let (h7, p10) = both _ _ h6 in
    let (h8, p9) = both _ _ h7 in
    let (h9, p8) = both _ _ h8 in
    let (h10, p7) = both _ _ h9 in
    let (h11, p6) = both _ _ h10 in
    let (h12, p5) = both _ _ h11 in
    let (h13, p4) = both _ _ h12 in
    let (h14, p3) = both _ _ h13 in
    let (h15, p2) = both _ _ h14 in
    let (h16, p1) = both _ _ h15 in
    plain_entity-ext l r (location_equal-eq l.location r.location h16)
      (eq_of_str_eq l.symbol r.symbol p1) (bool_equal-eq l.symbol_unresolved r.symbol_unresolved p2)
      (callability_equal-eq l.callability r.callability p3)
      (constructability_equal-eq l.constructability r.constructability p4)
      (reference_space_equal-eq l.reference_space r.reference_space p5)
      (eq_of_str_eq l.runtime_identity r.runtime_identity p6)
      (option_equal-eq runtime_value_domain_equal runtime_value_domain_equal-eq
        l.runtime_value_domain r.runtime_value_domain p7)
      (eq_of_test l.primitive_value_domain r.primitive_value_domain p8)
      (list_equal-map literal_equal plain_literal literal_equal-plain l.primitive_literal_candidates
        r.primitive_literal_candidates p9)
      (option_equal-eq runtime_value_domain_equal runtime_value_domain_equal-eq l.call_result_domain
        r.call_result_domain p10)
      (option_equal-map constant_equal plain_constant constant_equal-plain l.constant_value
        r.constant_value p11)
      (array_shape_equal-eq l.array_shape r.array_shape p12)
      (option_equal-eq tuple_shape_equal tuple_shape_equal-eq l.tuple_shape r.tuple_shape p13)
      (list_equal-eq str_eq eq_of_str_eq l.library_types r.library_types p14)
      (descriptor_equal-eq l.type_descriptor r.type_descriptor p15)
      (option_equal-eq resolved_call_equal resolved_call_equal-eq l.resolved_call r.resolved_call
        p16)

empty-eq : {A : Type 0} (l r : List A) → length l ≡ length r → length l ≡ 0 → l ≡ r
empty-eq [] [] p q = refl
empty-eq [] (b ∷ r) p q = absurd (omega arith)
empty-eq (a ∷ l) r p q = absurd (omega arith)

-- Two runs of entities that count as the same hold the same rows in the same order, except that a
-- zero may have the other sign, as long as runs are only said to be shared when they are one.
pub entity_facts_equal-plain :
    (shared : Bool) (l r : List EntityFact)
    → (shared ≡ true → l ≡ r)
    → entity_facts_equal shared l r ≡ true
    → map plain_entity l ≡ map plain_entity r
unfolding entity_facts_equal
entity_facts_equal-plain shared l r one h = ground (
  arith,
  one,
  empty-eq l r,
  list_equal-map entity_fact_equal plain_entity entity_fact_equal-plain l r,
)
