-- ===== src/Transition/Equal/Laws.antt =====
-- Rows that count as the same are the same, except for the sign of a zero.
use mathlib.Core.Option
use solid_ts_facts.Prelude.{
  ◌≡◌, refl, sym, ap, Bool, true, false, Option, none, some, List, [], ◌∷◌, map, arith,
}
use solid_ts_facts.Keys.Order.{eq_of_str_eq}
use solid_ts_facts.Model.{Location}
use solid_ts_facts.Transition.Equal.{
  list_equal, option_equal, bool_equal, location_equal, declaration_equal, type_descriptor_equal,
  owner_equal, resolved_declaration_equal, property_equal, parameter_fact_equal,
}
use solid_ts_facts.Transition.Facts.{
  Declaration, TypeDescriptor, DeclarationOwner, ResolvedDeclaration, ObjectConstructionProperty,
  ParameterFact,
}
use solid_ts_facts.Transition.Tags.Calls.{witness_equal-eq}
use solid_ts_facts.Transition.Tags.Values.{callability_equal-eq}

module _ {ℓ} {A : Type ℓ} (eq : A → A → Bool) where
  abbrev pub IsExact : Type ℓ
  IsExact = (a b : A) → eq a b ≡ true → a ≡ b

  pub list_equal-eq : IsExact → (l r : List A) → list_equal eq l r ≡ true → l ≡ r
  unfolding list_equal
  list_equal-eq exact [] [] h = refl
  list_equal-eq exact [] (b ∷ r) h = absurd cc
  list_equal-eq exact (a ∷ l) [] h = absurd cc
  list_equal-eq exact (a ∷ l) (b ∷ r) h = ground (arith, exact a b, list_equal-eq exact l r)

  pub option_equal-eq : IsExact → (l r : Option A) → option_equal eq l r ≡ true → l ≡ r
  unfolding option_equal
  option_equal-eq exact none none h = refl
  option_equal-eq exact none (some b) h = absurd cc
  option_equal-eq exact (some a) none h = absurd cc
  option_equal-eq exact (some a) (some b) h = ap some (exact a b h)

  module _ {κ} {B : Type κ} (f : A → B) (same : (a b : A) → eq a b ≡ true → f a ≡ f b) where
    pub list_equal-map : (l r : List A) → list_equal eq l r ≡ true → map f l ≡ map f r
    unfolding list_equal
    list_equal-map [] [] h = refl
    list_equal-map [] (b ∷ r) h = absurd cc
    list_equal-map (a ∷ l) [] h = absurd cc
    list_equal-map (a ∷ l) (b ∷ r) h = ground (arith, same a b, list_equal-map l r)

    pub option_equal-map :
        (l r : Option A) → option_equal eq l r ≡ true → Option.map f l ≡ Option.map f r
    unfolding option_equal
    option_equal-map none none h = refl
    option_equal-map none (some b) h = absurd cc
    option_equal-map (some a) none h = absurd cc
    option_equal-map (some a) (some b) h = ap some (same a b h)

pub bool_equal-eq : (a b : Bool) → bool_equal a b ≡ true → a ≡ b
unfolding bool_equal
bool_equal-eq true b h = sym h
bool_equal-eq false true h = absurd cc
bool_equal-eq false false h = refl

pub location_equal-eq : (l r : Location) → location_equal l r ≡ true → l ≡ r
unfolding location_equal
location_equal-eq l r h = ground (arith, eq_of_str_eq l.path r.path)

declaration_equal-eq : (l r : Declaration) → declaration_equal l r ≡ true → l ≡ r
unfolding declaration_equal
declaration_equal-eq l r h = ground (
  arith,
  eq_of_str_eq l.name r.name,
  eq_of_str_eq l.kind r.kind,
  location_equal-eq l.location r.location,
)

pub descriptor_equal-eq : (l r : Option TypeDescriptor) → type_descriptor_equal l r ≡ true → l ≡ r
unfolding type_descriptor_equal
descriptor_equal-eq = option_equal-eq _ (λ l r h. ground (
  arith,
  eq_of_str_eq l.text r.text,
  eq_of_str_eq l.origin_module r.origin_module,
  list_equal-eq declaration_equal declaration_equal-eq l.alias_declarations r.alias_declarations,
))

owner_equal-eq : (l r : DeclarationOwner) → owner_equal l r ≡ true → l ≡ r
unfolding owner_equal
owner_equal-eq l r h = ground (
  arith,
  eq_of_str_eq l.symbol r.symbol,
  eq_of_str_eq l.name r.name,
  eq_of_str_eq l.kind r.kind,
  location_equal-eq l.location r.location,
)

pub resolved_declaration_equal-eq :
    (l r : ResolvedDeclaration) → resolved_declaration_equal l r ≡ true → l ≡ r
unfolding resolved_declaration_equal
resolved_declaration_equal-eq l r h = ground (
  arith,
  eq_of_str_eq l.symbol r.symbol,
  eq_of_str_eq l.name r.name,
  eq_of_str_eq l.kind r.kind,
  location_equal-eq l.location r.location,
  eq_of_str_eq l.qualified_name r.qualified_name,
  eq_of_str_eq l.origin_module r.origin_module,
  eq_of_str_eq l.source_file r.source_file,
  bool_equal-eq l.standard_library r.standard_library,
  list_equal-eq owner_equal owner_equal-eq l.owners r.owners,
)

property_equal-eq : (l r : ObjectConstructionProperty) → property_equal l r ≡ true → l ≡ r
unfolding property_equal
property_equal-eq l r h =
    ground (arith, eq_of_str_eq l.name r.name, witness_equal-eq l.witness r.witness)

shape_equal-eq :
    (l r : Option (List ObjectConstructionProperty))
    → option_equal (list_equal property_equal) l r ≡ true
    → l ≡ r
shape_equal-eq =
    option_equal-eq (list_equal property_equal) (list_equal-eq property_equal property_equal-eq)

pub parameter_fact_equal-eq : (l r : ParameterFact) → parameter_fact_equal l r ≡ true → l ≡ r
unfolding parameter_fact_equal
parameter_fact_equal-eq l r h = ground (
  arith,
  eq_of_str_eq l.symbol r.symbol,
  bool_equal-eq l.rest r.rest,
  bool_equal-eq l.optional r.optional,
  callability_equal-eq l.callability r.callability,
  shape_equal-eq l.object_shape r.object_shape,
  descriptor_equal-eq l.type_descriptor r.type_descriptor,
  option_equal-eq declaration_equal declaration_equal-eq l.declaration r.declaration,
)
