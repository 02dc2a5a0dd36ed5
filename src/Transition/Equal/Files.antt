-- ===== src/Transition/Equal/Files.antt =====
-- File rows that count as the same are the same.
use solid_ts_facts.Prelude.{◌≡◌, true, arith}
use solid_ts_facts.Keys.Order.{eq_of_str_eq}
use solid_ts_facts.Transition.Equal.{
  source_call_equal, source_binding_equal, source_function_equal, async_function_fact_equal,
  file_fact_equal,
}
use solid_ts_facts.Transition.Equal.Laws.{list_equal-eq, bool_equal-eq, location_equal-eq}
use solid_ts_facts.Transition.Facts.{
  SourceCall, SourceBinding, SourceFunction, AsyncFunctionFact, FileFact,
}
use solid_ts_facts.Transition.Symbols.Delta.{locations_equal-eq}

source_call_equal-eq : (l r : SourceCall) → source_call_equal l r ≡ true → l ≡ r
unfolding source_call_equal
source_call_equal-eq l r h = ground (
  arith,
  location_equal-eq l.location r.location,
  location_equal-eq l.callee r.callee,
  eq_of_str_eq l.target r.target,
  locations_equal-eq l.arguments r.arguments,
)

source_binding_equal-eq : (l r : SourceBinding) → source_binding_equal l r ≡ true → l ≡ r
unfolding source_binding_equal
source_binding_equal-eq l r h = ground (
  arith,
  bool_equal-eq l.array r.array,
  locations_equal-eq l.names r.names,
  source_call_equal-eq l.initializer r.initializer,
)

source_function_equal-eq : (l r : SourceFunction) → source_function_equal l r ≡ true → l ≡ r
unfolding source_function_equal
source_function_equal-eq l r h = ground (
  arith,
  location_equal-eq l.name r.name,
  location_equal-eq l.body r.body,
  bool_equal-eq l.exported r.exported,
  bool_equal-eq l.async r.async,
  bool_equal-eq l.arrow r.arrow,
  locations_equal-eq l.parameters r.parameters,
)

async_function_fact_equal-eq :
    (l r : AsyncFunctionFact) → async_function_fact_equal l r ≡ true → l ≡ r
unfolding async_function_fact_equal
async_function_fact_equal-eq l r h = ground (
  arith,
  location_equal-eq l.expression r.expression,
  eq_of_str_eq l.symbol r.symbol,
  eq_of_str_eq l.target r.target,
  bool_equal-eq l.can_return_async r.can_return_async,
  locations_equal-eq l.calls_after_await r.calls_after_await,
)

-- Two file rows that count as the same are the same in every field, down to the last location.
pub file_fact_equal-eq : (l r : FileFact) → file_fact_equal l r ≡ true → l ≡ r
unfolding file_fact_equal
file_fact_equal-eq l r h = ground (
  arith,
  eq_of_str_eq l.path r.path,
  list_equal-eq source_call_equal source_call_equal-eq l.calls r.calls,
  list_equal-eq source_binding_equal source_binding_equal-eq l.bindings r.bindings,
  list_equal-eq source_function_equal source_function_equal-eq l.functions r.functions,
  list_equal-eq async_function_fact_equal async_function_fact_equal-eq l.async_functions
      r.async_functions,
)
