-- ===== src/Transition/ExactSymbols.antt =====
-- internal/typefacts/wire_transition_diff.go and symbol_store.go: looking a symbol up in a table, and
-- the symbol operations for the symbols that a manifest names.
use solid_ts_facts.Prelude.{
  ℕ, zero, suc, ◌+◌, ◌-◌, Bool, true, not, ◌&&◌, Option, none, some, List, [], ◌∷◌, ◌++◌, ◌==◌,
  if◌then◌else◌, length, get_elem?,
}
use solid_ts_facts.Keys.{GoString, str_eq, str_lt}
use solid_ts_facts.Keys.Rows.{row_at}
use solid_ts_facts.Keys.Search.{sort_search}
use solid_ts_facts.Model.{Location}
use solid_ts_facts.Session.DemandStore.{sort_paths}
use solid_ts_facts.Transition.Facts.{SymbolFact}
use solid_ts_facts.Transition.Symbols.{
  replace_reference_path, SymbolOp, locations_equal, declarations_equal, no_fact, replace_op,
  remove_op, Chunk,
}
use solid_ts_facts.Transition.Symbols.Delta.{fact_id, all_rows}
use solid_ts_facts.Transition.Tables.{TransportChanges, FactTable}

unfoldable pub last_id : List SymbolFact → GoString
last_id [] = []
last_id (fact ∷ []) = fact.id
last_id (fact ∷ next ∷ rest) = last_id (next ∷ rest)

-- chunk[len(chunk)-1].ID >= id for the chunk at an index; no chunk of a store is empty.
ends_at_least : List Chunk → GoString → ℕ → Bool
ends_at_least chunks id index = elim (get_elem? chunks index) [
  | none ↦ true
  | some chunk ↦ not (str_lt (last_id chunk.rows) id)
]

unfoldable pub chunk_for : List Chunk → GoString → ℕ
unfolding ends_at_least
chunk_for chunks id =
    let index = sort_search (length chunks) (ends_at_least chunks id) in
    if index == length chunks then length chunks - 1 else index

-- symbolFactStore.Get
unfoldable pub store_get : List Chunk → GoString → Option SymbolFact
store_get chunks id = elim (get_elem? chunks (chunk_for chunks id)) [
  | none ↦ none
  | some chunk ↦ row_at fact_id chunk.rows id
]

symbol_in : Option (List Chunk) → List SymbolFact → GoString → Option SymbolFact
symbol_in none facts id = row_at fact_id facts id
symbol_in (some chunks) facts id = store_get chunks id

unfoldable pub canonical_symbol : FactTable → GoString → Option SymbolFact
unfolding symbol_in
canonical_symbol table id = symbol_in table.symbol_store table.symbols id

facts_in : Option (List Chunk) → List SymbolFact → List SymbolFact
facts_in none facts = facts
facts_in (some chunks) facts = all_rows chunks

-- The facts that rangeSymbolFacts visits.
unfoldable pub symbol_facts : FactTable → List SymbolFact
unfolding facts_in
symbol_facts table = facts_in table.symbol_store table.symbols

-- references[:referencePathEnd(references, path)], and the rest behind it.
unfoldable pub reference_run : GoString → List Location → List Location
reference_run path [] = []
reference_run path (l ∷ rest) = if str_eq l.path path then l ∷ reference_run path rest else []

unfoldable pub behind_run : GoString → List Location → List Location
behind_run path [] = []
behind_run path (l ∷ rest) = if str_eq l.path path then behind_run path rest else l ∷ rest

reference_op : GoString → GoString → List Location → SymbolOp
reference_op id path run = record {
  id = id;
  tag = replace_reference_path;
  fact = no_fact;
  reference_path = path;
  references = run;
}

-- The path that comes next in either list.
next_path : List Location → List Location → Option GoString
next_path [] [] = none
next_path [] (r ∷ next) = some r.path
next_path (l ∷ previous) [] = some l.path
next_path (l ∷ previous) (r ∷ next) = some (if str_lt l.path r.path then l.path else r.path)

run_ops : GoString → GoString → List Location → List Location → List SymbolOp
unfolding reference_op
run_ops id path previous_run next_run =
    if locations_equal previous_run next_run then [] else reference_op id path next_run ∷ []

-- Every path takes a location at least, so the number of locations is fuel enough.
unfoldable pub reference_ops : GoString → ℕ → List Location → List Location → List SymbolOp
unfolding next_path run_ops
reference_ops id zero previous next = []
reference_ops id (suc fuel) previous next = elim (next_path previous next) [
  | none ↦ []
  | some path ↦
      run_ops id path (reference_run path previous) (reference_run path next)
      ++ reference_ops id fuel (behind_run path previous) (behind_run path next)
]

unfoldable pub plan_exact_reference_delta : GoString → List Location → List Location → List SymbolOp
plan_exact_reference_delta id previous next =
    reference_ops id (length previous + length next) previous next

exact_ops : GoString → Option SymbolFact → Option SymbolFact → List SymbolOp
exact_ops id none none = []
exact_ops id (some previous) none = record (remove_op previous) { id = id } ∷ []
exact_ops id none (some next) = record (replace_op next) { id = id } ∷ []
exact_ops id (some previous) (some next) =
    if str_eq previous.alias_target next.alias_target
      && declarations_equal previous.declarations next.declarations
    then plan_exact_reference_delta id previous.references next.references
    else record (replace_op next) { id = id } ∷ []

unfoldable pub symbol_delta_of : FactTable → FactTable → List GoString → List SymbolOp
unfolding exact_ops
symbol_delta_of base target [] = []
symbol_delta_of base target (id ∷ rest) =
    exact_ops id (canonical_symbol base id) (canonical_symbol target id)
    ++ symbol_delta_of base target rest

-- planExactSymbolDelta
unfoldable pub plan_exact_symbol_delta : FactTable → FactTable → TransportChanges → List SymbolOp
plan_exact_symbol_delta base target manifest =
    symbol_delta_of base target (sort_paths manifest.symbol_ids)
