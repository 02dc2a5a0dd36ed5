-- ===== src/Lib.antt =====
-- Solid TypeFacts: the demand and transition protocol of the Go producer in internal/typefacts.
--
-- A client sends demands, each a source location with the facts that it asks for. The session keeps
-- them grouped by path, answers them through the compiler, and sends the difference between two
-- fact tables back as a packed transition. This development models the parts between the compiler
-- and the wire that decide what is kept and what is sent.
--
--   Prelude         shared names, Boolean tests, lists, 64-bit words, results and bit laws
--   Keys            Go strings as bytes, their order, sort.Search, rows in key order and their edits,
--                   and the UTF-8 and path cleaning of Go's library
--   Model, Wire     internal/typefacts/protocolv3_compact.go: the varints, `stringTableV3`, the
--                   demand flags, `CompactDemandsV3From`, `Expand`, `demandShape` and
--                   `appendCompactDemandsWithFlag`
--   Session         internal/typefacts/protocolv3.go: requests, replies and their validation (Requests);
--                   session_demands.go: `retainedDemandStore` and its transactions (DemandStore), with
--                   `sessionChangedDemandRuns` and semantic_demand.go's `canonicalDemandRun` in Runs, and
--                   `at` with semantic_retained.go's `ensureExpanded` in Expanded;
--                   session.go: `Session` (State), `strconv.FormatUint` for its tokens (Decimal), the
--                   analysis (Analyze), the evidence (Evidence) and `lifecycle` (Lifecycle);
--                   symbol_intern.go: handles, sets of handles and the changed symbol set (Interner)
--   Transition      internal/typefacts/typefacts.go and model.go (Facts), wire_transition_rows.go
--                   (Codes, Rows, Entities, Paths, Symbols), wire_transition_codec.go (Writer, with the
--                   flush buffer in Streaming and the dictionary in Dictionary), facttable_equal.go
--                   (Tags, Equal), wire_transition_diff.go with the lookups of symbol_store.go and
--                   transport_manifest.go (Tables, PathPlan, TablePaths, ExactSymbols, and the fallback
--                   symbol delta in Symbols, with its moves in Delta and Walk), and
--                   wire_transition.go (Encoder)
--   Tests           runs on concrete data
--
-- A session calls the closure, the transition encoder and the arena only through the record `Services`,
-- whose functions take and give a world that the model does not look into; a call's failure is none.
-- A request's context says, at each of the points where the code looks, whether it was cancelled by
-- then; a cancellation may come at any moment, so the points are not tied to each other.
-- What the session sees is a sequence of requests and closings (`Reaches`), since the protocol adapter
-- dispatches calls one by one.
--
-- A Go `int` and a `uint64` are their 64-bit patterns, with the wrap-around of sums and differences
-- written out; a float64 is its bit pattern. A Go string is the list of its bytes. A pointer is an
-- Option, a slice a List, and a map an association list with its newest entry first. An error is a
-- constructor of the model's error types; what its message prints is left out. Rows that are refused
-- give no draft, since the caller gives the transition up. Where Go compares the addresses of two
-- slices, the answer is a parameter `shared`. sort.Slice leaves the order of equal keys open; the
-- model keeps the order that they had. Timings are left out.
--
-- Bounds and fuel. Ten groups of seven bits hold every 64-bit varint. The row loops of `Expand` and
-- `demandShape` have the run's length as fuel, and every row takes bytes. The walk over two symbol
-- stores has the number of their rows as fuel, and every turn takes a row; so do the walks over the
-- paths of one table, of two tables, and over the runs of references. The digits of a number have the
-- number as fuel, since a tenth of it is less. The round trip of demands bounds their number by
-- 2 ^ 62, so that string indexes are 64-bit words.
--
-- Not modelled: the compiler adapter in internal/typefacts/tsgo and the shims, which call a compiler
-- that is not in the repository; the CBOR transport and the commands; tracing; and the symbol
-- closure, the retained contributions and the symbol store's patches.
-- The Rust client is not modelled; where a result speaks of a reader, the reader is defined beside it.
pub mod Prelude
pub mod Keys
pub mod Model
pub mod Wire
pub mod Session
pub mod Transition
pub mod Tests
