-- ===== src/Wire/Demands.antt =====
-- `CompactDemandsV3From` and `Expand` of protocolv3_compact.go, with `demandShape`.
pub mod Encode
pub mod Shape
pub mod Rows
pub mod Frames
pub mod Opening
pub mod RoundTrip
pub mod Select
use solid_ts_facts.Prelude.{
  ℕ, zero, suc, ◌+◌, ◌*◌, ◌/◌, ◌%◌, ◌^◌, Bool, true, false, not, ◌||◌, Option, none, some, List, [],
  ◌∷◌, ◌++◌, ltb, ◌==◌, if◌then◌else◌, bit_or, length, Result, ok, err, ◌>>=◌, add64, sub64, int_lt,
}
use solid_ts_facts.Keys.{GoString}
use solid_ts_facts.Model.{Location, EntityDemand, CompactDemandGroup, CompactDemands}
use solid_ts_facts.Wire.Varint.{
  Taken, took, truncated, overflowing, append_uvarint, take_compact_uvarint,
}
use solid_ts_facts.Wire.Strings.{StringTable, new_string_table, intern, lookup}
use solid_ts_facts.Wire.Flags.{demand_flags, demand_of_flags, has_flag}

-- The encoder's loop state. The last group, which rows are appended to, stands apart.
pub record Encoder : Type 0 where
  pub strings : StringTable
  pub closed : List CompactDemandGroup
  pub last : Option CompactDemandGroup
  pub previous_start : ℕ

unfoldable pub encoder_groups : Encoder → List CompactDemandGroup
encoder_groups e = elim e.last [ none ↦ e.closed | some group ↦ e.closed ++ (group ∷ []) ]

-- len(compact.Groups) == 0 || last.Path != path || demand.Location.StartByte < previousStart
unfoldable pub opens_group : Encoder → ℕ → ℕ → Bool
opens_group e path start = elim e.last [
  | none ↦ true
  | some group ↦ not (group.path == path) || int_lt start e.previous_start
]

-- flags << 1, with bit 0 for a query location.
unfoldable pub row_header : EntityDemand → ℕ
row_header d =
    let header = demand_flags d * 2 % 2 ^ 64 in
    elim d.query_location [ none ↦ header | some query ↦ bit_or header 1 ]

-- The three numbers of every row, appended to the group's bytes.
unfoldable pub append_row : List ℕ → EntityDemand → ℕ → List ℕ
append_row bytes d previous =
    append_uvarint
      (append_uvarint (append_uvarint bytes (row_header d)) (sub64 d.location.start_byte previous))
      (sub64 d.location.end_byte d.location.start_byte)

unfoldable pub append_query : List ℕ → ℕ → Location → List ℕ
append_query bytes path query =
    append_uvarint (append_uvarint (append_uvarint bytes path) query.start_byte)
      (sub64 query.end_byte query.start_byte)

-- Open a new group where one is due; the start offsets of a group begin at 0.
unfoldable pub open_group : Encoder → ℕ → ℕ → CompactDemandGroup × Encoder
open_group e path start =
    let fresh : CompactDemandGroup = record { path = path; demands = [] } in
    elim e.last [
      | none ↦ (fresh, record e { previous_start = 0 })
      | some group ↦
          if opens_group e path start
          then (fresh, record e { closed = e.closed ++ (group ∷ []); previous_start = 0 })
          else (group, e)
    ]

unfoldable pub finish_row : Encoder → CompactDemandGroup → EntityDemand → Option Location → Encoder
finish_row e group d none = record e {
  last = some (record group { demands = append_row group.demands d e.previous_start });
  previous_start = d.location.start_byte;
}
finish_row e group d (some query) =
    let (path, strings) = intern e.strings query.path in
    record e {
      strings = strings;
      last = some (record group {
        demands = append_query (append_row group.demands d e.previous_start) path query;
      });
      previous_start = d.location.start_byte;
    }

unfoldable pub encode_demand : Encoder → EntityDemand → Encoder
encode_demand e d =
    let (path, strings) = intern e.strings d.location.path in
    let (group, opened) = open_group (record e { strings = strings }) path d.location.start_byte in
    finish_row opened group d d.query_location

unfoldable pub encode_demands : Encoder → List EntityDemand → Encoder
encode_demands e [] = e
encode_demands e (d ∷ rest) = encode_demands (encode_demand e d) rest

unfoldable pub new_encoder : Encoder
new_encoder = record { strings = new_string_table; closed = []; last = none; previous_start = 0 }

unfoldable pub compact_demands_from : List EntityDemand → CompactDemands
compact_demands_from demands =
    let e = encode_demands new_encoder demands in
    record { groups = encoder_groups e; strings = e.strings.values }

-- `out_of_fuel` is no error of the source: the row loop is bounded by the bytes that it reads.
pub data ExpandError : Type 0 where
  truncated_varint : ExpandError
  overflowing_varint : ExpandError
  location_overflow : ExpandError
  query_location_overflow : ExpandError
  index_out_of_range : ℕ → ExpandError
  out_of_fuel : ExpandError

abbrev pub Expanded : Type 0 → Type 0
Expanded A = Result ExpandError A

-- takeCompactUvarint, with its two errors.
unfoldable pub take_number : List ℕ → Expanded (ℕ × List ℕ)
take_number input = elim (take_compact_uvarint input) [
  | took v rest ↦ ok (v, rest)
  | truncated ↦ err truncated_varint
  | overflowing ↦ err overflowing_varint
]

unfoldable pub lookup_string : List GoString → ℕ → Expanded GoString
lookup_string strings index = elim (lookup strings index) [
  | none ↦ err (index_out_of_range index)
  | some text ↦ ok text
]

unfoldable pub take_query : List GoString → List ℕ → Expanded (Location × List ℕ)
take_query strings input = do
  (path_index, next) ← take_number input
  (start, next) ← take_number next
  (len, next) ← take_number next
  if ltb (add64 start len) start then err query_location_overflow else do
    path ← lookup_string strings path_index
    ok (record { path = path; start_byte = start; end_byte = add64 start len }, next)

-- One row: the demand and the bytes behind it. Its start is the next row's `previousStart`.
unfoldable pub expand_row : List GoString → GoString → ℕ → List ℕ → Expanded (EntityDemand × List ℕ)
expand_row strings path previous packed = do
  (header, rest) ← take_number packed
  (start_delta, rest) ← take_number rest
  (len, rest) ← take_number rest
  let start = add64 previous start_delta
  if ltb start previous || ltb (add64 start len) start then err location_overflow else do
    let location : Location = record { path = path; start_byte = start; end_byte = add64 start len }
    let flags = header / 2
    if has_flag header 0
        then (do
          (query, rest) ← take_query strings rest
          ok (demand_of_flags location flags (some query), rest))
        else ok (demand_of_flags location flags none, rest)

unfoldable pub expand_rows :
    List GoString → GoString → ℕ → ℕ → List ℕ → Expanded (List EntityDemand)
expand_rows strings path fuel previous [] = ok []
expand_rows strings path zero previous (b ∷ packed) = err out_of_fuel
expand_rows strings path (suc fuel) previous (b ∷ packed) = do
  (d, rest) ← expand_row strings path previous (b ∷ packed)
  rows ← expand_rows strings path fuel d.location.start_byte rest
  ok (d ∷ rows)

-- Every row takes bytes, so as many rounds as there are bytes are enough.
unfoldable pub expand_group : List GoString → CompactDemandGroup → Expanded (List EntityDemand)
unfolding expand_rows
expand_group strings group = do
  path ← lookup_string strings group.path
  expand_rows strings path (length group.demands) 0 group.demands

unfoldable pub expand_groups :
    List GoString → List CompactDemandGroup → Expanded (List EntityDemand)
expand_groups strings [] = ok []
expand_groups strings (group ∷ rest) = do
  rows ← expand_group strings group
  others ← expand_groups strings rest
  ok (rows ++ others)

-- `for range count { _, rest, err = takeCompactUvarint(rest) }`
unfoldable pub skip_numbers : ℕ → List ℕ → Expanded (List ℕ)
skip_numbers zero input = ok input
skip_numbers (suc count) input = do (_, rest) ← take_number input; skip_numbers count rest

-- demandShape's step over one row: whether it has a query location, and the bytes behind it.
unfoldable pub row_shape : List ℕ → Expanded (Bool × List ℕ)
unfolding skip_numbers
row_shape packed = do
  (header, rest) ← take_number packed
  rest ← skip_numbers 2 rest
  if has_flag header 0 then (do rest ← skip_numbers 3 rest; ok (true, rest)) else ok (false, rest)

-- demandCount and queryCount.
unfoldable pub rows_shape : ℕ → List ℕ → ℕ → ℕ → Expanded (ℕ × ℕ)
rows_shape fuel [] demand_count query_count = ok (demand_count, query_count)
rows_shape zero (b ∷ packed) demand_count query_count = err out_of_fuel
rows_shape (suc fuel) (b ∷ packed) demand_count query_count = do
  (has_query, rest) ← row_shape (b ∷ packed)
  rows_shape fuel rest (demand_count + 1) (if has_query then query_count + 1 else query_count)

unfoldable pub groups_shape : List CompactDemandGroup → ℕ → ℕ → Expanded (ℕ × ℕ)
unfolding rows_shape
groups_shape [] demand_count query_count = ok (demand_count, query_count)
groups_shape (group ∷ rest) demand_count query_count = do
  (demand_count, query_count) ←
      rows_shape (length group.demands) group.demands demand_count query_count
  groups_shape rest demand_count query_count

unfoldable pub demand_shape : CompactDemands → Expanded (ℕ × ℕ)
unfolding groups_shape
demand_shape compact = groups_shape compact.groups 0 0

-- The shape is checked first; its counts size the result and the arena of query locations.
unfoldable pub expand : CompactDemands → Expanded (List EntityDemand)
unfolding demand_shape expand_groups
expand compact = do _ ← demand_shape compact; expand_groups compact.strings compact.groups
