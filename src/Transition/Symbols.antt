-- ===== src/Transition/Symbols.antt =====
-- Symbol operations of internal/typefacts/wire_transition_rows.go, and the walk over two tables'
-- symbols that plans them.
pub mod Delta
pub mod Walk
pub mod Plan
use solid_ts_facts.Prelude.{
  ℕ, zero, suc, ◌+◌, ◌*◌, ◌%◌, ◌^◌, bit_or, Bool, true, false, not, ◌&&◌, List, [], ◌∷◌, ◌++◌, ◌==◌,
  if◌then◌else◌, length, Result, ok, err, ◌>>=◌,
}
use solid_ts_facts.Keys.{GoString, str_eq, str_lt}
use solid_ts_facts.Model.{Location}
use solid_ts_facts.Transition.Codes.{
  RowError, empty_path, path_mismatch, empty_id, bad_symbol_tag, full_tag, id_mismatch,
}
use solid_ts_facts.Transition.Facts.{Declaration, SymbolFact}
use solid_ts_facts.Transition.Rows.{Written, refuse_if, is_empty, validate_location}
use solid_ts_facts.Transition.Writer.{Draft, put, text, internal_locations, internal_declarations}
use solid_ts_facts.Wire.Strings.{intern}

pub data SymbolOpTag : Type 0 where
  replace_symbol : SymbolOpTag
  remove_symbol : SymbolOpTag
  replace_reference_path : SymbolOpTag
  other_tag : ℕ → SymbolOpTag

-- `fact` is read for a replaced symbol only, and the last two fields for a reference path only.
pub record SymbolOp : Type 0 where
  pub id : GoString
  pub tag : SymbolOpTag
  pub fact : SymbolFact
  pub reference_path : GoString
  pub references : List Location

unfoldable pub tag_code : SymbolOpTag → Result RowError ℕ
tag_code replace_symbol = ok 0
tag_code remove_symbol = ok 1
tag_code replace_reference_path = ok 2
tag_code (other_tag n) = err bad_symbol_tag

validate_references : GoString → List Location → Result RowError (Unit {0})
unfolding refuse_if validate_location
validate_references path [] = ok tt
validate_references path (reference ∷ rest) = do
  _ ← refuse_if (not (str_eq reference.path path)) path_mismatch
  _ ← validate_location reference
  validate_references path rest

write_symbol : Draft → SymbolOp → Written
unfolding refuse_if text internal_declarations internal_locations is_empty put
write_symbol d operation = do
  _ ← refuse_if (not (str_eq operation.fact.id operation.id)) id_mismatch
  let declared =
      internal_declarations (text d operation.fact.alias_target) operation.fact.declarations
  ok (
      if is_empty operation.fact.alias_target
      then internal_locations declared operation.fact.references
      else put declared 0)

write_reference_path : Draft → SymbolOp → Written
unfolding refuse_if is_empty validate_references text internal_locations
write_reference_path d operation = do
  _ ← refuse_if (is_empty operation.reference_path) empty_path
  _ ← validate_references operation.reference_path operation.references
  ok (internal_locations (text d operation.reference_path) operation.references)

write_tagged : Draft → SymbolOp → SymbolOpTag → Written
unfolding write_symbol write_reference_path
write_tagged d operation replace_symbol = write_symbol d operation
write_tagged d operation remove_symbol = ok d
write_tagged d operation replace_reference_path = write_reference_path d operation
write_tagged d operation (other_tag n) = err bad_symbol_tag

-- In a full transition an operation is written without its tag, which has to be that of a replaced
-- symbol.
unfoldable pub write_symbol_op : Draft → Bool → SymbolOp → Written
unfolding refuse_if is_empty tag_code put write_tagged
write_symbol_op d full operation = do
  _ ← refuse_if (is_empty operation.id) empty_id
  code ← tag_code operation.tag
  let (index, dict) = intern d.dict operation.id
  let interned : Draft = record d { dict = dict }
  _ ← refuse_if (full && not (code == 0)) full_tag
  write_tagged (put interned (if full then index else bit_or (index * 4 % 2 ^ 64) code)) operation
      operation.tag

unfoldable pub locations_equal : List Location → List Location → Bool
locations_equal [] [] = true
locations_equal [] (m ∷ right) = false
locations_equal (l ∷ left) [] = false
locations_equal (l ∷ left) (m ∷ right) =
    str_eq l.path m.path
    && l.start_byte == m.start_byte
    && l.end_byte == m.end_byte
    && locations_equal left right

unfoldable pub declarations_equal : List Declaration → List Declaration → Bool
declarations_equal [] [] = true
declarations_equal [] (m ∷ right) = false
declarations_equal (l ∷ left) [] = false
declarations_equal (l ∷ left) (m ∷ right) =
    str_eq l.name m.name
    && str_eq l.kind m.kind
    && str_eq l.location.path m.location.path
    && l.location.start_byte == m.location.start_byte
    && l.location.end_byte == m.location.end_byte
    && declarations_equal left right

unfoldable pub symbol_fact_equal : SymbolFact → SymbolFact → Bool
unfolding declarations_equal locations_equal
symbol_fact_equal left right =
    str_eq left.id right.id
    && str_eq left.alias_target right.alias_target
    && declarations_equal left.declarations right.declarations
    && locations_equal left.references right.references

abbrev pub no_fact : SymbolFact
no_fact = record { id = []; alias_target = []; declarations = []; references = [] }

unfoldable pub replace_op : SymbolFact → SymbolOp
replace_op fact = record {
  id = fact.id;
  tag = replace_symbol;
  fact = fact;
  reference_path = [];
  references = [];
}

unfoldable pub remove_op : SymbolFact → SymbolOp
remove_op fact = record {
  id = fact.id;
  tag = remove_symbol;
  fact = no_fact;
  reference_path = [];
  references = [];
}

-- One chunk of a symbol store. Two chunks at the same address are one slice.
pub record Chunk : Type 0 where
  pub address : ℕ
  pub rows : List SymbolFact

-- A place in a store's chunks: the rows of its chunk from `row` on, and the chunks behind it. No
-- rows are left where the source's cursor is not valid.
pub record Cursor : Type 0 where
  pub row : ℕ
  pub address : ℕ
  pub rows : List SymbolFact
  pub later : List Chunk

unfoldable pub new_cursor : List Chunk → Cursor
new_cursor [] = record { row = 0; address = 0; rows = []; later = [] }
new_cursor (chunk ∷ later) = record {
  row = 0;
  address = chunk.address;
  rows = chunk.rows;
  later = later;
}

after_row : Cursor → List SymbolFact → Cursor
unfolding new_cursor
after_row c [] = new_cursor c.later
after_row c (fact ∷ rest) = record c { row = suc c.row; rows = fact ∷ rest }

next_rows : Cursor → List SymbolFact → Cursor
unfolding after_row
next_rows c [] = c
next_rows c (fact ∷ rest) = after_row c rest

unfoldable pub next_cursor : Cursor → Cursor
unfolding next_rows
next_cursor c = next_rows c c.rows

-- left.row == 0 && right.row == 0, and both chunks are the same slice.
unfoldable pub is_shared : Cursor → Cursor → Bool
is_shared left right =
    left.row == 0
    && right.row == 0
    && length left.rows == length right.rows
    && left.address == right.address

-- One turn of the walk: where it goes, with the operations that it adds.
pub data Turn : Type 0 where
  finished : Turn
  moved : List SymbolOp → Cursor → Cursor → Turn

compare_facts : Cursor → Cursor → SymbolFact → SymbolFact → Turn
unfolding next_cursor remove_op replace_op symbol_fact_equal
compare_facts left right previous next =
    if str_lt previous.id next.id
    then moved (remove_op previous ∷ []) (next_cursor left) right
    else if str_lt next.id previous.id
    then moved (replace_op next ∷ []) left (next_cursor right)
    else moved (if symbol_fact_equal previous next then [] else replace_op next ∷ [])
        (next_cursor left) (next_cursor right)

turn_rows : Cursor → Cursor → List SymbolFact → List SymbolFact → Turn
unfolding compare_facts is_shared new_cursor next_cursor remove_op replace_op
turn_rows left right [] [] = finished
turn_rows left right (fact ∷ rest) [] = moved (remove_op fact ∷ []) (next_cursor left) right
turn_rows left right [] (fact ∷ rest) = moved (replace_op fact ∷ []) left (next_cursor right)
turn_rows left right (previous ∷ ps) (next ∷ ns) =
    if is_shared left right
    then moved [] (new_cursor left.later) (new_cursor right.later)
    else compare_facts left right previous next

unfoldable pub turn : Cursor → Cursor → Turn
unfolding turn_rows
turn left right = turn_rows left right left.rows right.rows

-- Every turn takes a row at least, so the number of rows is fuel enough.
unfoldable pub symbol_ops : ℕ → Cursor → Cursor → List SymbolOp
unfolding turn
symbol_ops zero left right = []
symbol_ops (suc fuel) left right = elim (turn left right) [
  | finished ↦ []
  | moved ops next_left next_right ↦ ops ++ symbol_ops fuel next_left next_right
]

unfoldable pub row_count : List Chunk → ℕ
row_count [] = 0
row_count (chunk ∷ later) = length chunk.rows + row_count later

unfoldable pub plan_fallback_symbol_delta : List Chunk → List Chunk → List SymbolOp
unfolding symbol_ops new_cursor row_count
plan_fallback_symbol_delta base target =
    symbol_ops (suc (row_count base + row_count target)) (new_cursor base) (new_cursor target)
