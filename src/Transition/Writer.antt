-- ===== src/Transition/Writer.antt =====
-- `packedWriter` of internal/typefacts/wire_transition_codec.go. The calls of `u64` and `raw` are
-- the pieces of a draft, in order, with the dictionary that `text` interns into; the buffer that
-- hands pieces on in chunks does not reach either, and is a machine of its own over the pieces.
pub mod Streaming
pub mod Dictionary
use solid_ts_facts.Prelude.{
  ℕ, ◌-◌, ◌*◌, ◌%◌, ◌^◌, Option, none, some, List, [], ◌∷◌, ◌++◌, ltb, ◌==◌, if◌then◌else◌, length,
  sub64,
}
use solid_ts_facts.Keys.{GoString}
use solid_ts_facts.Model.{Location}
use solid_ts_facts.Transition.Codes.{bool_bit}
use solid_ts_facts.Transition.Facts.{
  Declaration, TypeDescriptor, SourceCall, DeclarationOwner, ResolvedDeclaration,
}
use solid_ts_facts.Wire.Strings.{StringTable, wire_text, intern}
use solid_ts_facts.Wire.Varint.{uvarint_bytes}

pub record Draft : Type 0 where
  pub pieces : List (List ℕ)
  pub dict : StringTable

unfoldable pub raw : Draft → List ℕ → Draft
raw d value = record d { pieces = d.pieces ++ (value ∷ []) }

unfoldable pub put : Draft → ℕ → Draft
unfolding raw
put d value = raw d (uvarint_bytes 10 value)

-- uint64(value<<1) ^ uint64(value>>63), on the pattern of an int64.
unfoldable pub zigzag : ℕ → ℕ
zigzag value = if ltb value (2 ^ 63) then value * 2 else 2 ^ 65 - 1 - value * 2

unfoldable pub signed : Draft → ℕ → Draft
unfolding zigzag put
signed d value = put d (zigzag value)

unfoldable pub text : Draft → GoString → Draft
unfolding put
text d value = let (index, dict) = intern d.dict value in put (record d { dict = dict }) index

abbrev pub LocationState : Type 0
LocationState = Option (ℕ × ℕ)

-- state.valid && state.path == path
same_path : LocationState → ℕ → Option ℕ
same_path none path = none
same_path (some (previous, start)) path = if previous == path then some start else none

unfoldable pub internal_location : Draft → Location → LocationState → Draft × LocationState
unfolding same_path put signed
internal_location d location state =
    let (path, dict) = intern d.dict location.path in
    let interned = record d { dict = dict } in
    let headed : Draft = elim (same_path state path) [
      | some start ↦ signed (put interned 1) (sub64 location.start_byte start)
      | none ↦ put (put interned (path * 2 % 2 ^ 64)) location.start_byte
    ] in
    (put headed (sub64 location.end_byte location.start_byte), some (path, location.start_byte))

location_rows : Draft → List Location → LocationState → Draft
location_rows d [] state = d
location_rows d (location ∷ rest) state =
    let (next, after) = internal_location d location state in location_rows next rest after

unfoldable pub internal_locations : Draft → List Location → Draft
unfolding location_rows put
internal_locations d locations = location_rows (put d (length locations)) locations none

-- "\xfe" in front becomes "__"; invalid UTF-8 is replaced.
unescaped : GoString → GoString
unescaped [] = []
unescaped (b ∷ rest) = if b == 0xfe then 0x5f ∷ 0x5f ∷ rest else b ∷ rest

unfoldable pub wire_symbol_name : GoString → GoString
unfolding unescaped wire_text
wire_symbol_name name = wire_text (unescaped name)

declaration_rows : Draft → List Declaration → LocationState → Draft
unfolding text internal_location wire_symbol_name
declaration_rows d [] state = d
declaration_rows d (declaration ∷ rest) state =
    let named = text (text d (wire_symbol_name declaration.name)) declaration.kind in
    let (next, after) = internal_location named declaration.location state in
    declaration_rows next rest after

unfoldable pub internal_declarations : Draft → List Declaration → Draft
unfolding declaration_rows put
internal_declarations d declarations =
    declaration_rows (put d (length declarations)) declarations none

unfoldable pub internal_type_descriptor : Draft → TypeDescriptor → Draft
unfolding text internal_declarations
internal_type_descriptor d descriptor =
    internal_declarations (text (text d descriptor.text) descriptor.origin_module)
      descriptor.alias_declarations

owner_rows : Draft → List DeclarationOwner → LocationState → Draft
unfolding text internal_location wire_symbol_name
owner_rows d [] state = d
owner_rows d (owner ∷ rest) state =
    let named = text (text (text d owner.symbol) (wire_symbol_name owner.name)) owner.kind in
    let (next, after) = internal_location named owner.location state in owner_rows next rest after

unfoldable pub internal_resolved_declaration : Draft → ResolvedDeclaration → Draft
unfolding text internal_location wire_symbol_name owner_rows put bool_bit
internal_resolved_declaration d declaration =
    let named =
      text (text (text d declaration.symbol) (wire_symbol_name declaration.name))
        declaration.kind in
    let (located, state) = internal_location named declaration.location none in
    let owned = owner_rows (put located (length declaration.owners)) declaration.owners state in
    put
      (text (text (text owned declaration.qualified_name) declaration.origin_module)
        declaration.source_file)
      (bool_bit declaration.standard_library)

unfoldable pub internal_source_call : Draft → SourceCall → Draft
unfolding text internal_location internal_locations
internal_source_call d call =
    let (located, state) = internal_location d call.location none in
    let (called, after) = internal_location located call.callee state in
    text (internal_locations called call.arguments) call.target
