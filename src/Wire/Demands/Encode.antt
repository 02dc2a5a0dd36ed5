-- ===== src/Wire/Demands/Encode.antt =====
-- What one encoded row decodes to.
use solid_ts_facts.Prelude.{
  ℕ, ◌+◌, ◌*◌, ◌/◌, ◌≤◌, ◌≡◌, true, false, Option, none, some, List, ◌++◌, arith, ok, IsWord,
  IsNonNegative, sub64, add64-sub64, sub64-IsWord, append_assoc, subst, le→ltb,
}
use solid_ts_facts.Prelude.Bits.{bit_or-double_one, bit_and-pow}
use solid_ts_facts.Keys.{GoString}
use solid_ts_facts.Model.{Location, EntityDemand}
use solid_ts_facts.Wire.Varint.{uvarint_bytes, append_uvarint, take-append_uvarint}
use solid_ts_facts.Wire.Strings.{lookup}
use solid_ts_facts.Wire.Flags.{
  demand_flags, demand_of_flags, has_flag, demand_flags-lt, demand_of_flags-demand_flags,
}
use solid_ts_facts.Wire.Demands.{
  row_header, append_row, append_query, take_number, lookup_string, take_query, expand_row,
}

-- A location whose offsets an `int` and a `uint64` agree on, in order.
pub record IsSpan (l : Location) : Type 0 where
  pub ordered : l.start_byte ≤ l.end_byte
  pub bounded : IsNonNegative l.end_byte

-- The numbers of a row in front of any further bytes.
abbrev pub row_bytes : EntityDemand → ℕ → List ℕ → List ℕ
row_bytes d previous more =
    uvarint_bytes 10 (row_header d)
    ++ (uvarint_bytes 10 (sub64 d.location.start_byte previous)
        ++ (uvarint_bytes 10 (sub64 d.location.end_byte d.location.start_byte) ++ more))

abbrev pub query_bytes : ℕ → Location → List ℕ → List ℕ
query_bytes path query more =
    uvarint_bytes 10 path
    ++ (uvarint_bytes 10 query.start_byte
        ++ (uvarint_bytes 10 (sub64 query.end_byte query.start_byte) ++ more))

pub append_row-row_bytes :
    (bytes : List ℕ) (d : EntityDemand) (previous : ℕ) (more : List ℕ)
    → append_row bytes d previous ++ more ≡ bytes ++ row_bytes d previous more
unfolding append_row append_uvarint
append_row-row_bytes bytes d previous more = simp append_assoc

pub append_query-query_bytes :
    (bytes : List ℕ) (path : ℕ) (query : Location) (more : List ℕ)
    → append_query bytes path query ++ more ≡ bytes ++ query_bytes path query more
unfolding append_query append_uvarint
append_query-query_bytes bytes path query more = simp append_assoc

take_number_written :
    (v : ℕ) (rest : List ℕ) → IsWord v → take_number (uvarint_bytes 10 v ++ rest) ≡ ok (v, rest)
unfolding take_number
take_number_written v rest h = rw (take-append_uvarint v rest h, take_number)

has_flag-even : (a : ℕ) → has_flag (a * 2) 0 ≡ false
unfolding has_flag
has_flag-even a = ground (arith, bit_and-pow 0 (a * 2))

has_flag-odd : (a : ℕ) → has_flag (a * 2 + 1) 0 ≡ true
unfolding has_flag
has_flag-odd a = ground (arith, bit_and-pow 0 (a * 2 + 1))

row_header-none : (d : EntityDemand) → d.query_location ≡ none → row_header d ≡ demand_flags d * 2
unfolding row_header
row_header-none d e = ground (arith, demand_flags-lt d)

row_header-some :
    (d : EntityDemand) (query : Location)
    → d.query_location ≡ some query
    → row_header d ≡ demand_flags d * 2 + 1
unfolding row_header
row_header-some d query e = ground (arith, demand_flags-lt d, bit_or-double_one (demand_flags d))

-- A query location reads back, given that its path's index does.
take_query_written :
    (strings : List GoString) (path : ℕ) (query : Location) (rest : List ℕ)
    → IsSpan query
    → IsWord path
    → lookup strings path ≡ some query.path
    → take_query strings (query_bytes path query rest) ≡ ok (query, rest)
unfolding take_query lookup_string
take_query_written strings path query rest span word known =
    rw
      (
        take_number_written path _ word,
        take_number_written query.start_byte _ (omega arith),
        take_number_written (sub64 query.end_byte query.start_byte) rest (sub64-IsWord _ _),
        add64-sub64 query.end_byte query.start_byte (omega arith) (omega arith),
        lookup_string,
        known,
      )
      (ground arith)

decoded :
    (d : EntityDemand) (query : Option Location)
    → d.query_location ≡ query
    → demand_of_flags d.location (demand_flags d) query ≡ d
decoded d query e =
    subst (λ t. demand_of_flags d.location (demand_flags d) t ≡ d) e
      (demand_of_flags-demand_flags d d.location d.query_location)

half_even : (a : ℕ) → a * 2 / 2 ≡ a
half_even a = omega arith

half_odd : (a : ℕ) → (a * 2 + 1) / 2 ≡ a
half_odd a = omega arith

module _ (strings : List GoString) (previous : ℕ) (d : EntityDemand) (span : IsSpan d.location)
    (after : previous ≤ d.location.start_byte) where
  -- A row decodes to the demand that it encodes, in front of any further bytes.
  pub row_without_query :
      (rest : List ℕ)
      → d.query_location ≡ none
      → expand_row strings d.location.path previous (row_bytes d previous rest) ≡ ok (d, rest)
  unfolding expand_row
  row_without_query rest e = rw (
    row_header-none d e,
    take_number_written (demand_flags d * 2) _ (omega (arith, demand_flags-lt d)),
    take_number_written (sub64 d.location.start_byte previous) _ (sub64-IsWord _ _),
    take_number_written (sub64 d.location.end_byte d.location.start_byte) rest (sub64-IsWord _ _),
    add64-sub64 d.location.start_byte previous (omega arith) (omega arith),
    add64-sub64 d.location.end_byte d.location.start_byte (omega arith) (omega arith),
    le→ltb d.location.start_byte previous after,
    le→ltb d.location.end_byte d.location.start_byte span.ordered,
    has_flag-even (demand_flags d),
    half_even (demand_flags d),
    decoded d none e,
  )

  pub row_with_query :
      (path : ℕ) (query : Location) (rest : List ℕ)
      → d.query_location ≡ some query
      → IsSpan query
      → IsWord path
      → lookup strings path ≡ some query.path
      → expand_row strings d.location.path previous
          (row_bytes d previous (query_bytes path query rest))
        ≡ ok (d, rest)
  unfolding expand_row
  row_with_query path query rest e query_span word known = rw (
    row_header-some d query e,
    take_number_written (demand_flags d * 2 + 1) _ (omega (arith, demand_flags-lt d)),
    take_number_written (sub64 d.location.start_byte previous) _ (sub64-IsWord _ _),
    take_number_written (sub64 d.location.end_byte d.location.start_byte) _ (sub64-IsWord _ _),
    add64-sub64 d.location.start_byte previous (omega arith) (omega arith),
    add64-sub64 d.location.end_byte d.location.start_byte (omega arith) (omega arith),
    le→ltb d.location.start_byte previous after,
    le→ltb d.location.end_byte d.location.start_byte span.ordered,
    has_flag-odd (demand_flags d),
    half_odd (demand_flags d),
    take_query_written strings path query rest query_span word known,
    decoded d (some query) e,
  )
