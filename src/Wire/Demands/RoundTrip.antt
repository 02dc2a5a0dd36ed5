-- ===== src/Wire/Demands/RoundTrip.antt =====
-- `Expand` after `CompactDemandsV3From`.
use solid_ts_facts.Prelude.{
  ℕ, zero, suc, ◌*◌, ◌^◌, ◌<◌, ◌≡◌, refl, sym, ap, ◌∙◌, subst, inl, inr, Option, none, some, List,
  [], ◌∷◌, ◌++◌, append_assoc, append-nil, arith, Bool-cases, length, All, IsWord, ok,
}
use solid_ts_facts.Keys.{GoString}
use solid_ts_facts.Model.{Location, EntityDemand, CompactDemandGroup}
use solid_ts_facts.Wire.Demands.{
  Encoder, opens_group, append_row, open_group, finish_row, encode_demand, encode_demands,
  new_encoder, compact_demands_from, expand_groups, expand,
}
use solid_ts_facts.Wire.Demands.Encode.{IsSpan}
use solid_ts_facts.Wire.Demands.Frames.{Decodes, Decodes-append_row, Decodes-append_query}
use solid_ts_facts.Wire.Demands.Opening.{
  QueryIsEncodable, IsEncodable, wire_text-valid_string, Encodes, Opened, close_last,
  open_group-Opened,
}
use solid_ts_facts.Wire.Demands.Shape.{demand_shape-expand_groups}
use solid_ts_facts.Wire.Strings.{StringTable, new_string_table, intern, lookup}
use solid_ts_facts.Wire.Strings.Laws.{
  IsTable, Extends, new_string_table-IsTable, lookup-intern, Grows, intern-Grows, Grows-trans,
  Grows-refl,
}

lookup-lt : (xs : List GoString) (i : ℕ) (a : GoString) → lookup xs i ≡ some a → i < length xs
unfolding lookup
lookup-lt [] i a h = cc
lookup-lt (x ∷ xs) zero a h = omega arith
lookup-lt (x ∷ xs) (suc i) a h = omega (arith, lookup-lt xs i a h)

-- A row joins the last group, whatever bytes it took.
module _ (u : StringTable) (e : Encoder) (group : CompactDemandGroup) (d : EntityDemand)
    (done : List EntityDemand) (o : Opened u e group d.location.path d.location.start_byte done)
    (span : IsSpan d.location) where
  row_joins :
      (strings : StringTable) (bytes : List ℕ)
      → Decodes u.values d.location.path bytes d.location.start_byte (o.last_rows ++ (d ∷ []))
      → Encodes u
          (record e {
            strings = strings;
            last = some (record group { demands = bytes });
            previous_start = d.location.start_byte;
          })
          (done ++ (d ∷ []))
  row_joins strings bytes decodes = record {
    closed_rows = o.closed_rows;
    last_rows = o.last_rows ++ (d ∷ []);
    split =
        ap (λ (l : List EntityDemand). l ++ (d ∷ [])) o.split
        ∙ append_assoc o.closed_rows o.last_rows (d ∷ []);
    closed = o.closed;
    open_rows = (d.location.path, o.known, omega (arith, span.ordered, span.bounded), decodes);
  }

  finish_row-Encodes :
      (query : Option Location)
      → d.query_location ≡ query
      → QueryIsEncodable query
      → IsTable e.strings
      → Extends (finish_row e group d query).strings u
      → IsWord (length u.values)
      → Encodes u (finish_row e group d query) (done ++ (d ∷ []))
  unfolding finish_row
  finish_row-Encodes none same ok_query table later room =
      row_joins e.strings (append_row group.demands d e.previous_start) (
        Decodes-append_row u.values d.location.path group.demands e.previous_start o.last_rows
          o.decodes d span o.after refl same)
  finish_row-Encodes (some query) same (q_span, q_valid) table later room =
      row_joins (intern e.strings query.path).1 _ (
        Decodes-append_query u.values d.location.path group.demands e.previous_start o.last_rows
          o.decodes d (intern e.strings query.path).0 query span o.after refl same q_span
          (omega (arith, lookup-lt u.values (intern e.strings query.path).0 query.path known))
          known)
    where
      known : lookup u.values (intern e.strings query.path).0 ≡ some query.path
      known =
          lookup-intern e.strings u query.path table later
          ∙ ap some (wire_text-valid_string query.path q_valid)

open_group_strings :
    (e : Encoder) (last : Option CompactDemandGroup) (index start : ℕ)
    → e.last ≡ last
    → (open_group e index start).1.strings ≡ e.strings
unfolding open_group
open_group_strings e none index start same = rw (same, open_group)
open_group_strings e (some group) index start same = elim (Bool-cases (opens_group e index start)) [
  | inl opens ↦ rw (same, opens, open_group)
  | inr stays ↦ rw (same, stays, open_group)
]

finish_row-Grows :
    (e : Encoder) (group : CompactDemandGroup) (d : EntityDemand) (query : Option Location)
    → IsTable e.strings
    → Grows e.strings (finish_row e group d query).strings 1
unfolding finish_row
finish_row-Grows e group d none v = Grows-refl e.strings 1 v
finish_row-Grows e group d (some query) v = intern-Grows e.strings query.path v

-- The encoder after the path of a demand is interned and its group is open.
opened : Encoder → EntityDemand → CompactDemandGroup × Encoder
opened e d =
    let (path, strings) = intern e.strings d.location.path in
    open_group (record e { strings = strings }) path d.location.start_byte

opened_strings :
    (e : Encoder) (d : EntityDemand) → (opened e d).1.strings ≡ (intern e.strings d.location.path).1
unfolding opened
opened_strings e d =
    open_group_strings (record e { strings = (intern e.strings d.location.path).1 }) e.last
      (intern e.strings d.location.path).0 d.location.start_byte refl

opened-Grows :
    (e : Encoder) (d : EntityDemand) → IsTable e.strings → Grows e.strings (opened e d).1.strings 1
opened-Grows e d v =
    subst (λ t. Grows e.strings t 1) (sym (opened_strings e d))
      (intern-Grows e.strings d.location.path v)

encode_demand-Grows :
    (e : Encoder) (d : EntityDemand)
    → IsTable e.strings
    → Grows e.strings (encode_demand e d).strings 2
unfolding encode_demand opened
encode_demand-Grows e d v =
    let first : Grows e.strings (opened e d).1.strings 1 = opened-Grows e d v in
    Grows-trans e.strings (opened e d).1.strings (encode_demand e d).strings 1 1 first
      (finish_row-Grows (opened e d).1 (opened e d).0 d d.query_location first.valid)

encode_demand-Encodes :
    (u : StringTable) (e : Encoder) (d : EntityDemand) (done : List EntityDemand)
    → IsEncodable d
    → IsTable e.strings
    → Extends (encode_demand e d).strings u
    → IsWord (length u.values)
    → Encodes u e done
    → Encodes u (encode_demand e d) (done ++ (d ∷ []))
unfolding encode_demand opened
encode_demand-Encodes u e d done ok_d table later room v =
    finish_row-Encodes u (opened e d).1 (opened e d).0 d done
      (open_group-Opened u (record e { strings = interned.1 }) e.last interned.0 d.location.path
        d.location.start_byte done refl known (omega (arith, ok_d.span.ordered, ok_d.span.bounded))
        (record {
          closed_rows = v.closed_rows;
          last_rows = v.last_rows;
          split = v.split;
          closed = v.closed;
          open_rows = v.open_rows;
        }))
      ok_d.span d.query_location refl ok_d.query first.valid later room
  where
    interned : ℕ × StringTable
    interned = intern e.strings d.location.path

    first : Grows e.strings (opened e d).1.strings 1
    first = opened-Grows e d table

    rest : Grows (opened e d).1.strings (encode_demand e d).strings 1
    rest = finish_row-Grows (opened e d).1 (opened e d).0 d d.query_location first.valid

    known : lookup u.values interned.0 ≡ some d.location.path
    known =
        lookup-intern e.strings u d.location.path table
          (subst (λ t. Extends t u) (opened_strings e d) (λ i k h. later i k (rest.extends i k h)))
        ∙ ap some (wire_text-valid_string d.location.path ok_d.path_valid)

encode_demands-Grows :
    (e : Encoder) (demands : List EntityDemand)
    → IsTable e.strings
    → Grows e.strings (encode_demands e demands).strings (2 * length demands)
unfolding encode_demands
encode_demands-Grows e [] v = Grows-refl e.strings 0 v
encode_demands-Grows e (d ∷ rest) v =
    let first : Grows e.strings (encode_demand e d).strings 2 = encode_demand-Grows e d v in
    let last : Grows (encode_demand e d).strings (encode_demands (encode_demand e d) rest).strings
        (2 * length rest) =
      encode_demands-Grows (encode_demand e d) rest first.valid in
    subst (Grows e.strings (encode_demands (encode_demand e d) rest).strings) (omega arith) (
      Grows-trans e.strings (encode_demand e d).strings
        (encode_demands (encode_demand e d) rest).strings 2 (2 * length rest) first last)

encode_demands-Encodes :
    (u : StringTable) (e : Encoder) (demands done : List EntityDemand)
    → All IsEncodable demands
    → IsTable e.strings
    → Extends (encode_demands e demands).strings u
    → IsWord (length u.values)
    → Encodes u e done
    → Encodes u (encode_demands e demands) (done ++ demands)
unfolding encode_demands
encode_demands-Encodes u e [] done h table later room v =
    subst (Encodes u e) (sym (append-nil done)) v
encode_demands-Encodes u e (d ∷ rest) done (ok_d, h) table later room v =
    let first : Grows e.strings (encode_demand e d).strings 2 = encode_demand-Grows e d table in
    let last : Grows (encode_demand e d).strings (encode_demands (encode_demand e d) rest).strings
        (2 * length rest) =
      encode_demands-Grows (encode_demand e d) rest first.valid in
    subst (Encodes u (encode_demands (encode_demand e d) rest)) (append_assoc done (d ∷ []) rest) (
      encode_demands-Encodes u (encode_demand e d) rest (done ++ (d ∷ [])) h first.valid later room
        (encode_demand-Encodes u e d done ok_d table (λ i k m. later i k (last.extends i k m)) room
          v))

start_Encodes : (u : StringTable) → Encodes u new_encoder []
unfolding new_encoder expand_groups
start_Encodes u = record {
  closed_rows = [];
  last_rows = [];
  split = refl;
  closed = refl;
  open_rows = refl;
}

compact_groups :
    (demands : List EntityDemand)
    → All IsEncodable demands
    → length demands < 2 ^ 62
    → (let compact = compact_demands_from demands in
        expand_groups compact.strings compact.groups ≡ ok demands)
unfolding compact_demands_from
compact_groups demands h small = close_last finished.strings finished finished.last demands refl (
    encode_demands-Encodes finished.strings new_encoder demands [] h start (λ i k m. m)
      (omega (arith, grown.bounded, start_length)) (start_Encodes finished.strings))
  where
    finished : Encoder
    finished = encode_demands new_encoder demands

    start : IsTable new_encoder.strings
    start = unfold new_encoder in new_string_table-IsTable

    grown : Grows new_encoder.strings finished.strings (2 * length demands)
    grown = encode_demands-Grows new_encoder demands start

    start_length : length new_encoder.strings.values ≡ 1
    start_length = unfold new_encoder new_string_table in refl

-- Expanding the compact form of a demand snapshot gives the snapshot back: every demand, in order,
-- with its path, its offsets, its query location and all of its flags. The demands must have UTF-8
-- paths and offsets that are ordered and not negative, and be fewer than 2 ^ 62.
pub expand-compact_demands_from :
    (demands : List EntityDemand)
    → All IsEncodable demands
    → length demands < 2 ^ 62
    → expand (compact_demands_from demands) ≡ ok demands
unfolding expand
expand-compact_demands_from demands h small =
    let groups : expand_groups (compact_demands_from demands).strings
          (compact_demands_from demands).groups
        ≡ ok demands =
      compact_groups demands h small in
    rw (demand_shape-expand_groups (compact_demands_from demands) demands groups, expand) groups
