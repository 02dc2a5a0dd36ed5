-- ===== src/Wire/Demands/Opening.antt =====
-- Opening a group: what is encoded so far decodes to the demands so far, and still does when the next
-- row starts a group of its own.
use solid_ts_facts.Prelude.{
  ℕ, ◌≤◌, ◌≡◌, sym, ap, ◌∙◌, subst, inl, inr, true, false, Option, none, some, List, [], ◌∷◌, ◌++◌,
  append-nil, arith, Bool-cases, some_inj, IsNonNegative, int_lt, int_lt-nonnegative, ok,
}
use solid_ts_facts.Keys.{GoString}
use solid_ts_facts.Keys.Utf8.{valid_string}
use solid_ts_facts.Model.{Location, EntityDemand, CompactDemandGroup}
use solid_ts_facts.Wire.Demands.{Encoder, encoder_groups, opens_group, open_group, expand_groups}
use solid_ts_facts.Wire.Demands.Encode.{IsSpan}
use solid_ts_facts.Wire.Demands.Frames.{
  Decodes, Decodes-nil, LastDecodes, expand_group-LastDecodes, expand_groups-append,
}
use solid_ts_facts.Wire.Strings.{StringTable, wire_text, lookup}

abbrev pub QueryIsEncodable : Option Location → Type 0
QueryIsEncodable none = Unit
QueryIsEncodable (some query) = IsSpan query × (valid_string query.path ≡ true)

-- A demand whose offsets are ordered and whose paths are UTF-8, as the compiler reports them.
pub record IsEncodable (d : EntityDemand) : Type 0 where
  pub span : IsSpan d.location
  pub path_valid : valid_string d.location.path ≡ true
  pub query : QueryIsEncodable d.query_location

pub wire_text-valid_string : (s : GoString) → valid_string s ≡ true → wire_text s ≡ s
unfolding wire_text
wire_text-valid_string s h = rw h

-- `u` is the string table of the finished frame.
pub record Encodes (u : StringTable) (e : Encoder) (done : List EntityDemand) : Type 0 where
  pub closed_rows : List EntityDemand
  pub last_rows : List EntityDemand
  pub split : done ≡ closed_rows ++ last_rows
  pub closed : expand_groups u.values e.closed ≡ ok closed_rows
  pub open_rows : LastDecodes u.values e.last e.previous_start last_rows

-- The group that the next row goes to, after `open_group`.
pub record Opened (u : StringTable) (e : Encoder) (group : CompactDemandGroup) (path : GoString)
    (start : ℕ) (done : List EntityDemand) : Type 0 where
  pub closed_rows : List EntityDemand
  pub last_rows : List EntityDemand
  pub split : done ≡ closed_rows ++ last_rows
  pub closed : expand_groups u.values e.closed ≡ ok closed_rows
  pub known : lookup u.values group.path ≡ some path
  pub decodes : Decodes u.values path group.demands e.previous_start last_rows
  pub after : e.previous_start ≤ start

pub close_last :
    (u : StringTable) (e : Encoder) (last : Option CompactDemandGroup) (done : List EntityDemand)
    → e.last ≡ last
    → Encodes u e done
    → expand_groups u.values (encoder_groups e) ≡ ok done
unfolding encoder_groups
close_last u e none done same v =
    rw (same, encoder_groups)
      (v.closed
        ∙ ap ok (
            sym (append-nil v.closed_rows)
            ∙ ap (◌++◌ v.closed_rows) (
                sym (
                  subst (λ l. LastDecodes u.values l e.previous_start v.last_rows) same
                    v.open_rows))
            ∙ sym v.split))
close_last u e (some group) done same v =
    rw (same, encoder_groups, v.split)
      (expand_groups-append u.values e.closed group v.closed_rows v.last_rows v.closed (
        expand_group-LastDecodes u.values group e.previous_start v.last_rows
          (subst (λ l. LastDecodes u.values l e.previous_start v.last_rows) same v.open_rows)))

-- An empty group opened behind finished ones.
fresh_group :
    (u : StringTable) (e : Encoder) (closed : List CompactDemandGroup) (index : ℕ) (path : GoString)
    (start : ℕ) (done : List EntityDemand)
    → lookup u.values index ≡ some path
    → expand_groups u.values closed ≡ ok done
    → Opened u
        (record e { closed = closed; previous_start = 0 })
        (record { path = index; demands = [] })
        path
        start
        done
fresh_group u e closed index path start done known expands = record {
  closed_rows = done;
  last_rows = [];
  split = sym (append-nil done);
  closed = expands;
  known = known;
  decodes = Decodes-nil u.values path;
  after = omega arith;
}

-- When no group is opened, the last one has this path and does not start behind the row.
stays_open :
    (e : Encoder) (group : CompactDemandGroup) (index start : ℕ)
    → e.last ≡ some group
    → opens_group e index start ≡ false
    → (group.path ≡ index) × (int_lt start e.previous_start ≡ false)
unfolding opens_group
stays_open e group index start same h = ground (arith, rw (same, opens_group) at h)

same_group :
    (u : StringTable) (e : Encoder) (group : CompactDemandGroup) (index : ℕ) (path : GoString)
    (start : ℕ) (done : List EntityDemand) (v : Encodes u e done)
    → group.path ≡ index
    → int_lt start e.previous_start ≡ false
    → lookup u.values index ≡ some path
    → IsNonNegative start
    → LastDecodes u.values (some group) e.previous_start v.last_rows
    → Opened u e group path start done
same_group u e group index path start done v here later known small (path', known', small', front) =
    let same_path : path' ≡ path = some_inj (sym known' ∙ ap (lookup u.values) here ∙ known) in
    record {
      closed_rows = v.closed_rows;
      last_rows = v.last_rows;
      split = v.split;
      closed = v.closed;
      known = ap (lookup u.values) here ∙ known;
      decodes =
          subst (λ p. Decodes u.values p group.demands e.previous_start v.last_rows) same_path
            front;
      after = ground (arith, int_lt-nonnegative start e.previous_start);
    }

pub open_group-Opened :
    (u : StringTable) (e : Encoder) (last : Option CompactDemandGroup) (index : ℕ) (path : GoString)
    (start : ℕ) (done : List EntityDemand)
    → e.last ≡ last
    → lookup u.values index ≡ some path
    → IsNonNegative start
    → Encodes u e done
    → Opened u (open_group e index start).1 (open_group e index start).0 path start done
unfolding open_group
open_group-Opened u e none index path start done same known small v =
    rw (same, open_group)
      (fresh_group u e e.closed index path start done known
        (unfold encoder_groups in (rw (same, encoder_groups) at (close_last u e none done same v))))
open_group-Opened u e (some group) index path start done same known small v =
    elim (Bool-cases (opens_group e index start)) [
      | inl opens ↦
          rw (same, opens, open_group)
            (fresh_group u e (e.closed ++ (group ∷ [])) index path start done known (
              unfold encoder_groups in
              (rw (same, encoder_groups) at (close_last u e (some group) done same v))))
      | inr stays ↦
          let (here, later) = stays_open e group index start same stays in
          rw (same, stays, open_group)
            (same_group u e group index path start done v here later known small
              (subst (λ l. LastDecodes u.values l e.previous_start v.last_rows) same v.open_rows))
    ]
