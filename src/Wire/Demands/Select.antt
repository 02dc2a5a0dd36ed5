-- ===== src/Wire/Demands/Select.antt =====
-- `appendCompactDemandsWithFlag` of protocolv3_compact.go: the demands of one packed run with a
-- flag, without building the others.
use solid_ts_facts.Prelude.{
  ℕ, zero, suc, ◌/◌, ◌^◌, ◌≡◌, ap, ◌∙◌, sym, not, ◌||◌, Option, none, some, List, [], ◌∷◌, ◌++◌,
  ltb, ◌==◌, if◌then◌else◌, arith, length, ok, err, ◌>>=◌, add64, bit_and, append_assoc, append-nil,
  inl, inr, Result-cases, Bool-cases, ok_inj,
}
use solid_ts_facts.Keys.{GoString}
use solid_ts_facts.Model.{Location, EntityDemand, CompactDemandGroup}
use solid_ts_facts.Wire.Flags.{has_flag, demand_of_flags, demand_flag_async}
use solid_ts_facts.Wire.Demands.{
  Expanded, query_location_overflow, location_overflow, out_of_fuel, take_number, lookup_string,
  take_query, expand_row, expand_rows, expand_group,
}

-- The query location of a row that is passed over: its numbers are read, its path is not looked up.
unfoldable pub skip_query : List ℕ → Expanded (List ℕ)
skip_query input = do
  (_, next) ← take_number input
  (start, next) ← take_number next
  (len, next) ← take_number next
  if ltb (add64 start len) start then err query_location_overflow else ok next

-- The row's start, the demand if it is selected, and the bytes behind the row.
unfoldable pub select_row :
    List GoString → GoString → ℕ → ℕ → List ℕ → Expanded (ℕ × Option EntityDemand × List ℕ)
unfolding skip_query
select_row strings path required previous packed = do
  (header, rest) ← take_number packed
  (start_delta, rest) ← take_number rest
  (len, rest) ← take_number rest
  let start = add64 previous start_delta
  if ltb start previous || ltb (add64 start len) start then err location_overflow else do
    let location : Location = record { path = path; start_byte = start; end_byte = add64 start len }
    let flags = header / 2
    let selected = not (bit_and flags required == 0)
    if has_flag header 0
        then (if selected
            then (do
              (query, rest) ← take_query strings rest
              ok (start, some (demand_of_flags location flags (some query)), rest))
            else (do rest ← skip_query rest; ok (start, none, rest)))
        else ok
            (start, (if selected then some (demand_of_flags location flags none) else none), rest)

unfoldable pub append_selected : Option EntityDemand → List EntityDemand → List EntityDemand
append_selected none target = target
append_selected (some d) target = target ++ (d ∷ [])

unfoldable pub select_rows :
    List GoString → GoString → ℕ → ℕ → ℕ → List ℕ → List EntityDemand → Expanded (List EntityDemand)
select_rows strings path required fuel previous [] target = ok target
select_rows strings path required zero previous (b ∷ packed) target = err out_of_fuel
select_rows strings path required (suc fuel) previous (b ∷ packed) target = do
  (start, selected, rest) ← select_row strings path required previous (b ∷ packed)
  select_rows strings path required fuel start rest (append_selected selected target)

unfoldable pub append_compact_demands_with_flag :
    List EntityDemand → CompactDemandGroup → List GoString → ℕ → Expanded (List EntityDemand)
unfolding select_rows
append_compact_demands_with_flag target group strings required = do
  path ← lookup_string strings group.path
  select_rows strings path required (length group.demands) 0 group.demands target

abbrev pub keep_async : List EntityDemand → List EntityDemand
keep_async [] = []
keep_async (d ∷ rest) = if d.async then d ∷ keep_async rest else keep_async rest

select_row-expand_row :
    (strings : List GoString) (path : GoString) (previous : ℕ) (packed : List ℕ) (d : EntityDemand)
    (rest : List ℕ)
    → expand_row strings path previous packed ≡ ok (d, rest)
    → select_row strings path (2 ^ demand_flag_async) previous packed
      ≡ ok (d.location.start_byte, (if d.async then some d else none), rest)
unfolding expand_row select_row take_query demand_of_flags has_flag
select_row-expand_row strings path previous packed d rest e = ground arith

append_selected-keep_async :
    (d : EntityDemand) (target rest : List EntityDemand)
    → append_selected (if d.async then some d else none) target ++ keep_async rest
      ≡ target ++ keep_async (d ∷ rest)
unfolding append_selected
append_selected-keep_async d target rest = elim (Bool-cases d.async) [
  | inl e ↦ simp (e, append_assoc)
  | inr e ↦ simp e
]

select_rows-expand_rows :
    (strings : List GoString) (path : GoString) (fuel previous : ℕ) (packed : List ℕ)
    (rows target : List EntityDemand)
    → expand_rows strings path fuel previous packed ≡ ok rows
    → select_rows strings path (2 ^ demand_flag_async) fuel previous packed target
      ≡ ok (target ++ keep_async rows)
unfolding expand_rows select_rows
select_rows-expand_rows strings path fuel previous [] rows target e =
    ap ok (sym (append-nil target))
    ∙ ap (λ (r : List EntityDemand). ok (target ++ keep_async r)) (ok_inj e)
select_rows-expand_rows strings path zero previous (b ∷ packed) rows target e = cc
select_rows-expand_rows strings path (suc fuel) previous (b ∷ packed) rows target e =
    elim (Result-cases (expand_row strings path previous (b ∷ packed))) [
      | inl ((d, rest), e₁) ↦
          elim (Result-cases (expand_rows strings path fuel d.location.start_byte rest)) [
            | inl (others, e₂) ↦ ground (
              arith,
              select_row-expand_row strings path previous (b ∷ packed) d rest e₁,
              select_rows-expand_rows strings path fuel d.location.start_byte rest others
                  (append_selected (if d.async then some d else none) target) e₂,
              append_selected-keep_async d target others,
            )
            | inr (x, e₂) ↦ ground arith
          ]
      | inr (x, e₁) ↦ ground arith
    ]

-- On a run that expands, the visit appends exactly the expanded demands that ask for async facts,
-- in order, behind what was there.
pub append_compact_demands_with_flag-expand_group :
    (target : List EntityDemand) (group : CompactDemandGroup) (strings : List GoString)
    (rows : List EntityDemand)
    → expand_group strings group ≡ ok rows
    → append_compact_demands_with_flag target group strings (2 ^ demand_flag_async)
      ≡ ok (target ++ keep_async rows)
unfolding expand_group append_compact_demands_with_flag
append_compact_demands_with_flag-expand_group target group strings rows e =
    elim (Result-cases (lookup_string strings group.path)) [
      | inl (path, e₀) ↦ ground (
        arith,
        e₀,
        select_rows-expand_rows strings path (length group.demands) 0 group.demands rows target,
      )
      | inr (x, e₀) ↦ ground (arith, e₀)
    ]
