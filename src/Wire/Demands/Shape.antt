-- ===== src/Wire/Demands/Shape.antt =====
-- `demandShape` against `Expand`: the counts that size the result and the query arena are exact.
use solid_ts_facts.Prelude.{
  ℕ, zero, suc, ◌+◌, ◌≡◌, ◌∙◌, Bool, true, false, none, some, List, [], ◌∷◌, ◌++◌, arith, length,
  ok, if◌then◌else◌, inl, inr, Result-cases, length-append,
}
use solid_ts_facts.Keys.{GoString}
use solid_ts_facts.Model.{EntityDemand, CompactDemandGroup, CompactDemands}
use solid_ts_facts.Wire.Flags.{demand_of_flags}
use solid_ts_facts.Wire.Demands.{
  take_query, expand_row, expand_rows, expand_group, expand_groups, expand, skip_numbers, row_shape,
  rows_shape, groups_shape, demand_shape, lookup_string,
}

abbrev pub has_query : EntityDemand → Bool
has_query d = elim d.query_location [ none ↦ false | some query ↦ true ]

abbrev pub count_queries : List EntityDemand → ℕ
count_queries [] = 0
count_queries (d ∷ rest) = (if has_query d then 1 else 0) + count_queries rest

row_shape-expand_row :
    (strings : List GoString) (path : GoString) (previous : ℕ) (packed : List ℕ) (d : EntityDemand)
    (rest : List ℕ)
    → expand_row strings path previous packed ≡ ok (d, rest)
    → row_shape packed ≡ ok (has_query d, rest)
unfolding expand_row row_shape skip_numbers take_query demand_of_flags
row_shape-expand_row strings path previous packed d rest e = ground arith

rows_shape-expand_rows :
    (strings : List GoString) (path : GoString) (fuel previous : ℕ) (packed : List ℕ)
    (rows : List EntityDemand) (demand_count query_count : ℕ)
    → expand_rows strings path fuel previous packed ≡ ok rows
    → rows_shape fuel packed demand_count query_count
      ≡ ok (demand_count + length rows, query_count + count_queries rows)
unfolding expand_rows rows_shape
rows_shape-expand_rows strings path fuel previous [] rows n q e = ground arith
rows_shape-expand_rows strings path zero previous (b ∷ packed) rows n q e = cc
rows_shape-expand_rows strings path (suc fuel) previous (b ∷ packed) rows n q e =
    elim (Result-cases (expand_row strings path previous (b ∷ packed))) [
      | inl ((d, rest), e₁) ↦
          elim (Result-cases (expand_rows strings path fuel d.location.start_byte rest)) [
            | inl (others, e₂) ↦ ground (
              arith,
              row_shape-expand_row strings path previous (b ∷ packed) d rest e₁,
              rows_shape-expand_rows strings path fuel d.location.start_byte rest others (n + 1)
                  (if has_query d then q + 1 else q) e₂,
            )
            | inr (x, e₂) ↦ ground arith
          ]
      | inr (x, e₁) ↦ ground arith
    ]

count_queries-append :
    (xs ys : List EntityDemand) → count_queries (xs ++ ys) ≡ count_queries xs + count_queries ys
count_queries-append [] ys = omega arith
count_queries-append (x ∷ xs) ys = omega (arith, count_queries-append xs ys)

groups_shape-expand_groups :
    (strings : List GoString) (groups : List CompactDemandGroup) (rows : List EntityDemand)
    (n q : ℕ)
    → expand_groups strings groups ≡ ok rows
    → groups_shape groups n q ≡ ok (n + length rows, q + count_queries rows)
unfolding expand_groups expand_group groups_shape
groups_shape-expand_groups strings [] rows n q e = ground arith
groups_shape-expand_groups strings (group ∷ rest) rows n q e =
    elim (Result-cases (lookup_string strings group.path)) [
      | inl (path, e₀) ↦
          elim (Result-cases (expand_rows strings path (length group.demands) 0 group.demands)) [
            | inl (xs, e₁) ↦ elim (Result-cases (expand_groups strings rest)) [
              | inl (ys, e₂) ↦ ground (
                arith,
                rows_shape-expand_rows strings path (length group.demands) 0 group.demands xs n q
                    e₁,
                groups_shape-expand_groups strings rest ys (n + length xs) (q + count_queries xs)
                    e₂,
                length-append xs ys,
                count_queries-append xs ys,
              )
              | inr (x, e₂) ↦ ground arith
            ]
            | inr (x, e₁) ↦ ground arith
          ]
      | inr (x, e₀) ↦ ground arith
    ]

-- When the groups expand, the shape that was computed before them counts exactly their demands and
-- their query locations.
pub demand_shape-expand_groups :
    (compact : CompactDemands) (rows : List EntityDemand)
    → expand_groups compact.strings compact.groups ≡ ok rows
    → demand_shape compact ≡ ok (length rows, count_queries rows)
unfolding demand_shape
demand_shape-expand_groups compact rows e =
    groups_shape-expand_groups compact.strings compact.groups rows 0 0 e ∙ ground arith

-- When a compact snapshot expands, its shape is the number of its demands and the number of their
-- query locations, so both arenas that `Expand` allocates are filled exactly.
pub demand_shape-expand :
    (compact : CompactDemands) (rows : List EntityDemand)
    → expand compact ≡ ok rows
    → demand_shape compact ≡ ok (length rows, count_queries rows)
unfolding expand
demand_shape-expand compact rows e = elim (Result-cases (demand_shape compact)) [
  | inl (shape, s) ↦ demand_shape-expand_groups compact rows (ground (arith, s))
  | inr (x, s) ↦ ground (arith, s)
]
