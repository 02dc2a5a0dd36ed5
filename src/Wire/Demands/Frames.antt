-- ===== src/Wire/Demands/Frames.antt =====
-- What the groups that the encoder has written so far decode to, under any later string table.
use solid_ts_facts.Prelude.{
  ℕ, ◌≤◌, ◌≡◌, refl, ap, ◌∙◌, sym, Option, none, some, List, [], ◌∷◌, ◌++◌, arith, ok, ◌>>=◌,
  IsWord, IsNonNegative, append_assoc, append-nil, subst, Result-cases, inl, inr, ok_inj,
}
use solid_ts_facts.Keys.{GoString}
use solid_ts_facts.Model.{Location, EntityDemand, CompactDemandGroup}
use solid_ts_facts.Wire.Strings.{lookup}
use solid_ts_facts.Wire.Demands.{
  Expanded, lookup_string, expand_row, expand_rows, expand_group, expand_groups, append_row,
  append_query,
}
use solid_ts_facts.Wire.Demands.Rows.{expand_from, expand_from_row}
use solid_ts_facts.Wire.Demands.Encode.{
  IsSpan, append_row-row_bytes, append_query-query_bytes, row_without_query, row_with_query,
  row_bytes, query_bytes,
}

abbrev pub prepend : List EntityDemand → Expanded (List EntityDemand) → Expanded (List EntityDemand)
prepend rows r = r >>= λ more. ok (rows ++ more)

-- `bytes` are complete rows: in front of any further bytes they decode to `rows`, and decoding goes
-- on behind them from the last start.
abbrev pub Decodes : List GoString → GoString → List ℕ → ℕ → List EntityDemand → Type 0
Decodes strings path bytes previous rows =
    (more : List ℕ)
    → expand_from strings path 0 (bytes ++ more)
      ≡ prepend rows (expand_from strings path previous more)

module _ (strings : List GoString) (path : GoString) where
  pub Decodes-nil : Decodes strings path [] 0 []
  Decodes-nil more = elim (Result-cases (expand_from strings path 0 more)) [
    | inl (rows, e) ↦ rw e
    | inr (x, e) ↦ rw e
  ]

  prepend_row :
      (rows : List EntityDemand) (d : EntityDemand) (r : Expanded (List EntityDemand))
      → prepend rows (r >>= λ more. ok (d ∷ more)) ≡ prepend (rows ++ (d ∷ [])) r
  prepend_row rows d r = elim (Result-cases r) [
    | inl (more, e) ↦ rw (e, append_assoc rows (d ∷ []) more)
    | inr (x, e) ↦ rw e
  ]

  module _ (bytes : List ℕ) (previous : ℕ) (rows : List EntityDemand)
      (front : Decodes strings path bytes previous rows) where
    Decodes-row :
        (d : EntityDemand) (row : List ℕ → List ℕ) (bytes' : List ℕ)
        → ((more : List ℕ) → bytes' ++ more ≡ bytes ++ row more)
        → ((more : List ℕ) → expand_row strings path previous (row more) ≡ ok (d, more))
        → Decodes strings path bytes' d.location.start_byte (rows ++ (d ∷ []))
    Decodes-row d row bytes' shape reads more = rw (shape more) (
        front (row more)
        ∙ ap (prepend rows) (expand_from_row strings path previous (row more) d more (reads more))
        ∙ prepend_row rows d (expand_from strings path d.location.start_byte more))

    pub Decodes-append_row :
        (d : EntityDemand)
        → IsSpan d.location
        → previous ≤ d.location.start_byte
        → d.location.path ≡ path
        → d.query_location ≡ none
        → Decodes strings path
            (append_row bytes d previous)
            d.location.start_byte
            (rows ++ (d ∷ []))
    Decodes-append_row d span after here e =
        Decodes-row d _ (append_row bytes d previous) (append_row-row_bytes bytes d previous)
          λ more.
            subst (λ p. expand_row strings p previous (row_bytes d previous more) ≡ ok (d, more))
              here (row_without_query strings previous d span after more e)

    pub Decodes-append_query :
        (d : EntityDemand) (index : ℕ) (query : Location)
        → IsSpan d.location
        → previous ≤ d.location.start_byte
        → d.location.path ≡ path
        → d.query_location ≡ some query
        → IsSpan query
        → IsWord index
        → lookup strings index ≡ some query.path
        → Decodes strings path
            (append_query (append_row bytes d previous) index query)
            d.location.start_byte
            (rows ++ (d ∷ []))
    Decodes-append_query d index query span after here e query_span word known =
        Decodes-row d _ (append_query (append_row bytes d previous) index query)
          (λ more.
            append_query-query_bytes (append_row bytes d previous) index query more
            ∙ append_row-row_bytes bytes d previous _)
          λ more.
            subst
              (λ p.
                expand_row strings p previous (row_bytes d previous (query_bytes index query more))
                ≡ ok (d, more))
              here
              (row_with_query strings previous d span after index query more e query_span word
                known)

-- The group that rows are still appended to.
abbrev pub LastDecodes : List GoString → Option CompactDemandGroup → ℕ → List EntityDemand → Type 0
LastDecodes strings none previous rows = rows ≡ []
LastDecodes strings (some group) previous rows =
    (path : GoString) × (lookup strings group.path ≡ some path)
    × IsNonNegative previous
    × Decodes strings path group.demands previous rows

expand_from-nil :
    (strings : List GoString) (path : GoString) (previous : ℕ)
    → expand_from strings path previous [] ≡ ok []
unfolding expand_rows
expand_from-nil strings path previous = refl

whole_group :
    (strings : List GoString) (path : GoString) (bytes : List ℕ) (previous : ℕ)
    (rows : List EntityDemand)
    → Decodes strings path bytes previous rows
    → expand_from strings path 0 bytes ≡ ok rows
whole_group strings path bytes previous rows front =
    ap (expand_from strings path 0) (sym (append-nil bytes))
    ∙ front []
    ∙ rw (expand_from-nil strings path previous, append-nil rows)

-- A group that is left behind expands to the rows that were appended to it.
pub expand_group-LastDecodes :
    (strings : List GoString) (group : CompactDemandGroup) (previous : ℕ) (rows : List EntityDemand)
    → LastDecodes strings (some group) previous rows
    → expand_group strings group ≡ ok rows
unfolding expand_group lookup_string
expand_group-LastDecodes strings group previous rows (path, known, _, front) =
    rw (known, lookup_string) (whole_group strings path group.demands previous rows front)

pub expand_groups-append :
    (strings : List GoString) (groups : List CompactDemandGroup) (group : CompactDemandGroup)
    (rows more : List EntityDemand)
    → expand_groups strings groups ≡ ok rows
    → expand_group strings group ≡ ok more
    → expand_groups strings (groups ++ (group ∷ [])) ≡ ok (rows ++ more)
unfolding expand_groups
expand_groups-append strings [] group rows more e k =
    rw (k, append-nil more) (ap (λ (r : List EntityDemand). ok (r ++ more)) (ok_inj e))
expand_groups-append strings (g ∷ groups) group rows more e k =
    elim (Result-cases (expand_group strings g)) [
      | inl (xs, e₁) ↦ elim (Result-cases (expand_groups strings groups)) [
        | inl (ys, e₂) ↦
            rw (e₁, expand_groups-append strings groups group ys more e₂ k)
              (ap ok (sym (append_assoc xs ys more))
                ∙ ap (λ (r : List EntityDemand). ok (r ++ more)) (ok_inj (rw (e₁, e₂) at e)))
        | inr (x, e₂) ↦ ground (arith, e₁, e₂)
      ]
      | inr (x, e₁) ↦ ground (arith, e₁)
    ]
