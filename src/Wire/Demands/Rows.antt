-- ===== src/Wire/Demands/Rows.antt =====
-- The row loop of `Expand`: its fuel is enough, and it decodes row by row.
use solid_ts_facts.Prelude.{
  ℕ, zero, suc, ◌≤◌, ◌<◌, ◌≡◌, refl, ◌∙◌, Bool, true, false, List, [], ◌∷◌, arith, length, Result,
  ok, err, ◌>>=◌, ◌≢◌, inl, inr, Result-cases, Option-cases, subst, if◌then◌else◌, err_inj,
}
use solid_ts_facts.Keys.{GoString}
use solid_ts_facts.Model.{EntityDemand}
use solid_ts_facts.Wire.Varint.{
  Taken, took, truncated, overflowing, take_compact_uvarint, take_compact_uvarint_takes,
}
use solid_ts_facts.Wire.Strings.{lookup}
use solid_ts_facts.Wire.Demands.{
  take_number, take_query, lookup_string, expand_row, expand_rows, Expanded, ExpandError,
  out_of_fuel,
}

-- A reader succeeds and leaves fewer than `n` bytes, or fails with an error of the source.
pub data Shrinks {A : Type 0} (n : ℕ) (r : Result ExpandError (A × List ℕ)) : Type 0 where
  leaves : (a : A) (rest : List ℕ) → r ≡ ok (a, rest) → length rest < n → Shrinks n r
  fails : (e : ExpandError) → r ≡ err e → e ≢ out_of_fuel → Shrinks n r

take_number_within : (n : ℕ) (input : List ℕ) → length input ≤ n → Shrinks n (take_number input)
unfolding take_number
take_number_within n input h = go (take_compact_uvarint input) refl
  where
    go : (t : Taken ℕ) → take_compact_uvarint input ≡ t → Shrinks n (take_number input)
    go (took v rest) e =
        leaves v rest (rw (e, take_number))
          (omega (arith, take_compact_uvarint_takes input v rest e))
    go truncated e = fails ExpandError.truncated_varint (rw (e, take_number)) (grind arith)
    go overflowing e = fails ExpandError.overflowing_varint (rw (e, take_number)) (grind arith)

module _ {A : Type 0} where
  Shrinks-bind :
      {B : Type 0} (n : ℕ) (m : Result ExpandError (B × List ℕ))
      (f : B × List ℕ → Result ExpandError (A × List ℕ))
      → Shrinks n m
      → ((b : B) (rest : List ℕ) → length rest < n → Shrinks n (f (b, rest)))
      → Shrinks n (m >>= f)
  Shrinks-bind n m f (leaves b rest e h) k = rw e (k b rest h)
  Shrinks-bind n m f (fails x e ne) k = fails x (rw e) ne

  Shrinks-if :
      (n : ℕ) (b : Bool) (x y : Result ExpandError (A × List ℕ))
      → Shrinks n x
      → Shrinks n y
      → Shrinks n (if b then x else y)
  Shrinks-if n true x y h k = h
  Shrinks-if n false x y h k = k

  lookup_string_then :
      (n : ℕ) (strings : List GoString) (index : ℕ) (f : GoString → Result ExpandError (A × List ℕ))
      → ((text : GoString) → Shrinks n (f text))
      → Shrinks n (lookup_string strings index >>= f)
  unfolding lookup_string
  lookup_string_then n strings index f k = elim (Option-cases (lookup strings index)) [
    | inl e ↦ fails (ExpandError.index_out_of_range index) (rw (e, lookup_string)) (grind arith)
    | inr (text, e) ↦ rw (e, lookup_string) (k text)
  ]

take_query_within :
    (n : ℕ) (strings : List GoString) (input : List ℕ)
    → length input ≤ n
    → Shrinks n (take_query strings input)
unfolding take_query
take_query_within n strings input h =
    Shrinks-bind n _ _ (take_number_within n input h) λ path_index next h₁.
      Shrinks-bind n _ _ (take_number_within n next (omega arith)) λ start next₂ h₂.
        Shrinks-bind n _ _ (take_number_within n next₂ (omega arith)) λ len next₃ h₃.
          Shrinks-if n _ _ _ (fails ExpandError.query_location_overflow refl (grind arith))
            (lookup_string_then n strings path_index _ λ text. leaves _ next₃ refl h₃)

-- A decoded row uses bytes, and the row decoder never gives up early.
pub expand_row-Shrinks :
    (strings : List GoString) (path : GoString) (previous : ℕ) (packed : List ℕ)
    → Shrinks (length packed) (expand_row strings path previous packed)
unfolding expand_row
expand_row-Shrinks strings path previous packed =
    let n : ℕ = length packed in
    Shrinks-bind n _ _ (take_number_within n packed (omega arith)) λ header rest h₁.
      Shrinks-bind n _ _ (take_number_within n rest (omega arith)) λ start_delta rest₂ h₂.
        Shrinks-bind n _ _ (take_number_within n rest₂ (omega arith)) λ len rest₃ h₃.
          Shrinks-if n _ _ _ (fails ExpandError.location_overflow refl (grind arith)) (
            Shrinks-if n _ _ _
              (Shrinks-bind n _ _ (take_query_within n strings rest₃ (omega arith))
                λ query rest₄ h₄. leaves _ rest₄ refl h₄)
              (leaves _ rest₃ refl h₃))

expand_row_shorter :
    (strings : List GoString) (path : GoString) (previous : ℕ) (packed : List ℕ) (d : EntityDemand)
    (rest : List ℕ)
    → expand_row strings path previous packed ≡ ok (d, rest)
    → length rest < length packed
expand_row_shorter strings path previous packed d rest e =
    go (expand_row-Shrinks strings path previous packed)
  where
    go :
        Shrinks (length packed) (expand_row strings path previous packed)
        → length rest < length packed
    go (leaves d' rest' e' h) =
        let same : rest' ≡ rest = cc (e, e') in subst (λ r. length r < length packed) same h
    go (fails x e' ne) = cc (e, e')

-- The row loop with the fuel that the source's slice gives it.
abbrev pub expand_from : List GoString → GoString → ℕ → List ℕ → Expanded (List EntityDemand)
expand_from strings path previous packed = expand_rows strings path (length packed) previous packed

module _ (strings : List GoString) (path : GoString) where
  expand_rows_enough :
      (fuel more previous : ℕ) (packed : List ℕ)
      → length packed ≤ fuel
      → length packed ≤ more
      → expand_rows strings path fuel previous packed
        ≡ expand_rows strings path more previous packed
  unfolding expand_rows
  expand_rows_enough fuel more previous [] h k = ground arith
  expand_rows_enough zero more previous (b ∷ packed) h k = absurd (omega arith)
  expand_rows_enough (suc fuel) zero previous (b ∷ packed) h k = absurd (omega arith)
  expand_rows_enough (suc fuel) (suc more) previous (b ∷ packed) h k =
      elim (Result-cases (expand_row strings path previous (b ∷ packed))) [
        | inl ((d, rest), e) ↦ rw (
          e,
          expand_rows_enough fuel more d.location.start_byte rest
              (omega (arith, expand_row_shorter strings path previous (b ∷ packed) d rest e))
              (omega (arith, expand_row_shorter strings path previous (b ∷ packed) d rest e)),
        )
        | inr (x, e) ↦ rw e
      ]

  -- One row in front of the others.
  pub expand_from_row :
      (previous : ℕ) (packed : List ℕ) (d : EntityDemand) (rest : List ℕ)
      → expand_row strings path previous packed ≡ ok (d, rest)
      → expand_from strings path previous packed
        ≡ (expand_from strings path d.location.start_byte rest >>= λ rows. ok (d ∷ rows))
  unfolding expand_rows
  expand_from_row previous [] d rest e =
      absurd (omega (arith, expand_row_shorter strings path previous [] d rest e))
  expand_from_row previous (b ∷ packed) d rest e = rw (
    e,
    expand_rows_enough (length packed) (length rest) d.location.start_byte rest
        (omega (arith, expand_row_shorter strings path previous (b ∷ packed) d rest e))
        (omega arith),
  )

  -- The loop ends: with as much fuel as bytes it never runs out.
  pub expand_rows-ne-out_of_fuel :
      (fuel previous : ℕ) (packed : List ℕ)
      → length packed ≤ fuel
      → expand_rows strings path fuel previous packed ≢ err out_of_fuel
  unfolding expand_rows
  expand_rows-ne-out_of_fuel fuel previous [] h = ground arith
  expand_rows-ne-out_of_fuel zero previous (b ∷ packed) h = absurd (omega arith)
  expand_rows-ne-out_of_fuel (suc fuel) previous (b ∷ packed) h =
      go (λ d rest lt. expand_rows-ne-out_of_fuel fuel d.location.start_byte rest lt)
        (expand_row-Shrinks strings path previous (b ∷ packed))
    where
      go :
          ((d : EntityDemand) (rest : List ℕ)
            → length rest ≤ fuel
            → expand_rows strings path fuel d.location.start_byte rest ≢ err out_of_fuel)
          → Shrinks (length (b ∷ packed)) (expand_row strings path previous (b ∷ packed))
          → expand_rows strings path (suc fuel) previous (b ∷ packed) ≢ err out_of_fuel
      go ih (leaves d rest e lt) =
          rw (e, expand_rows)
            (elim (Result-cases (expand_rows strings path fuel d.location.start_byte rest)) [
              | inl (rows, r) ↦ rw r (λ p. cc)
              | inr (x, r) ↦ rw r (λ p. ih d rest (omega arith) (r ∙ p))
            ])
      go ih (fails x e ne) = rw (e, expand_rows) (λ p. ne (err_inj p))
