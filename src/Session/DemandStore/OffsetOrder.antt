-- ===== src/Session/DemandStore/OffsetOrder.antt =====
-- internal/typefacts/semantic_demand.go: the order of offsets that the sort of `canonicalDemandRun` keeps.
use solid_ts_facts.Prelude.{
  ℕ, ◌+◌, ◌-◌, ◌^◌, ◌≤◌, ◌<◌, ◌≡◌, sym, ◌∙◌, subst, inl, inr, true, false, List, [], ◌∷◌, arith,
  ltb, ◌==◌, if◌then◌else◌, Bool-cases, All, All-map, IsWord, int_lt,
}
use solid_ts_facts.Model.{Location, EntityDemand}
use solid_ts_facts.Session.DemandStore.Runs.{starts_before, is_ordered}

-- An offset as the `int` that its 64-bit pattern stands for, moved up by 2 ^ 63.
abbrev pub raised : ℕ → ℕ
raised n = if ltb n (2 ^ 63) then n + 2 ^ 63 else n - 2 ^ 63

-- The first location starts earlier, or starts where the second does and does not end later.
pub data AtOrBefore (l r : Location) : Type 0 where
  earlier : raised l.start_byte < raised r.start_byte → AtOrBefore l r
  no_longer : l.start_byte ≡ r.start_byte → raised l.end_byte ≤ raised r.end_byte → AtOrBefore l r

abbrev pub HasWords : EntityDemand → Type 0
HasWords demand = IsWord demand.location.start_byte × IsWord demand.location.end_byte

-- No demand is before an earlier one of the list.
abbrev pub InOffsetOrder : List EntityDemand → Type 0
InOffsetOrder [] = Unit
InOffsetOrder (demand ∷ rest) =
    All (λ later. AtOrBefore demand.location later.location) rest × InOffsetOrder rest

AtOrBefore-trans : (a b c : Location) → AtOrBefore a b → AtOrBefore b c → AtOrBefore a c
AtOrBefore-trans a b c (earlier p) (earlier q) = earlier (omega (arith, p, q))
AtOrBefore-trans a b c (earlier p) (no_longer same q) =
    earlier (subst (λ n. raised a.start_byte < raised n) same p)
AtOrBefore-trans a b c (no_longer same p) (earlier q) =
    earlier (subst (λ n. raised n < raised c.start_byte) (sym same) q)
AtOrBefore-trans a b c (no_longer same p) (no_longer equal q) =
    no_longer (same ∙ equal) (omega (arith, p, q))

int_lt-raised : (a b : ℕ) → IsWord a → IsWord b → int_lt a b ≡ ltb (raised a) (raised b)
unfolding int_lt
int_lt-raised a b p q = ground arith

raised_injective : (a b : ℕ) → IsWord a → IsWord b → raised a ≡ raised b → a ≡ b
raised_injective a b p q h = ground arith

not_before :
    (l r : EntityDemand)
    → HasWords l
    → HasWords r
    → starts_before r.location l.location ≡ false
    → AtOrBefore l.location r.location
unfolding starts_before
not_before l r p q h = elim (Bool-cases (r.location.start_byte == l.location.start_byte)) [
  | inl same ↦
      let ends : int_lt r.location.end_byte l.location.end_byte ≡ false = ground (arith, same, h) in
      no_longer (ground (arith, same))
        (ground (arith, ends, int_lt-raised r.location.end_byte l.location.end_byte q.1 p.1))
  | inr other ↦
      let starts : int_lt r.location.start_byte l.location.start_byte ≡ false =
        ground (arith, other, h) in
      earlier (
        ground (
          arith,
          other,
          starts,
          int_lt-raised r.location.start_byte l.location.start_byte q.0 p.0,
          raised_injective r.location.start_byte l.location.start_byte q.0 p.0,
        ))
]

pub is_ordered-InOffsetOrder :
    (demands : List EntityDemand)
    → All HasWords demands
    → is_ordered demands ≡ true
    → InOffsetOrder demands
unfolding is_ordered
is_ordered-InOffsetOrder [] p h = tt
is_ordered-InOffsetOrder (demand ∷ []) p h = (tt, tt)
is_ordered-InOffsetOrder (demand ∷ next ∷ rest) p h =
    let first : AtOrBefore demand.location next.location =
      not_before demand next p.0 p.1.0 (ground (arith, h)) in
    let later = is_ordered-InOffsetOrder (next ∷ rest) p.1 (ground (arith, h)) in
    (
      (
        first,
        All-map (λ after q. AtOrBefore-trans demand.location next.location after.location first q)
            rest later.0,
      ),
      later,
    )
