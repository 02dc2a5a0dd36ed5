-- ===== src/Session/DemandStore/Canonical.antt =====
-- internal/typefacts/semantic_demand.go: `canonicalDemandRun` against a stable sort by offsets.
use mathlib.Core.Option
use solid_ts_facts.Prelude.{
  ℕ, ◌≡◌, refl, sym, ap, ◌∙◌, true, false, not, ◌&&◌, Option, none, some, List, [], ◌∷◌, map, arith,
  ◌==◌, if◌then◌else◌, if-both, All, int_lt,
}
use solid_ts_facts.Keys.{GoString}
use solid_ts_facts.Keys.Clean.{clean}
use solid_ts_facts.Keys.Order.{eq_of_str_eq}
use solid_ts_facts.Model.{Location, EntityDemand}
use solid_ts_facts.Session.DemandStore.OffsetOrder.{
  HasWords, InOffsetOrder, is_ordered-InOffsetOrder,
}
use solid_ts_facts.Session.DemandStore.Runs.{
  is_dirty, is_dirty_query, copy_required, starts_before, is_ordered, clean_location, clean_demand,
  insert_demand, sort_demands, canonical_demand_run,
}

pub at_bounds : ℕ → ℕ → List EntityDemand → List EntityDemand
at_bounds start end [] = []
at_bounds start end (demand ∷ rest) =
    if demand.location.start_byte == start && demand.location.end_byte == end
    then demand ∷ at_bounds start end rest
    else at_bounds start end rest

starts_before-asymmetric : (a b : Location) → starts_before a b ≡ true → starts_before b a ≡ false
unfolding starts_before int_lt
starts_before-asymmetric a b h = ground arith

at_bounds-insert_demand :
    (start end : ℕ) (demand : EntityDemand) (demands : List EntityDemand)
    → at_bounds start end (insert_demand demand demands) ≡ at_bounds start end (demand ∷ demands)
unfolding insert_demand at_bounds starts_before int_lt
at_bounds-insert_demand start end demand [] = refl
at_bounds-insert_demand start end demand (next ∷ rest) =
    ground (arith, at_bounds-insert_demand start end demand rest)

at_bounds-sort_demands :
    (start end : ℕ) (demands : List EntityDemand)
    → at_bounds start end (sort_demands demands) ≡ at_bounds start end demands
unfolding sort_demands at_bounds
at_bounds-sort_demands start end [] = refl
at_bounds-sort_demands start end (demand ∷ rest) =
    at_bounds-insert_demand start end demand (sort_demands rest)
    ∙ ap
        (λ l.
          if demand.location.start_byte == start && demand.location.end_byte == end
          then demand ∷ l
          else l)
        (at_bounds-sort_demands start end rest)

insert_demand-is_ordered :
    (demand : EntityDemand) (demands : List EntityDemand)
    → is_ordered demands ≡ true
    → is_ordered (insert_demand demand demands) ≡ true
unfolding insert_demand is_ordered starts_before int_lt
insert_demand-is_ordered demand [] h = refl
insert_demand-is_ordered demand (next ∷ []) h = ground arith
insert_demand-is_ordered demand (next ∷ after ∷ rest) h =
    ground (arith, insert_demand-is_ordered demand (after ∷ rest))

sort_demands-is_ordered : (demands : List EntityDemand) → is_ordered (sort_demands demands) ≡ true
unfolding sort_demands is_ordered
sort_demands-is_ordered [] = refl
sort_demands-is_ordered (demand ∷ rest) =
    insert_demand-is_ordered demand (sort_demands rest) (sort_demands-is_ordered rest)

clean_path : (path p : GoString) → clean path ≡ path → is_dirty path p ≡ false → clean p ≡ p
unfolding is_dirty
clean_path path p c h = ground (arith, eq_of_str_eq p path, eq_of_str_eq (clean p) p)

clean_query :
    (path : GoString) (query : Option Location)
    → clean path ≡ path
    → is_dirty_query path query ≡ false
    → Option.map clean_location query ≡ query
unfolding is_dirty_query clean_location
clean_query path none c h = refl
clean_query path (some query) c h =
    ap (λ p. some (record query { path = p })) (clean_path path query.path c h)

clean_demand-clean :
    (demand : EntityDemand)
    → clean demand.location.path ≡ demand.location.path
    → Option.map clean_location demand.query_location ≡ demand.query_location
    → clean_demand demand ≡ demand
unfolding clean_demand clean_location
clean_demand-clean demand p q =
    ap
      (λ path. record demand {
        location = record demand.location { path = path };
        query_location = Option.map clean_location demand.query_location;
      })
      p
    ∙ ap (λ query. record demand { query_location = query }) q

clean_demands :
    (path : GoString) (demands : List EntityDemand)
    → clean path ≡ path
    → copy_required path demands ≡ false
    → map clean_demand demands ≡ demands
unfolding copy_required
clean_demands path [] c h = refl
clean_demands path (demand ∷ rest) c h =
    ap (λ d. d ∷ map clean_demand rest)
      (clean_demand-clean demand (clean_path path demand.location.path c (ground (arith, h)))
        (clean_query path demand.query_location c (ground (arith, h))))
    ∙ ap (λ l. demand ∷ l) (clean_demands path rest c (ground (arith, h)))

clean_demand-is_ordered :
    (demands : List EntityDemand) → is_ordered (map clean_demand demands) ≡ is_ordered demands
unfolding is_ordered clean_demand clean_location starts_before
clean_demand-is_ordered [] = refl
clean_demand-is_ordered (demand ∷ []) = refl
clean_demand-is_ordered (demand ∷ next ∷ rest) =
    ap (λ b. not (starts_before next.location demand.location) && b)
      (clean_demand-is_ordered (next ∷ rest))

canonical_demand_run-ordered :
    (path : GoString) (demands : List EntityDemand) (start end : ℕ)
    → clean path ≡ path
    → (is_ordered (canonical_demand_run path demands) ≡ true)
      × (at_bounds start end (canonical_demand_run path demands)
          ≡ at_bounds start end (map clean_demand demands))
unfolding canonical_demand_run
canonical_demand_run-ordered path demands start end c =
    if-both
      (λ run.
        (is_ordered run ≡ true)
        × (at_bounds start end run ≡ at_bounds start end (map clean_demand demands)))
      (not (copy_required path demands) && is_ordered demands)
      (λ h. (
        ground (arith, h),
        ap (at_bounds start end) (sym (clean_demands path demands c (ground (arith, h)))),
      ))
      (λ h.
        if-both
          (λ run.
            (is_ordered run ≡ true)
            × (at_bounds start end run ≡ at_bounds start end (map clean_demand demands)))
          (is_ordered demands) (λ ordered. (clean_demand-is_ordered demands ∙ ordered, refl))
          (λ unordered. (
            sort_demands-is_ordered (map clean_demand demands),
            at_bounds-sort_demands start end (map clean_demand demands),
          )))

clean_demand-HasWords :
    (demands : List EntityDemand) → All HasWords demands → All HasWords (map clean_demand demands)
unfolding clean_demand clean_location
clean_demand-HasWords [] p = tt
clean_demand-HasWords (demand ∷ rest) p = (p.0, clean_demand-HasWords rest p.1)

insert_demand-HasWords :
    (demand : EntityDemand) (demands : List EntityDemand)
    → HasWords demand
    → All HasWords demands
    → All HasWords (insert_demand demand demands)
unfolding insert_demand
insert_demand-HasWords demand [] p q = (p, tt)
insert_demand-HasWords demand (next ∷ rest) p q =
    if-both (All HasWords) (starts_before next.location demand.location)
      (λ h. (q.0, insert_demand-HasWords demand rest p q.1)) (λ h. (p, q))

sort_demands-HasWords :
    (demands : List EntityDemand) → All HasWords demands → All HasWords (sort_demands demands)
unfolding sort_demands
sort_demands-HasWords [] p = tt
sort_demands-HasWords (demand ∷ rest) p =
    insert_demand-HasWords demand (sort_demands rest) p.0 (sort_demands-HasWords rest p.1)

canonical_demand_run-HasWords :
    (path : GoString) (demands : List EntityDemand)
    → All HasWords demands
    → All HasWords (canonical_demand_run path demands)
unfolding canonical_demand_run
canonical_demand_run-HasWords path demands p =
    if-both (All HasWords) (not (copy_required path demands) && is_ordered demands) (λ h. p)
      (λ h.
        if-both (All HasWords) (is_ordered demands) (λ ordered. clean_demand-HasWords demands p)
          (λ unordered.
            sort_demands-HasWords (map clean_demand demands) (clean_demand-HasWords demands p)))

-- The canonical run of a clean path is a stable sort of its demands with their paths cleaned: its
-- demands are by start and then by end, as `int`s, and at every pair of offsets it has the same
-- demands in the same order, whether it was borrowed, copied or sorted. The offsets of the demands
-- are 64-bit patterns.
pub canonical_demand_run-sorts :
    (path : GoString) (demands : List EntityDemand)
    → clean path ≡ path
    → All HasWords demands
    → InOffsetOrder (canonical_demand_run path demands)
      × ((start end : ℕ)
          → at_bounds start end (canonical_demand_run path demands)
            ≡ at_bounds start end (map clean_demand demands))
canonical_demand_run-sorts path demands c words = (
  is_ordered-InOffsetOrder (canonical_demand_run path demands)
      (canonical_demand_run-HasWords path demands words)
      (canonical_demand_run-ordered path demands 0 0 c).0,
  λ start end. (canonical_demand_run-ordered path demands start end c).1,
)
