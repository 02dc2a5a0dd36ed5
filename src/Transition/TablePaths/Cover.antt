-- ===== src/Transition/TablePaths/Cover.antt =====
-- The walk over a table's paths comes by every path that has a row, and ends.
use solid_ts_facts.Prelude.{
  ℕ, zero, suc, ◌+◌, ◌≤◌, ◌<◌, ◌≡◌, refl, sym, ap, ◌∙◌, inl, inr, Bool, true, false, ◌&&◌, ◌||◌,
  Option, none, some, List, [], ◌∷◌, map, arith, if◌then◌else◌, Option-cases, some_inj, length,
}
use solid_ts_facts.Keys.{GoString, str_eq, str_lt}
use solid_ts_facts.Keys.Order.{eq_of_str_eq, str_eq_of_eq}
use solid_ts_facts.Transition.Facts.{EntityFact}
use solid_ts_facts.Transition.PathPlan.{digest_path, fact_path, entity_path, run_path, is_member}
use solid_ts_facts.Transition.TablePaths.{
  EntityRows, flat_rows, run_rows, PathCursor, new_path_cursor, entity_head, head_path, consider,
  cursor_path, behind, drop_path, entities_behind, cursor_next, entity_rows_count, rows_left,
  paths_from, plan_full,
}
use solid_ts_facts.Transition.Tables.{FactTable}

unfoldable pub has_key : {A : Type 0} → (A → GoString) → GoString → List A → Bool
has_key key k l = is_member (map key l) k

-- Whether a stream's first row has the path.
starts : {A : Type 0} → (A → GoString) → GoString → List A → Bool
starts key path [] = false
starts key path (row ∷ rest) = str_eq (key row) path

module _ {A : Type 0} (key : A → GoString) (path k : GoString) where
  has_key-behind :
      (l : List A)
      → has_key key k l
        ≡ ((starts key path l && str_eq path k) || has_key key k (behind key path l))
  unfolding has_key is_member starts behind
  has_key-behind [] = refl
  has_key-behind (row ∷ rest) = ground (arith, eq_of_str_eq (key row) path)

  length-behind :
      (l : List A) → length (behind key path l) + (if starts key path l then 1 else 0) ≤ length l
  unfolding starts behind
  length-behind [] = omega arith
  length-behind (row ∷ rest) = ground arith

module _ (path k : GoString) where
  has_key-drop_path :
      (l : List EntityFact)
      → has_key entity_path k l
        ≡ ((starts entity_path path l && str_eq path k) || has_key entity_path k (drop_path path l))
  unfolding has_key is_member starts drop_path
  has_key-drop_path [] = refl
  has_key-drop_path (row ∷ rest) =
      ground (arith, eq_of_str_eq (entity_path row) path, has_key-drop_path rest)

  length-drop_path :
      (l : List EntityFact)
      → length (drop_path path l) + (if starts entity_path path l then 1 else 0) ≤ length l
  unfolding starts drop_path
  length-drop_path [] = omega arith
  length-drop_path (row ∷ rest) = ground (arith, length-drop_path rest)

unfoldable pub entities_have : GoString → EntityRows → Bool
entities_have k (flat_rows entities) = has_key entity_path k entities
entities_have k (run_rows runs) = has_key run_path k runs

entities_start : GoString → EntityRows → Bool
entities_start path (flat_rows entities) = starts entity_path path entities
entities_start path (run_rows runs) = starts run_path path runs

entities_have-behind :
    (path k : GoString) (rows : EntityRows)
    → entities_have k rows
      ≡ ((entities_start path rows && str_eq path k) || entities_have k (entities_behind path rows))
unfolding entities_have entities_start entities_behind
entities_have-behind path k (flat_rows entities) = has_key-drop_path path k entities
entities_have-behind path k (run_rows runs) = has_key-behind run_path path k runs

entity_rows_count-behind :
    (path : GoString) (rows : EntityRows)
    → entity_rows_count (entities_behind path rows) + (if entities_start path rows then 1 else 0)
      ≤ entity_rows_count rows
unfolding entity_rows_count entities_start entities_behind
entity_rows_count-behind path (flat_rows entities) = length-drop_path path [] entities
entity_rows_count-behind path (run_rows runs) = length-behind run_path path [] runs

-- Some row of the cursor has the path.
unfoldable pub cursor_has : GoString → PathCursor → Bool
cursor_has k c =
    has_key digest_path k c.source_rows
    || entities_have k c.entity_rows_left
    || has_key fact_path k c.file_rows

is_start : GoString → Option GoString → Bool
is_start path none = false
is_start path (some p) = str_eq p path

starts-head_path :
    {A : Type 0} (key : A → GoString) (path : GoString) (l : List A)
    → starts key path l ≡ is_start path (head_path key l)
unfolding starts is_start head_path
starts-head_path key path [] = refl
starts-head_path key path (row ∷ rest) = refl

entities_start-head :
    (path : GoString) (rows : EntityRows)
    → entities_start path rows ≡ is_start path (entity_head rows)
unfolding entities_start is_start entity_head starts
entities_start-head path (flat_rows []) = refl
entities_start-head path (flat_rows (e ∷ l)) = refl
entities_start-head path (run_rows []) = refl
entities_start-head path (run_rows (e ∷ l)) = refl

chosen :
    (path p q : GoString) (b : Bool)
    → some (if b then q else p) ≡ some path
    → (str_eq p path || str_eq q path) ≡ true
chosen path p q true h = ground (arith, str_eq_of_eq {a = q} {b = path} (some_inj h))
chosen path p q false h = ground (arith, str_eq_of_eq {a = p} {b = path} (some_inj h))

consider-start :
    (path : GoString) (a b : Option GoString)
    → consider a b ≡ some path
    → (is_start path a || is_start path b) ≡ true
unfolding is_start consider
consider-start path none none h = absurd cc
consider-start path (some p) none h = ground (arith, some_inj h, str_eq_of_eq (some_inj h))
consider-start path none (some q) h = ground (arith, some_inj h, str_eq_of_eq (some_inj h))
consider-start path (some p) (some q) h = chosen path p q (str_lt q p) h

consider-none : (a b : Option GoString) → consider a b ≡ none → (a ≡ none) × (b ≡ none)
unfolding consider
consider-none none none h = (refl, refl)
consider-none (some p) none h = absurd cc
consider-none none (some q) h = absurd cc
consider-none (some p) (some q) h = absurd cc

-- The cursor's path is the path of some first row.
abbrev starts_one : GoString → PathCursor → Bool
starts_one path c =
    starts digest_path path c.source_rows
    || entities_start path c.entity_rows_left
    || starts fact_path path c.file_rows

start-some : (path : GoString) (o : Option GoString) → is_start path o ≡ true → o ≡ some path
unfolding is_start
start-some path none h = absurd cc
start-some path (some p) h = ap some (eq_of_str_eq p path h)

consider_three :
    (path : GoString) (a b d : Option GoString)
    → consider (consider a b) d ≡ some path
    → (is_start path a || is_start path b || is_start path d) ≡ true
consider_three path a b d h = ground (
  arith,
  consider-start path (consider a b) d h,
  start-some path (consider a b),
  consider-start path a b,
)

cursor_path-starts :
    (c : PathCursor) (path : GoString) → cursor_path c ≡ some path → starts_one path c ≡ true
unfolding cursor_path
cursor_path-starts c path h =
    rw
      (
        starts-head_path digest_path path c.source_rows,
        entities_start-head path c.entity_rows_left,
        starts-head_path fact_path path c.file_rows,
      )
      (consider_three path (head_path digest_path c.source_rows) (entity_head c.entity_rows_left)
        (head_path fact_path c.file_rows) h)

cursor_has-next :
    (c : PathCursor) (path k : GoString)
    → starts_one path c ≡ true
    → cursor_has k c ≡ (str_eq path k || cursor_has k (cursor_next c path))
unfolding cursor_has cursor_next
cursor_has-next c path k h = ground (
  arith,
  has_key-behind digest_path path k c.source_rows,
  entities_have-behind path k c.entity_rows_left,
  has_key-behind fact_path path k c.file_rows,
)

rows_left-next :
    (c : PathCursor) (path : GoString)
    → starts_one path c ≡ true
    → rows_left (cursor_next c path) < rows_left c
unfolding rows_left cursor_next
rows_left-next c path h = ground (
  arith,
  length-behind digest_path path [] c.source_rows,
  entity_rows_count-behind path c.entity_rows_left,
  length-behind fact_path path [] c.file_rows,
)

has_key-none :
    {A : Type 0} (key : A → GoString) (k : GoString) (l : List A)
    → head_path key l ≡ none
    → has_key key k l ≡ false
unfolding has_key is_member head_path
has_key-none key k [] h = refl
has_key-none key k (row ∷ rest) h = absurd cc

entities_have-none :
    (k : GoString) (rows : EntityRows) → entity_head rows ≡ none → entities_have k rows ≡ false
unfolding entities_have has_key is_member entity_head
entities_have-none k (flat_rows []) h = refl
entities_have-none k (flat_rows (e ∷ l)) h = absurd cc
entities_have-none k (run_rows []) h = refl
entities_have-none k (run_rows (e ∷ l)) h = absurd cc

cursor_has-none : (c : PathCursor) (k : GoString) → cursor_path c ≡ none → cursor_has k c ≡ false
unfolding cursor_path cursor_has
cursor_has-none c k h =
    let (ab, files) =
      consider-none
        (consider (head_path digest_path c.source_rows) (entity_head c.entity_rows_left))
        (head_path fact_path c.file_rows) h in
    let (digests, entities) =
      consider-none (head_path digest_path c.source_rows) (entity_head c.entity_rows_left) ab in
    rw (
      has_key-none digest_path k c.source_rows digests,
      entities_have-none k c.entity_rows_left entities,
      has_key-none fact_path k c.file_rows files,
    )

paths-step :
    (fuel : ℕ) (c : PathCursor) (k : GoString) (o : Option GoString)
    → cursor_path c ≡ o
    → rows_left c ≤ suc fuel
    → ((next : PathCursor)
        → rows_left next ≤ fuel
        → is_member (paths_from fuel next) k ≡ cursor_has k next)
    → is_member
        (elim o as (λ x. List GoString) [
          | none ↦ []
          | some path ↦ path ∷ paths_from fuel (cursor_next c path)
        ])
        k
      ≡ cursor_has k c
unfolding is_member
paths-step fuel c k none e h more = sym (cursor_has-none c k e)
paths-step fuel c k (some path) e h more =
    let starting = cursor_path-starts c path e in
    ap (λ b. str_eq path k || b)
      (more (cursor_next c path) (omega (arith, h, rows_left-next c path starting)))
    ∙ sym (cursor_has-next c path k starting)

paths_from-has :
    (fuel : ℕ) (c : PathCursor) (k : GoString)
    → rows_left c ≤ fuel
    → is_member (paths_from fuel c) k ≡ cursor_has k c
unfolding paths_from is_member
paths_from-has zero c k h = elim (Option-cases (cursor_path c)) [
  | inl e ↦ sym (cursor_has-none c k e)
  | inr (path, e) ↦ absurd (omega (arith, rows_left-next c path (cursor_path-starts c path e)))
]
paths_from-has (suc fuel) c k h =
    paths-step fuel c k (cursor_path c) refl h (λ next. paths_from-has fuel next k)

-- The paths of a full plan are exactly those of the table's sources, entities and files, whatever
-- the order of the rows; as many rounds as there are rows are enough to come by all of them.
pub plan_full-has :
    (target : FactTable) (k : GoString)
    → is_member (plan_full target) k ≡ cursor_has k (new_path_cursor target)
unfolding plan_full
plan_full-has target k =
    paths_from-has (rows_left (new_path_cursor target)) (new_path_cursor target) k (omega arith)
