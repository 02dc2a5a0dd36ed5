-- ===== src/Transition/Symbols/Delta.antt =====
-- The planned operations take the base table's symbols to the target table's.
use solid_ts_facts.Prelude.{
  ◌<◌, ◌≡◌, refl, ap, ◌∙◌, subst, inl, inr, true, false, Option, none, some, List, [], ◌∷◌, ◌++◌,
  arith, if◌then◌else◌, Bool-cases, length,
}
use solid_ts_facts.Keys.{GoString, str_eq, str_lt}
use solid_ts_facts.Keys.Order.{eq_of_str_eq, str_lt_irrefl}
use solid_ts_facts.Keys.Rows.{IsAbove, IsSorted, find, IsAbove-find}
use solid_ts_facts.Model.{Location}
use solid_ts_facts.Transition.Facts.{Declaration, SymbolFact}
use solid_ts_facts.Transition.Symbols.{
  replace_symbol, remove_symbol, replace_reference_path, other_tag, SymbolOp, locations_equal,
  declarations_equal, symbol_fact_equal, replace_op, remove_op, Chunk, Cursor, new_cursor,
  next_cursor, after_row, next_rows,
}

abbrev pub fact_id : SymbolFact → GoString
fact_id fact = fact.id

abbrev pub FactMap : Type 0
FactMap = GoString → Option SymbolFact

-- What an operation of the plan does to a map from IDs to facts.
abbrev pub apply_op : FactMap → SymbolOp → FactMap
apply_op f operation k =
    if str_eq operation.id k
    then elim operation.tag [
      | replace_symbol ↦ some operation.fact
      | remove_symbol ↦ none
      | replace_reference_path ↦ f k
      | other_tag n ↦ f k
    ]
    else f k

abbrev pub apply_ops : FactMap → List SymbolOp → FactMap
apply_ops f [] = f
apply_ops f (operation ∷ rest) = apply_ops (apply_op f operation) rest

abbrev pub all_rows : List Chunk → List SymbolFact
all_rows [] = []
all_rows (chunk ∷ later) = chunk.rows ++ all_rows later

abbrev pub left_rows : Cursor → List SymbolFact
left_rows c = c.rows ++ all_rows c.later

pub left_rows-new_cursor : (chunks : List Chunk) → left_rows (new_cursor chunks) ≡ all_rows chunks
unfolding new_cursor
left_rows-new_cursor [] = refl
left_rows-new_cursor (chunk ∷ later) = refl

left_rows-after_row :
    (c : Cursor) (rest : List SymbolFact) → left_rows (after_row c rest) ≡ rest ++ all_rows c.later
unfolding after_row
left_rows-after_row c [] = left_rows-new_cursor c.later
left_rows-after_row c (fact ∷ rest) = refl

pub left_rows-next_cursor :
    (c : Cursor) (fact : SymbolFact) (rest : List SymbolFact)
    → c.rows ≡ fact ∷ rest
    → left_rows (next_cursor c) ≡ rest ++ all_rows c.later
unfolding next_cursor next_rows
left_rows-next_cursor c fact rest e = rw (ap (next_rows c) e) (left_rows-after_row c rest)

pub locations_equal-eq :
    (left right : List Location) → locations_equal left right ≡ true → left ≡ right
unfolding locations_equal
locations_equal-eq [] [] h = refl
locations_equal-eq [] (m ∷ right) h = cc
locations_equal-eq (l ∷ left) [] h = cc
locations_equal-eq (l ∷ left) (m ∷ right) h =
    ground (arith, eq_of_str_eq l.path m.path, locations_equal-eq left right)

pub declarations_equal-eq :
    (left right : List Declaration) → declarations_equal left right ≡ true → left ≡ right
unfolding declarations_equal
declarations_equal-eq [] [] h = refl
declarations_equal-eq [] (m ∷ right) h = cc
declarations_equal-eq (l ∷ left) [] h = cc
declarations_equal-eq (l ∷ left) (m ∷ right) h = ground (
  arith,
  eq_of_str_eq l.name m.name,
  eq_of_str_eq l.kind m.kind,
  eq_of_str_eq l.location.path m.location.path,
  declarations_equal-eq left right,
)

-- Two symbol rows that compare as equal are the same.
pub symbol_fact_equal-eq :
    (left right : SymbolFact) → symbol_fact_equal left right ≡ true → left ≡ right
unfolding symbol_fact_equal
symbol_fact_equal-eq left right h = ground (
  arith,
  eq_of_str_eq left.id right.id,
  eq_of_str_eq left.alias_target right.alias_target,
  declarations_equal-eq left.declarations right.declarations,
  locations_equal-eq left.references right.references,
)

-- What one turn of the walk does to the rows that are left on either side.
pub data Moves
    : List SymbolFact
      → List SymbolFact
      → List SymbolOp
      → List SymbolFact
      → List SymbolFact
      → Type 0 where
  skipped : (c L R : List SymbolFact) → 0 < length c → Moves (c ++ L) (c ++ R) [] L R
  dropped :
      (x : SymbolFact) (L R : List SymbolFact)
      → IsAbove fact_id x.id R
      → Moves (x ∷ L) R (remove_op x ∷ []) L R
  added :
      (y : SymbolFact) (L R : List SymbolFact)
      → IsAbove fact_id y.id L
      → Moves L (y ∷ R) (replace_op y ∷ []) L R
  changed :
      (x y : SymbolFact) (L R : List SymbolFact)
      → x.id ≡ y.id
      → Moves (x ∷ L) (y ∷ R) (replace_op y ∷ []) L R

-- A plan that leaves the IDs below the rows on both sides alone, and takes the left rows to the
-- right ones.
pub record Works (plan : FactMap → FactMap) (L R : List SymbolFact) : Type 0 where
  pub untouched :
      (f : FactMap) (k : GoString) → IsAbove fact_id k L → IsAbove fact_id k R → plan f k ≡ f k
  pub reaches : (f : FactMap) (k : GoString) → f k ≡ find fact_id L k → plan f k ≡ find fact_id R k

pub IsSorted-drop : (c L : List SymbolFact) → IsSorted fact_id (c ++ L) → IsSorted fact_id L
IsSorted-drop [] L s = s
IsSorted-drop (x ∷ c) L s = IsSorted-drop c L s.1

IsAbove-drop :
    (c L : List SymbolFact) (k : GoString) → IsAbove fact_id k (c ++ L) → IsAbove fact_id k L
IsAbove-drop [] L k a = a
IsAbove-drop (x ∷ c) L k a = IsAbove-drop c L k a.1

skipped-reaches :
    (plan : FactMap → FactMap) (c L R : List SymbolFact) (f : FactMap) (k : GoString)
    → Works plan L R
    → IsSorted fact_id (c ++ L)
    → IsSorted fact_id (c ++ R)
    → f k ≡ find fact_id (c ++ L) k
    → plan f k ≡ find fact_id (c ++ R) k
unfolding find
skipped-reaches plan [] L R f k w sl sr h = w.reaches f k h
skipped-reaches plan (x ∷ c) L R f k w sl sr h = elim (Bool-cases (str_eq x.id k)) [
  | inl same ↦
      w.untouched f k
        (IsAbove-drop c L k
          (subst (λ j. IsAbove fact_id j (c ++ L)) (eq_of_str_eq x.id k same) sl.0))
        (IsAbove-drop c R k
          (subst (λ j. IsAbove fact_id j (c ++ R)) (eq_of_str_eq x.id k same) sr.0))
      ∙ h
      ∙ ground arith
  | inr other ↦ skipped-reaches plan c L R f k w sl.1 sr.1 (ground arith) ∙ ground arith
]

apply_op-below :
    (f : FactMap) (operation : SymbolOp) (k : GoString)
    → str_lt k operation.id ≡ true
    → apply_op f operation k ≡ f k
apply_op-below f operation k h =
    ground (arith, eq_of_str_eq operation.id k, str_lt_irrefl k, str_lt_irrefl operation.id)

pub step-untouched :
    (plan : FactMap → FactMap) (L R L2 R2 : List SymbolFact) (ops : List SymbolOp)
    → Moves L R ops L2 R2
    → Works plan L2 R2
    → (f : FactMap) (k : GoString) → IsAbove fact_id k L
    → IsAbove fact_id k R
    → plan (apply_ops f ops) k ≡ f k
unfolding remove_op replace_op
step-untouched plan _ _ _ _ _ (skipped c L R n) w f k al ar =
    w.untouched f k (IsAbove-drop c L k al) (IsAbove-drop c R k ar)
step-untouched plan _ _ _ _ _ (dropped x L R a) w f k al ar =
    w.untouched (apply_op f (remove_op x)) k al.1 ar ∙ apply_op-below f (remove_op x) k al.0
step-untouched plan _ _ _ _ _ (added y L R a) w f k al ar =
    w.untouched (apply_op f (replace_op y)) k al ar.1 ∙ apply_op-below f (replace_op y) k ar.0
step-untouched plan _ _ _ _ _ (changed x y L R e) w f k al ar =
    w.untouched (apply_op f (replace_op y)) k al.1 ar.1 ∙ apply_op-below f (replace_op y) k ar.0

removed-find :
    (f : FactMap) (x : SymbolFact) (L : List SymbolFact) (k : GoString)
    → IsAbove fact_id x.id L
    → f k ≡ find fact_id (x ∷ L) k
    → apply_op f (remove_op x) k ≡ find fact_id L k
unfolding remove_op find
removed-find f x L k a h = ground (
  arith,
  IsAbove-find fact_id L x.id k a,
  eq_of_str_eq x.id k,
  str_lt_irrefl x.id,
  str_lt_irrefl k,
)

-- A replaced row is read at its ID, where the rows behind it are above it, and the other IDs as
-- before.
replaced-find :
    (plan : FactMap → FactMap) (f : FactMap) (y : SymbolFact) (L R : List SymbolFact) (k : GoString)
    → Works plan L R
    → IsAbove fact_id y.id L
    → IsAbove fact_id y.id R
    → (str_eq y.id k ≡ false → f k ≡ find fact_id L k)
    → plan (apply_op f (replace_op y)) k ≡ find fact_id (y ∷ R) k
unfolding replace_op find
replaced-find plan f y L R k w al ar h = elim (Bool-cases (str_eq y.id k)) [
  | inl same ↦
      w.untouched (apply_op f (replace_op y)) k
        (subst (λ j. IsAbove fact_id j L) (eq_of_str_eq y.id k same) al)
        (subst (λ j. IsAbove fact_id j R) (eq_of_str_eq y.id k same) ar)
      ∙ ground arith
  | inr other ↦ w.reaches (apply_op f (replace_op y)) k (ground (arith, h other)) ∙ ground arith
]

pub step-reaches :
    (plan : FactMap → FactMap) (L R L2 R2 : List SymbolFact) (ops : List SymbolOp)
    → Moves L R ops L2 R2
    → Works plan L2 R2
    → IsSorted fact_id L
    → IsSorted fact_id R
    → (f : FactMap) (k : GoString) → f k ≡ find fact_id L k
    → plan (apply_ops f ops) k ≡ find fact_id R k
unfolding find
step-reaches plan _ _ _ _ _ (skipped c L R n) w sl sr f k h =
    skipped-reaches plan c L R f k w sl sr h
step-reaches plan _ _ _ _ _ (dropped x L R a) w sl sr f k h =
    w.reaches (apply_op f (remove_op x)) k (removed-find f x L k sl.0 h)
step-reaches plan _ _ _ _ _ (added y L R a) w sl sr f k h =
    replaced-find plan f y L R k w a sr.0 (λ o. h)
step-reaches plan _ _ _ _ _ (changed x y L R e) w sl sr f k h =
    replaced-find plan f y L R k w (subst (λ j. IsAbove fact_id j L) e sl.0) sr.0
      (λ other. ground (arith, e))
