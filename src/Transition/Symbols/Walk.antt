-- ===== src/Transition/Symbols/Walk.antt =====
-- Every turn of the walk over two tables' chunks is a move on their rows, so the walk works.
-- What stands in memory at an address, for a number of rows.
use solid_ts_facts.Prelude.{
  ℕ, ◌+◌, ◌<◌, ◌≡◌, refl, sym, ap, ◌∙◌, subst, inl, inr, true, false, List, [], ◌∷◌, ◌++◌, arith,
  if◌then◌else◌, Bool-cases, length, All, length-append,
}
use solid_ts_facts.Keys.{str_lt}
use solid_ts_facts.Keys.Edit.{IsAbove-trans}
use solid_ts_facts.Keys.Order.{eq_of_str_eq, str_lt_total}
use solid_ts_facts.Keys.Rows.{IsAbove, IsSorted}
use solid_ts_facts.Transition.Facts.{SymbolFact}
use solid_ts_facts.Transition.Symbols.{
  SymbolOp, symbol_fact_equal, replace_op, remove_op, Chunk, Cursor, new_cursor, next_cursor,
  is_shared, Turn, finished, moved, turn, after_row, next_rows, compare_facts, turn_rows,
}
use solid_ts_facts.Transition.Symbols.Delta.{
  fact_id, all_rows, left_rows, left_rows-new_cursor, left_rows-next_cursor, symbol_fact_equal-eq,
  Moves, skipped, dropped, added, changed, IsSorted-drop,
}

abbrev pub Memory : Type 0
Memory = ℕ → ℕ → List SymbolFact

-- No chunk is empty, and every chunk is a slice of the memory.
abbrev pub AreStored : Memory → List Chunk → Type 0
AreStored memory chunks =
    All (λ (c : Chunk). (0 < length c.rows) × (memory c.address (length c.rows) ≡ c.rows)) chunks

abbrev pub IsPlaced : Memory → Cursor → Type 0
IsPlaced memory c =
    ((c.row ≡ 0) → memory c.address (length c.rows) ≡ c.rows)
    × AreStored memory c.later
    × ((c.rows ≡ []) → c.later ≡ [])

pub new_cursor-IsPlaced :
    (memory : Memory) (chunks : List Chunk)
    → AreStored memory chunks
    → (memory 0 0 ≡ [])
    → IsPlaced memory (new_cursor chunks)
unfolding new_cursor
new_cursor-IsPlaced memory [] s z = (λ e. z, tt, λ e. refl)
new_cursor-IsPlaced memory (chunk ∷ later) s z =
    (λ e. s.0.1, s.1, λ e. absurd (omega (arith, s.0.0, ap length e)))

next_cursor-IsPlaced :
    (memory : Memory) (c : Cursor)
    → IsPlaced memory c
    → (memory 0 0 ≡ [])
    → IsPlaced memory (next_cursor c)
unfolding next_cursor next_rows after_row
next_cursor-IsPlaced memory c p z = go c.rows
  where
    after : (rest : List SymbolFact) → IsPlaced memory (after_row c rest)
    after [] = new_cursor-IsPlaced memory c.later p.1 z
    after (fact ∷ rest) = (λ e. absurd (omega (arith, e)), p.1, λ e. cc)

    go : (rows : List SymbolFact) → IsPlaced memory (next_rows c rows)
    go [] = p
    go (fact ∷ rest) = after rest

pub Moves-IsSorted :
    (L R L2 R2 : List SymbolFact) (ops : List SymbolOp)
    → Moves L R ops L2 R2
    → IsSorted fact_id L
    → IsSorted fact_id R
    → IsSorted fact_id L2 × IsSorted fact_id R2
Moves-IsSorted _ _ _ _ _ (skipped c L R n) sl sr = (IsSorted-drop c L sl, IsSorted-drop c R sr)
Moves-IsSorted _ _ _ _ _ (dropped x L R a) sl sr = (sl.1, sr)
Moves-IsSorted _ _ _ _ _ (added y L R a) sl sr = (sl, sr.1)
Moves-IsSorted _ _ _ _ _ (changed x y L R e) sl sr = (sl.1, sr.1)

pub Moves-length :
    (L R L2 R2 : List SymbolFact) (ops : List SymbolOp)
    → Moves L R ops L2 R2
    → length L2 + length R2 < length L + length R
Moves-length _ _ _ _ _ (skipped c L R n) = omega (arith, length-append c L, length-append c R)
Moves-length _ _ _ _ _ (dropped x L R a) = omega arith
Moves-length _ _ _ _ _ (added y L R a) = omega arith
Moves-length _ _ _ _ _ (changed x y L R e) = omega arith

-- What a turn promises: it ends with no rows left, or it moves.
abbrev pub TurnIs : Memory → Cursor → Cursor → Turn → Type 0
TurnIs memory left right finished = (left_rows left ≡ []) × (left_rows right ≡ [])
TurnIs memory left right (moved ops left2 right2) =
    Moves (left_rows left) (left_rows right) ops (left_rows left2) (left_rows right2)
    × IsPlaced memory left2
    × IsPlaced memory right2

Moves-of_eq :
    (L R L2 R2 M S M2 S2 : List SymbolFact) (ops : List SymbolOp)
    → L ≡ M
    → R ≡ S
    → L2 ≡ M2
    → R2 ≡ S2
    → Moves M S ops M2 S2
    → Moves L R ops L2 R2
Moves-of_eq L R L2 R2 M S M2 S2 ops p q r s m = rw (p, q, r, s) m

-- The rows left at a cursor, from its next row on.
rows_from :
    (c : Cursor) (x : SymbolFact) (rest : List SymbolFact)
    → c.rows ≡ x ∷ rest
    → left_rows c ≡ x ∷ (rest ++ all_rows c.later)
rows_from c x rest p = ap (λ l. l ++ all_rows c.later) p

rowless_cursor : (memory : Memory) (c : Cursor) → IsPlaced memory c → c.rows ≡ [] → left_rows c ≡ []
rowless_cursor memory c p e = ap (λ l. l ++ all_rows c.later) e ∙ ap all_rows (p.2 e)

shared_rows :
    (memory : Memory) (left right : Cursor)
    → IsPlaced memory left
    → IsPlaced memory right
    → is_shared left right ≡ true
    → left.rows ≡ right.rows
unfolding is_shared
shared_rows memory left right pl pr h =
    sym (pl.0 (ground arith))
    ∙ ap (λ (n : ℕ). memory left.address n) lengths
    ∙ ap (λ (a : ℕ). memory a (length right.rows)) addresses
    ∙ pr.0 (ground arith)
  where
    lengths : length left.rows ≡ length right.rows
    lengths = ground arith

    addresses : left.address ≡ right.address
    addresses = ground arith

module _ (memory : Memory) (z : memory 0 0 ≡ []) (left right : Cursor) (pl : IsPlaced memory left)
    (pr : IsPlaced memory right) (sl : IsSorted fact_id (left_rows left))
    (sr : IsSorted fact_id (left_rows right)) where
  take_left :
      (x : SymbolFact) (xs : List SymbolFact)
      → left.rows ≡ x ∷ xs
      → IsAbove fact_id x.id (left_rows right)
      → TurnIs memory left right (moved (remove_op x ∷ []) (next_cursor left) right)
  take_left x xs p a = (
    Moves-of_eq (left_rows left) (left_rows right) (left_rows (next_cursor left)) (left_rows right)
        (x ∷ (xs ++ all_rows left.later)) (left_rows right) (xs ++ all_rows left.later)
        (left_rows right) (remove_op x ∷ []) (rows_from left x xs p) refl
        (left_rows-next_cursor left x xs p) refl
        (dropped x (xs ++ all_rows left.later) (left_rows right) a),
    next_cursor-IsPlaced memory left pl z,
    pr,
  )

  take_right :
      (y : SymbolFact) (bs : List SymbolFact)
      → right.rows ≡ y ∷ bs
      → IsAbove fact_id y.id (left_rows left)
      → TurnIs memory left right (moved (replace_op y ∷ []) left (next_cursor right))
  take_right y bs q a = (
    Moves-of_eq (left_rows left) (left_rows right) (left_rows left) (left_rows (next_cursor right))
        (left_rows left) (y ∷ (bs ++ all_rows right.later)) (left_rows left)
        (bs ++ all_rows right.later) (replace_op y ∷ []) refl (rows_from right y bs q) refl
        (left_rows-next_cursor right y bs q)
        (added y (left_rows left) (bs ++ all_rows right.later) a),
    pl,
    next_cursor-IsPlaced memory right pr z,
  )

  take_both :
      (x y : SymbolFact) (xs bs : List SymbolFact) (ops : List SymbolOp)
      → left.rows ≡ x ∷ xs
      → right.rows ≡ y ∷ bs
      → Moves
          (x ∷ (xs ++ all_rows left.later))
          (y ∷ (bs ++ all_rows right.later))
          ops
          (xs ++ all_rows left.later)
          (bs ++ all_rows right.later)
      → TurnIs memory left right (moved ops (next_cursor left) (next_cursor right))
  take_both x y xs bs ops p q m = (
    Moves-of_eq (left_rows left) (left_rows right) (left_rows (next_cursor left))
        (left_rows (next_cursor right)) (x ∷ (xs ++ all_rows left.later))
        (y ∷ (bs ++ all_rows right.later)) (xs ++ all_rows left.later) (bs ++ all_rows right.later)
        ops (rows_from left x xs p) (rows_from right y bs q) (left_rows-next_cursor left x xs p)
        (left_rows-next_cursor right y bs q) m,
    next_cursor-IsPlaced memory left pl z,
    next_cursor-IsPlaced memory right pr z,
  )

  skip_chunk :
      (x : SymbolFact) (xs : List SymbolFact)
      → left.rows ≡ x ∷ xs
      → is_shared left right ≡ true
      → TurnIs memory left right (moved [] (new_cursor left.later) (new_cursor right.later))
  skip_chunk x xs p h = (
    Moves-of_eq (left_rows left) (left_rows right) (left_rows (new_cursor left.later))
        (left_rows (new_cursor right.later)) (left_rows left) (left.rows ++ all_rows right.later)
        (all_rows left.later) (all_rows right.later) [] refl
        (ap (λ l. l ++ all_rows right.later) (sym (shared_rows memory left right pl pr h)))
        (left_rows-new_cursor left.later) (left_rows-new_cursor right.later)
        (skipped left.rows (all_rows left.later) (all_rows right.later)
          (omega (arith, ap length p))),
    new_cursor-IsPlaced memory left.later pl.1 z,
    new_cursor-IsPlaced memory right.later pr.1 z,
  )

  left-IsAbove :
      (x y : SymbolFact) (xs : List SymbolFact)
      → left.rows ≡ x ∷ xs
      → str_lt y.id x.id ≡ true
      → IsAbove fact_id y.id (left_rows left)
  left-IsAbove x y xs p h =
      subst (λ l. IsAbove fact_id y.id l) (sym (rows_from left x xs p))
        (
          h,
          IsAbove-trans fact_id (xs ++ all_rows left.later) y.id x.id h
              (subst (λ l. IsSorted fact_id l) (rows_from left x xs p) sl).0,
        )

  right-IsAbove :
      (x y : SymbolFact) (bs : List SymbolFact)
      → right.rows ≡ y ∷ bs
      → str_lt x.id y.id ≡ true
      → IsAbove fact_id x.id (left_rows right)
  right-IsAbove x y bs q h =
      subst (λ l. IsAbove fact_id x.id l) (sym (rows_from right y bs q))
        (
          h,
          IsAbove-trans fact_id (bs ++ all_rows right.later) x.id y.id h
              (subst (λ l. IsSorted fact_id l) (rows_from right y bs q) sr).0,
        )

  same_ids : (x y : SymbolFact) → str_lt x.id y.id ≡ false → str_lt y.id x.id ≡ false → x.id ≡ y.id
  same_ids x y h k = ground (arith, str_lt_total x.id y.id, eq_of_str_eq x.id y.id)

  same_rows :
      (x y : SymbolFact) (L R : List SymbolFact)
      → x.id ≡ y.id
      → Moves (x ∷ L) (y ∷ R) (if symbol_fact_equal x y then [] else replace_op y ∷ []) L R
  same_rows x y L R e = elim (Bool-cases (symbol_fact_equal x y)) [
    | inl equal ↦ rw equal (
        subst (λ w. Moves (x ∷ L) (w ∷ R) [] L R) (symbol_fact_equal-eq x y equal)
          (skipped (x ∷ []) L R (omega arith)))
    | inr different ↦ rw different (changed x y L R e)
  ]

  turn_rows-TurnIs :
      (xs bs : List SymbolFact)
      → left.rows ≡ xs
      → right.rows ≡ bs
      → TurnIs memory left right (turn_rows left right xs bs)
  unfolding turn_rows compare_facts
  turn_rows-TurnIs [] [] p q = (rowless_cursor memory left pl p, rowless_cursor memory right pr q)
  turn_rows-TurnIs (x ∷ xs) [] p q =
      take_left x xs p
        (subst (λ l. IsAbove fact_id x.id l) (sym (rowless_cursor memory right pr q)) tt)
  turn_rows-TurnIs [] (y ∷ bs) p q =
      take_right y bs q
        (subst (λ l. IsAbove fact_id y.id l) (sym (rowless_cursor memory left pl p)) tt)
  turn_rows-TurnIs (x ∷ xs) (y ∷ bs) p q = elim (Bool-cases (is_shared left right)) [
    | inl shared ↦ rw shared (skip_chunk x xs p shared)
    | inr apart ↦ rw apart (elim (Bool-cases (str_lt x.id y.id)) [
      | inl lt ↦ rw lt (take_left x xs p (right-IsAbove x y bs q lt))
      | inr ge ↦ rw ge (elim (Bool-cases (str_lt y.id x.id)) [
        | inl gt ↦ rw gt (take_right y bs q (left-IsAbove x y xs p gt))
        | inr le ↦ rw le (
            take_both x y xs bs (if symbol_fact_equal x y then [] else replace_op y ∷ []) p q (
              same_rows x y (xs ++ all_rows left.later) (bs ++ all_rows right.later)
                (same_ids x y ge le)))
      ])
    ])
  ]

  pub turn-TurnIs : TurnIs memory left right (turn left right)
  unfolding turn
  turn-TurnIs = turn_rows-TurnIs left.rows right.rows refl refl
