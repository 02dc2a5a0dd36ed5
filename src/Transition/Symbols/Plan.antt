-- ===== src/Transition/Symbols/Plan.antt =====
-- The plan of a fallback delta, over the whole walk.
use solid_ts_facts.Prelude.{
  ℕ, zero, suc, ◌+◌, ◌<◌, ◌≡◌, refl, sym, ap, ◌∙◌, subst, fun_ext, List, [], ◌∷◌, ◌++◌, arith,
  length, length-append,
}
use solid_ts_facts.Keys.Rows.{IsSorted, find}
use solid_ts_facts.Transition.Facts.{SymbolFact}
use solid_ts_facts.Transition.Symbols.{
  SymbolOp, Chunk, Cursor, new_cursor, Turn, finished, moved, turn, symbol_ops, row_count,
  plan_fallback_symbol_delta,
}
use solid_ts_facts.Transition.Symbols.Delta.{
  fact_id, FactMap, apply_op, apply_ops, all_rows, left_rows, left_rows-new_cursor, Moves, Works,
  step-untouched, step-reaches,
}
use solid_ts_facts.Transition.Symbols.Walk.{
  Memory, AreStored, IsPlaced, new_cursor-IsPlaced, Moves-IsSorted, Moves-length, TurnIs,
  turn-TurnIs,
}

apply_ops-append :
    (f : FactMap) (first rest : List SymbolOp)
    → apply_ops f (first ++ rest) ≡ apply_ops (apply_ops f first) rest
apply_ops-append f [] rest = refl
apply_ops-append f (operation ∷ first) rest = apply_ops-append (apply_op f operation) first rest

abbrev plan_of : List SymbolOp → FactMap → FactMap
plan_of ops f = apply_ops f ops

Works-nothing : (L R : List SymbolFact) → L ≡ [] → R ≡ [] → Works (plan_of []) L R
unfolding find
Works-nothing L R p q = rw (p, q) (record { untouched = λ f k al ar. refl; reaches = λ f k h. h })

Works-step :
    (L R L2 R2 : List SymbolFact) (ops rest : List SymbolOp)
    → Moves L R ops L2 R2
    → IsSorted fact_id L
    → IsSorted fact_id R
    → Works (plan_of rest) L2 R2
    → Works (plan_of (ops ++ rest)) L R
Works-step L R L2 R2 ops rest m sl sr w = record {
  untouched = λ f k al ar.
      ap (λ g. g k) (apply_ops-append f ops rest)
      ∙ step-untouched (plan_of rest) L R L2 R2 ops m w f k al ar;
  reaches = λ f k h.
      ap (λ g. g k) (apply_ops-append f ops rest)
      ∙ step-reaches (plan_of rest) L R L2 R2 ops m w sl sr f k h;
}

module _ (memory : Memory) (z : memory 0 0 ≡ []) where
  -- One turn, with the walk that goes on from it.
  turn-Works :
      (fuel : ℕ) (left right : Cursor) (t : Turn)
      → TurnIs memory left right t
      → IsSorted fact_id (left_rows left)
      → IsSorted fact_id (left_rows right)
      → length (left_rows left) + length (left_rows right) < suc fuel
      → ((left2 right2 : Cursor)
          → IsPlaced memory left2
          → IsPlaced memory right2
          → IsSorted fact_id (left_rows left2)
          → IsSorted fact_id (left_rows right2)
          → length (left_rows left2) + length (left_rows right2) < fuel
          → Works (plan_of (symbol_ops fuel left2 right2)) (left_rows left2) (left_rows right2))
      → Works
          (plan_of (elim t [
            | finished ↦ []
            | moved ops left2 right2 ↦ ops ++ symbol_ops fuel left2 right2
          ]))
          (left_rows left)
          (left_rows right)
  turn-Works fuel left right finished (p, q) sl sr n more =
      Works-nothing (left_rows left) (left_rows right) p q
  turn-Works fuel left right (moved ops left2 right2) (m, pl, pr) sl sr n more =
      let sorted =
        Moves-IsSorted (left_rows left) (left_rows right) (left_rows left2) (left_rows right2) ops m
          sl sr in
      Works-step (left_rows left) (left_rows right) (left_rows left2) (left_rows right2) ops
        (symbol_ops fuel left2 right2) m sl sr
        (more left2 right2 pl pr sorted.0 sorted.1 (
          omega (
            arith,
            n,
            Moves-length (left_rows left) (left_rows right) (left_rows left2) (left_rows right2) ops
                m,
          )))

  symbol_ops-Works :
      (fuel : ℕ) (left right : Cursor)
      → IsPlaced memory left
      → IsPlaced memory right
      → IsSorted fact_id (left_rows left)
      → IsSorted fact_id (left_rows right)
      → length (left_rows left) + length (left_rows right) < fuel
      → Works (plan_of (symbol_ops fuel left right)) (left_rows left) (left_rows right)
  unfolding symbol_ops
  symbol_ops-Works zero left right pl pr sl sr n = absurd (omega arith)
  symbol_ops-Works (suc fuel) left right pl pr sl sr n =
      turn-Works fuel left right (turn left right) (turn-TurnIs memory z left right pl pr sl sr) sl
        sr n (symbol_ops-Works fuel)

length-all_rows : (chunks : List Chunk) → length (all_rows chunks) ≡ row_count chunks
unfolding row_count
length-all_rows [] = refl
length-all_rows (chunk ∷ later) =
    omega (arith, length-append chunk.rows (all_rows later), length-all_rows later)

-- For two stores whose rows are in ID order and whose chunks are slices of one memory, none of them
-- empty, the planned operations on the base's rows give the target's at every ID, although chunks
-- that both stores share are skipped unread. The walk has fuel enough.
pub plan_fallback_symbol_delta-find :
    (memory : Memory) (base target : List Chunk)
    → (memory 0 0 ≡ [])
    → AreStored memory base
    → AreStored memory target
    → IsSorted fact_id (all_rows base)
    → IsSorted fact_id (all_rows target)
    → apply_ops (find fact_id (all_rows base)) (plan_fallback_symbol_delta base target)
      ≡ find fact_id (all_rows target)
unfolding plan_fallback_symbol_delta
plan_fallback_symbol_delta-find memory base target z stored_base stored_target sb st = fun_ext (λ k.
    works.reaches (find fact_id (all_rows base)) k
      (ap (λ l. find fact_id l k) (sym (left_rows-new_cursor base)))
    ∙ ap (λ l. find fact_id l k) (left_rows-new_cursor target))
  where
    left : Cursor
    left = new_cursor base

    right : Cursor
    right = new_cursor target

    works :
        Works
          (plan_of (symbol_ops (suc (row_count base + row_count target)) left right))
          (left_rows left)
          (left_rows right)
    works =
        symbol_ops-Works memory z (suc (row_count base + row_count target)) left right
          (new_cursor-IsPlaced memory base stored_base z)
          (new_cursor-IsPlaced memory target stored_target z)
          (subst (λ l. IsSorted fact_id l) (sym (left_rows-new_cursor base)) sb)
          (subst (λ l. IsSorted fact_id l) (sym (left_rows-new_cursor target)) st)
          (omega (
            arith,
            ap length (left_rows-new_cursor base),
            ap length (left_rows-new_cursor target),
            length-all_rows base,
            length-all_rows target,
          ))
