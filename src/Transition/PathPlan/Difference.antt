-- ===== src/Transition/PathPlan/Difference.antt =====
-- What the operation between two of a path's rows does to the first ones.
use solid_ts_facts.Prelude.{
  ◌≡◌, refl, ap, inl, inr, Bool, true, false, Option, none, some, List, [], ◌∷◌, map, arith,
  Bool-cases,
}
use solid_ts_facts.Keys.{str_eq}
use solid_ts_facts.Keys.Order.{eq_of_str_eq}
use solid_ts_facts.Transition.Equal.{entity_facts_equal, file_fact_equal}
use solid_ts_facts.Transition.Equal.Entities.{plain_entity, entity_facts_equal-plain}
use solid_ts_facts.Transition.Equal.Files.{file_fact_equal-eq}
use solid_ts_facts.Transition.Facts.{EntityFact, FileFact, SourceDigest}
use solid_ts_facts.Transition.PathPlan.{
  PathRows, source_difference, entity_difference, file_difference, is_unchanged, if_candidate,
  is_changed, path_rows_difference,
}
use solid_ts_facts.Transition.PathPlan.Sparse.{Held, after_op, row_after_op, held_after}
use solid_ts_facts.Transition.Paths.{
  removed, CollectionOp, unchanged, replaced_by, other_op, PathOp,
}

abbrev pub held_of : PathRows → Held
held_of rows = record { source = rows.source; entities = rows.entities; file = rows.file }

-- Digests that stand for one path.
abbrev pub IsOnePath : Option SourceDigest → Option SourceDigest → Type 0
IsOnePath previous next = (a b : SourceDigest) → previous ≡ some a → next ≡ some b → a.path ≡ b.path

digest-eq : (a b : SourceDigest) → a.path ≡ b.path → str_eq a.sha256 b.sha256 ≡ true → a ≡ b
digest-eq a b p h = ground (arith, eq_of_str_eq a.sha256 b.sha256)

after-source_difference :
    (previous next : Option SourceDigest)
    → IsOnePath previous next
    → row_after_op (source_difference previous next) previous ≡ next
unfolding source_difference row_after_op
after-source_difference none none p = refl
after-source_difference (some a) none p = refl
after-source_difference none (some b) p = refl
after-source_difference (some a) (some b) p = elim (Bool-cases (str_eq a.sha256 b.sha256)) [
  | inl same ↦ rw same (ap some (digest-eq a b (p a b refl refl) same))
  | inr other ↦ rw other
]

after-file_difference :
    (previous next : Option FileFact) → row_after_op (file_difference previous next) previous ≡ next
unfolding file_difference row_after_op
after-file_difference none none = refl
after-file_difference (some a) none = refl
after-file_difference none (some b) = refl
after-file_difference (some a) (some b) = elim (Bool-cases (file_fact_equal a b)) [
  | inl same ↦ rw same (ap some (file_fact_equal-eq a b same))
  | inr other ↦ rw other
]

after-entity_difference :
    (same : List EntityFact → List EntityFact → Bool) (previous next : List EntityFact)
    → (same previous next ≡ true → map plain_entity previous ≡ map plain_entity next)
    → map plain_entity (after_op (entity_difference same previous next) [] previous)
      ≡ map plain_entity next
unfolding entity_difference after_op
after-entity_difference same [] [] p = refl
after-entity_difference same (e ∷ previous) [] p = refl
after-entity_difference same [] (e ∷ next) p = elim (Bool-cases (same [] (e ∷ next))) [
  | inl h ↦ rw h (p h)
  | inr h ↦ rw h
]
after-entity_difference same (d ∷ previous) (e ∷ next) p =
    elim (Bool-cases (same (d ∷ previous) (e ∷ next))) [ inl h ↦ rw h (p h) | inr h ↦ rw h ]

-- The operation between two rows of one path turns the first into the second: its source and file
-- become the second's, and so do its entities, in order, except that a zero may keep its sign. This
-- takes that runs are only said to be shared when they are one.
pub path_rows_difference-held :
    (shared : List EntityFact → List EntityFact → Bool) (previous next : PathRows)
    → ((l r : List EntityFact) → shared l r ≡ true → l ≡ r)
    → IsOnePath previous.source next.source
    → let after =
        held_after (path_rows_difference shared previous next true true true) (held_of previous) in
      (after.source ≡ next.source)
      × (map plain_entity after.entities ≡ map plain_entity next.entities)
      × (after.file ≡ next.file)
unfolding path_rows_difference held_after if_candidate
path_rows_difference-held shared previous next one p = (
  after-source_difference previous.source next.source p,
  after-entity_difference (λ l r. entity_facts_equal (shared l r) l r) previous.entities
      next.entities
      (entity_facts_equal-plain (shared previous.entities next.entities) previous.entities
        next.entities (one previous.entities next.entities)),
  after-file_difference previous.file next.file,
)

unchanged-row :
    {A : Type 0} (operation : CollectionOp A) (held : Option A)
    → is_unchanged operation ≡ true
    → row_after_op operation held ≡ held
unfolding is_unchanged row_after_op
unchanged-row unchanged held h = refl
unchanged-row (replaced_by row) held h = absurd cc
unchanged-row removed held h = absurd cc
unchanged-row (other_op n) held h = absurd cc

unchanged-rows :
    (operation : CollectionOp (List EntityFact)) (held : List EntityFact)
    → is_unchanged operation ≡ true
    → after_op operation [] held ≡ held
unfolding is_unchanged after_op
unchanged-rows unchanged held h = refl
unchanged-rows (replaced_by row) held h = absurd cc
unchanged-rows removed held h = absurd cc
unchanged-rows (other_op n) held h = absurd cc

-- An operation that does not count as changed changes nothing, so that it need not be sent.
pub is_changed-held :
    (operation : PathOp) (held : Held)
    → is_changed operation ≡ false
    → held_after operation held ≡ held
unfolding is_changed held_after is_unchanged
is_changed-held operation held h = ground (
  arith,
  unchanged-row operation.source_op held.source,
  unchanged-rows operation.entity_op held.entities,
  unchanged-row operation.file_op held.file,
)
