-- ===== src/Session/Interner/Dense.antt =====
-- internal/typefacts/symbol_intern.go: handles are dense and never shared.
use solid_ts_facts.Prelude.{
  ℕ, ◌+◌, ◌%◌, ◌^◌, ◌<◌, ◌≡◌, sym, ◌∙◌, inl, inr, true, none, some, ◌∷◌, arith, Bool-cases,
  Option-cases, some_inj,
}
use solid_ts_facts.Keys.{GoString, str_eq}
use solid_ts_facts.Keys.Order.{eq_of_str_eq}
use solid_ts_facts.Session.Interner.{SymbolInterner, new_symbol_interner, handle}
use solid_ts_facts.Wire.Strings.{map_get}

-- Handles are below the count, and no two IDs share one.
pub record IsInterned (n : SymbolInterner) : Type 0 where
  pub bounded : (k : GoString) (h : ℕ) → map_get n.handles k ≡ some h → h < n.count
  pub apart :
      (k l : GoString) (h : ℕ) → map_get n.handles k ≡ some h → map_get n.handles l ≡ some h → k ≡ l

pub new_symbol_interner-IsInterned : IsInterned new_symbol_interner
unfolding new_symbol_interner map_get
new_symbol_interner-IsInterned = record {
  bounded = λ k h e. absurd cc;
  apart = λ k l h e f. absurd cc;
}

-- What the interner does with an ID that it knows, and with a new one.
module _ (n : SymbolInterner) (id : GoString) where
  unfoldable pub entered : SymbolInterner
  entered = record { handles = (id, n.count) ∷ n.handles; count = n.count + 1 }

  pub data Handles : ℕ → SymbolInterner → Type 0 where
    known : (h : ℕ) → map_get n.handles id ≡ some h → Handles h n
    new : map_get n.handles id ≡ none → Handles n.count entered

  pub handle-Handles : n.count + 1 < 2 ^ 32 → Handles (handle n id).0 (handle n id).1
  unfolding handle entered
  handle-Handles room = elim (Option-cases (map_get n.handles id)) [
    | inl none_yet ↦
        let counted : (n.count + 1) % 2 ^ 32 ≡ n.count + 1 = omega arith in
        rw (handle, none_yet, counted) (new none_yet)
    | inr (h, e) ↦ rw (handle, e) (known h e)
  ]

  pub entered-IsInterned : IsInterned n → map_get n.handles id ≡ none → IsInterned entered
  unfolding entered map_get
  entered-IsInterned v none_yet = record { bounded = bounded; apart = apart }
    where
      bounded : (k : GoString) (h : ℕ) → map_get entered.handles k ≡ some h → h < entered.count
      bounded k h e = elim (Bool-cases (str_eq id k)) [
        | inl same ↦ let is : n.count ≡ h = some_inj (rw same at e) in omega arith
        | inr other ↦ let lt : h < n.count = v.bounded k h (rw other at e) in omega arith
      ]

      old : (k : GoString) → str_eq id k ≡ true → map_get entered.handles k ≡ some n.count → id ≡ k
      old k same e = eq_of_str_eq id k same

      apart :
          (k l : GoString) (h : ℕ)
          → map_get entered.handles k ≡ some h
          → map_get entered.handles l ≡ some h
          → k ≡ l
      apart k l h e f = elim (Bool-cases (str_eq id k)) [
        | inl same ↦ elim (Bool-cases (str_eq id l)) [
          | inl also ↦ sym (eq_of_str_eq id k same) ∙ eq_of_str_eq id l also
          | inr other ↦
              let is : n.count ≡ h = some_inj (rw same at e) in
              let lt : h < n.count = v.bounded l h (rw other at f) in absurd (omega arith)
        ]
        | inr other ↦ elim (Bool-cases (str_eq id l)) [
          | inl same ↦
              let is : n.count ≡ h = some_inj (rw same at f) in
              let lt : h < n.count = v.bounded k h (rw other at e) in absurd (omega arith)
          | inr also ↦ v.apart k l h (rw other at e) (rw also at f)
        ]
      ]
