-- ===== src/Keys/Search.antt =====
-- `sort.Search` of Go's library: the binary search that every lookup by key goes through.
use solid_ts_facts.Prelude.{
  ℕ, zero, suc, ◌+◌, ◌-◌, ◌/◌, ◌≤◌, ◌<◌, ◌≡◌, Bool, true, false, ltb, arith,
}

-- `for i < j { h := int(uint(i+j) >> 1); if !f(h) { i = h + 1 } else { j = h } }`, on fuel.
search_loop : ℕ → ℕ → ℕ → (ℕ → Bool) → ℕ
search_loop zero i j f = i
search_loop (suc fuel) i j f = elim (ltb i j) [
  | false ↦ i
  | true ↦ elim (f ((i + j) / 2)) [
    | true ↦ search_loop fuel i ((i + j) / 2) f
    | false ↦ search_loop fuel ((i + j) / 2 + 1) j f
  ]
]

-- The interval shrinks in every round, so `n` rounds are enough.
unfoldable pub sort_search : ℕ → (ℕ → Bool) → ℕ
unfolding search_loop
sort_search n f = search_loop n 0 n f

module _ (f : ℕ → Bool) (n r : ℕ) (before : (i : ℕ) → i < r → f i ≡ false)
    (after : (i : ℕ) → r ≤ i → i < n → f i ≡ true) where
  search_loop-first :
      (fuel i j : ℕ) → i ≤ r → r ≤ j → j ≤ n → j - i ≤ fuel → search_loop fuel i j f ≡ r
  unfolding search_loop
  search_loop-first zero i j a b c d = omega arith
  search_loop-first (suc fuel) i j a b c d =
      let mid : ℕ = (i + j) / 2 in
      ground (
        arith,
        before mid,
        after mid,
        search_loop-first fuel i mid,
        search_loop-first fuel (mid + 1) j,
      )

  -- A test that fails below `r` and holds from `r` on makes the search return `r`.
  pub sort_search-first : r ≤ n → sort_search n f ≡ r
  unfolding sort_search
  sort_search-first h = search_loop-first n 0 n (omega arith) h (omega arith) (omega arith)

search_loop-le : (fuel i j : ℕ) (f : ℕ → Bool) → i ≤ j → search_loop fuel i j f ≤ j
unfolding search_loop
search_loop-le zero i j f h = h
search_loop-le (suc fuel) i j f h =
    ground (arith, search_loop-le fuel i ((i + j) / 2) f, search_loop-le fuel ((i + j) / 2 + 1) j f)

-- The search never returns an index past the end, whatever the test.
pub sort_search-le : (n : ℕ) (f : ℕ → Bool) → sort_search n f ≤ n
unfolding sort_search
sort_search-le n f = search_loop-le n 0 n f (omega arith)
