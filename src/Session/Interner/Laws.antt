-- ===== src/Session/Interner/Laws.antt =====
-- What the sets of handles promise.
use solid_ts_facts.Prelude.{
  ℕ, zero, suc, ◌+◌, ◌-◌, ◌*◌, ◌≤◌, ◌<◌, max, ◌≡◌, refl, sym, ap, ◌∙◌, inl, inr, Bool, true, false,
  not, ◌||◌, Option, none, some, List, [], ◌∷◌, ◌++◌, arith, ltb, ◌==◌, if◌then◌else◌, ltb→lt,
  Bool-cases, length, get_elem?, set, length-append,
}
use solid_ts_facts.Session.Interner.{
  SymbolInterner, SymbolHandleSet, falses, grown, add, contains, add_at,
}

abbrev pub reads : List Bool → ℕ → Bool
reads members i = elim (get_elem? members i) [ none ↦ false | some member ↦ member ]

pub reads-falses : (members : List Bool) (n i : ℕ) → reads (members ++ falses n) i ≡ reads members i
unfolding falses
reads-falses [] zero i = refl
reads-falses [] (suc n) zero = refl
reads-falses [] (suc n) (suc i) = reads-falses [] n i
reads-falses (b ∷ members) n zero = refl
reads-falses (b ∷ members) n (suc i) = reads-falses members n i

length-falses : (n : ℕ) → length (falses n) ≡ n
unfolding falses
length-falses zero = refl
length-falses (suc n) = omega (arith, length-falses n)

reads-set :
    (members : List Bool) (h i : ℕ)
    → h < length members
    → reads (set members h true) i ≡ ((i == h) || reads members i)
reads-set [] h i lt = absurd (omega arith)
reads-set (b ∷ members) zero zero lt = refl
reads-set (b ∷ members) zero (suc i) lt = ground arith
reads-set (b ∷ members) (suc h) zero lt = ground arith
reads-set (b ∷ members) (suc h) (suc i) lt = ground (arith, reads-set members h i (omega arith))

reads-grown :
    (n : SymbolInterner) (members : List Bool) (h i : ℕ)
    → reads (grown n members h) i ≡ reads members i
unfolding grown
reads-grown n members h i = elim (Bool-cases (ltb h (length members))) [
  | inl within ↦ rw (grown, within) refl
  | inr past ↦ rw (grown, past) (reads-falses members _ i)
]

length-grown : (n : SymbolInterner) (members : List Bool) (h : ℕ) → h < length (grown n members h)
unfolding grown
length-grown n members h = elim (Bool-cases (ltb h (length members))) [
  | inl within ↦ rw (grown, within) (ltb→lt h (length members) within)
  | inr past ↦
      let next : ℕ = max (max (max 64 (length members * 2)) n.count) (h + 1) in
      rw (grown, past)
        (omega (
          arith,
          length-append members (falses (next - length members)),
          length-falses (next - length members),
        ))
]

reads-member :
    (members : List Bool) (i : ℕ) (b : Bool) → get_elem? members i ≡ some b → reads members i ≡ b
reads-member members i b e = ground arith

get_elem?-lt : (members : List Bool) (i : ℕ) → get_elem? members i ≡ none → length members ≤ i
get_elem?-lt [] i e = omega arith
get_elem?-lt (b ∷ members) zero e = cc
get_elem?-lt (b ∷ members) (suc i) e = omega (arith, get_elem?-lt members i e)

-- What adding a handle promises of the answer and the set.
abbrev pub Adds : SymbolHandleSet → ℕ → Bool × SymbolHandleSet → Type 0
Adds s h (fresh, after) =
    (fresh ≡ not (contains s h))
    × ((i : ℕ) → contains after i ≡ ((i == h) || contains s i))
    × (after.count ≡ (if fresh then s.count + 1 else s.count))

absorbed :
    (members : List Bool) (h i : ℕ)
    → reads members h ≡ true
    → reads members i ≡ ((i == h) || reads members i)
absorbed members h i known = elim (Bool-cases (i == h)) [
  | inl same ↦ let equal : i ≡ h = ground arith in rw same (ap (reads members) equal ∙ known)
  | inr other ↦ rw other refl
]

add_at-Adds :
    (s : SymbolHandleSet) (members : List Bool) (h : ℕ) (cell : Option Bool)
    → get_elem? members h ≡ cell
    → h < length members
    → ((i : ℕ) → reads members i ≡ reads s.members i)
    → Adds s h (add_at s members h cell)
unfolding contains add_at
add_at-Adds s members h none e room same = absurd (omega (arith, get_elem?-lt members h e))
add_at-Adds s members h (some true) e room same =
    let known : reads s.members h ≡ true = sym (same h) ∙ reads-member members h true e in
    (sym (ap not known), (λ i. same i ∙ absorbed s.members h i known), refl)
add_at-Adds s members h (some false) e room same =
    let fresh : reads s.members h ≡ false = sym (same h) ∙ reads-member members h false e in
    (sym (ap not fresh), (λ i. reads-set members h i room ∙ ap (λ b. (i == h) || b) (same i)), refl)

-- Adding a handle to a set answers whether it was not in the set, counts it if so, and leaves a set
-- that holds it and whatever was held before, however far the set had to grow.
pub add-Adds : (n : SymbolInterner) (s : SymbolHandleSet) (h : ℕ) → Adds s h (add n s h)
unfolding add
add-Adds n s h =
    add_at-Adds s (grown n s.members h) h (get_elem? (grown n s.members h) h) refl
      (length-grown n s.members h) (reads-grown n s.members h)
