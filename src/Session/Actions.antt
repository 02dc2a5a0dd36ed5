-- ===== src/Session/Actions.antt =====
-- Go code that threads a state and returns early with an error, as functions from a state to the
-- state afterwards with a result; the state's changes up to the return stay.
use solid_ts_facts.Prelude.{◌≡◌, refl, Result, err, ok}

abbrev pub Action {ℓ κ μ} : Type ℓ → Type κ → Type μ → Type (ℓ ⊔ κ ⊔ μ)
Action S E A = S → S × Result E A

abbrev pub continue {ℓ κ μ ν} :
    {S : Type ℓ} {E : Type κ} {A : Type μ} {B : Type ν}
    → S × Result E A
    → (A → Action S E B)
    → S × Result E B
continue (s, ok a) next = next a s
continue (s, err e) next = (s, err e)

infixl 5 ◌>>=◌
abbrev pub ◌>>=◌ {ℓ κ μ ν} :
    {S : Type ℓ} {E : Type κ} {A : Type μ} {B : Type ν}
    → Action S E A
    → (A → Action S E B)
    → Action S E B
(action >>= next) s = continue (action s) next

-- An early return is the whole action's.
pub continue-ok {ℓ κ μ ν} :
    {S : Type ℓ} {E : Type κ} {A : Type μ} {B : Type ν} (r : S × Result E A)
    (next : A → Action S E B) (t : S) (b : B)
    → continue r next ≡ (t, ok b)
    → (s : S) × (a : A) × (r ≡ (s, ok a)) × (next a s ≡ (t, ok b))
continue-ok (s, ok a) next t b h = (s, a, refl, h)
continue-ok (s, err e) next t b h = absurd cc
