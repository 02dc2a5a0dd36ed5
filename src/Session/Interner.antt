-- ===== src/Session/Interner.antt =====
-- internal/typefacts/symbol_intern.go: the interner's dense handles, and the sets of handles of one
-- generation. An int32 is its 32-bit pattern, and a handle in use is below 2 ^ 31. The set's
-- `interner` pointer is the interner that is passed beside it.
pub mod Laws
pub mod Dense
pub mod Tracked
pub mod Changed
use solid_ts_facts.Prelude.{
  ℕ, zero, suc, ◌+◌, ◌-◌, ◌*◌, ◌%◌, ◌^◌, max, Bool, true, false, Option, none, some, List, [], ◌∷◌,
  ◌++◌, ltb, if◌then◌else◌, length, get_elem?, set,
}
use solid_ts_facts.Keys.{GoString}
use solid_ts_facts.Wire.Strings.{map_get}

pub record SymbolInterner : Type 0 where
  pub handles : List (GoString × ℕ)
  pub count : ℕ

unfoldable pub new_symbol_interner : SymbolInterner
new_symbol_interner = record { handles = []; count = 0 }

unfoldable pub handle : SymbolInterner → GoString → ℕ × SymbolInterner
handle n id = elim (map_get n.handles id) [
  | some known ↦ (known, n)
  | none ↦ (n.count, record { handles = (id, n.count) ∷ n.handles; count = (n.count + 1) % 2 ^ 32 })
]

unfoldable pub lookup_handle : SymbolInterner → GoString → Option ℕ
lookup_handle n id = map_get n.handles id

pub record SymbolHandleSet : Type 0 where
  pub members : List Bool
  pub count : ℕ

unfoldable pub falses : ℕ → List Bool
falses zero = []
falses (suc n) = false ∷ falses n

-- The scratch's capacity is given by its cells; all of them are cleared.
unfoldable pub new_symbol_handle_set : SymbolInterner → List Bool → SymbolHandleSet
unfolding falses
new_symbol_handle_set n scratch = record {
  members = falses (if ltb (length scratch) n.count then n.count else length scratch);
  count = 0;
}

unfoldable pub grown : SymbolInterner → List Bool → ℕ → List Bool
unfolding falses
grown n members h =
    let next = max (max (max 64 (length members * 2)) n.count) (h + 1) in
    if ltb h (length members) then members else members ++ falses (next - length members)

add_at : SymbolHandleSet → List Bool → ℕ → Option Bool → Bool × SymbolHandleSet
add_at s members h none = (false, record s { members = members })
add_at s members h (some true) = (false, record s { members = members })
add_at s members h (some false) =
    (true, record { members = set members h true; count = s.count + 1 })

-- Whether the handle is new, and the set with it. After the set has grown, the handle has a cell.
unfoldable pub add : SymbolInterner → SymbolHandleSet → ℕ → Bool × SymbolHandleSet
unfolding grown add_at
add n s h = let members = grown n s.members h in add_at s members h (get_elem? members h)

unfoldable pub contains : SymbolHandleSet → ℕ → Bool
contains s h = elim (get_elem? s.members h) [ none ↦ false | some member ↦ member ]

unfoldable pub add_id :
    SymbolInterner → SymbolHandleSet → GoString → (Bool × SymbolHandleSet) × SymbolInterner
unfolding handle add
add_id n s id = let (h, known) = handle n id in (add known s h, known)

-- Whether an ID is in a set; unknown IDs are not interned.
unfoldable pub contains_id : SymbolInterner → SymbolHandleSet → GoString → Bool
unfolding lookup_handle contains
contains_id n s id = elim (lookup_handle n id) [ none ↦ false | some h ↦ contains s h ]

pub record ChangedSymbolSet : Type 0 where
  pub handle_set : SymbolHandleSet
  pub ids : List GoString

unfoldable pub new_changed_symbol_set : SymbolInterner → List Bool → ChangedSymbolSet
unfolding new_symbol_handle_set
new_changed_symbol_set n scratch = record { handle_set = new_symbol_handle_set n scratch; ids = [] }

-- The changed set's `add`, and the interner with the ID.
unfoldable pub add_changed :
    SymbolInterner → ChangedSymbolSet → GoString → ChangedSymbolSet × SymbolInterner
unfolding add_id
add_changed n c id =
    let ((fresh, s), known) = add_id n c.handle_set id in
    (record { handle_set = s; ids = if fresh then c.ids ++ (id ∷ []) else c.ids }, known)
