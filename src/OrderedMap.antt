-- ===== src/OrderedMap.antt =====
-- `std::map`: the entries in the order of an iteration, from the least key to the greatest.
pub mod Lookup
pub mod Bounds
pub mod Nested
use Prim.Native.Nat.Ordering.{lt, eq, gt}
use chronostore.Common.{ℕ, ◌≡◌, arith, Bool, true, false, Option, none, some, List, [], ◌∷◌, All}
use chronostore.Order.{Ord, ◌≺◌, is_lt}

abbrev pub Map {ℓ κ} : Type ℓ → Type κ → Type (ℓ ⊔ κ)
Map K V = List (K × V)

module _ {ℓ κ} {K : Type ℓ} {V : Type κ} ⦃o : Ord K⦄ where
  -- `find`: the value at the key, if there is one.
  unfoldable pub find : K → Map K V → Option V
  find k [] = none
  find k ((j, v) ∷ m) = elim (o.cmp k j) [ lt ↦ none | eq ↦ some v | gt ↦ find k m ]

  -- `m[k] = v`: a new entry at its place, or a new value for the entry that is there.
  unfoldable pub assign : K → V → Map K V → Map K V
  assign k v [] = (k, v) ∷ []
  assign k v ((j, w) ∷ m) = elim (o.cmp k j) [
    | lt ↦ (k, v) ∷ (j, w) ∷ m
    | eq ↦ (k, v) ∷ m
    | gt ↦ (j, w) ∷ assign k v m
  ]

  -- `lower_bound`: the entries from the first whose key is not below `k`.
  unfoldable pub lower_bound : K → Map K V → Map K V
  lower_bound k [] = []
  lower_bound k ((j, v) ∷ m) = elim (o.cmp j k) [ lt ↦ lower_bound k m | _ ↦ (j, v) ∷ m ]

  -- The entry before `end()`.
  unfoldable pub last : Map K V → Option (K × V)
  last [] = none
  last ((j, v) ∷ []) = some (j, v)
  last ((j, v) ∷ p ∷ m) = last (p ∷ m)

  -- Every key is below the keys of the entries behind it.
  abbrev pub IsSorted : Map K V → Type κ
  IsSorted [] = Unit
  IsSorted ((j, v) ∷ m) = All (λ p. j ≺ p.0) m × IsSorted m
