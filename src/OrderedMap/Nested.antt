-- ===== src/OrderedMap/Nested.antt =====
-- A map of maps: the value at two keys, and nested assignment.
use chronostore.Common.{
  ℕ, ◌+◌, suc, ◌<◌, ◌≡◌, refl, ap, sym, ◌∙◌, arith, ◌&&◌, Option, none, some, [], ◌∷◌, length,
  if◌then◌else◌,
}
use chronostore.Order.{Ord, is_eq}
use chronostore.OrderedMap.{Map, find, assign, IsSorted}
use chronostore.OrderedMap.Bounds.{map_ext}
use chronostore.OrderedMap.Lookup.{find-assign, assign-IsSorted, length-assign, length-assign-pos}

-- A count after a write: one more where there was no entry.
abbrev pub with_new {ℓ} : {V : Type ℓ} → Option V → ℕ → ℕ
with_new none n = suc n
with_new (some v) n = n

module _ {κ μ} {J : Type κ} {V : Type μ} where
  -- An inner map as it stands in the outer one.
  abbrev restore : Map J V → Option (Map J V)
  restore [] = none
  restore (e ∷ n) = some (e ∷ n)

  restore-some : (n : Map J V) → 0 < length n → some n ≡ restore n
  restore-some [] h = elim h [ ]
  restore-some (e ∷ n) h = refl

module _ {ℓ κ μ} {K : Type ℓ} {J : Type κ} {V : Type μ} ⦃o : Ord K⦄ ⦃p : Ord J⦄ where
  -- The inner map at `k`, or an empty one.
  unfoldable pub inner : K → Map K (Map J V) → Map J V
  inner k m = elim (find k m) [ none ↦ [] | some n ↦ n ]

  unfoldable pub nested : K → J → Map K (Map J V) → Option V
  nested k j m = find j (inner k m)

  pub find-inner :
      (k k' : K) (n : Map J V) (m : Map K (Map J V))
      → inner k' (assign k n m) ≡ (if is_eq k k' then n else inner k' m)
  unfolding inner
  find-inner k k' n m = ground (arith, find-assign k k' n m)

  pub nested-assign :
      (k k' : K) (j j' : J) (v : V) (m : Map K (Map J V))
      → nested k' j' (assign k (assign j v (inner k m)) m)
        ≡ (if is_eq k k' && is_eq j j' then some v else nested k' j' m)
  unfolding nested
  nested-assign k k' j j' v m = ground (
    arith,
    find-inner k k' (assign j v (inner k m)) m,
    find-assign j j' v (inner k m),
    o.eq_of_cmp k k',
  )

  -- The entries of all inner maps, counted.
  unfoldable pub total : Map K (Map J V) → ℕ
  total [] = 0
  total ((k, n) ∷ m) = length n + total m

  -- Sorted at both levels, with no empty inner map.
  abbrev pub IsNested : Map K (Map J V) → Type (κ ⊔ μ)
  IsNested [] = Unit
  IsNested ((k, n) ∷ m) = IsSorted n × (0 < length n) × IsNested m

  pub inner-IsSorted : (k : K) (m : Map K (Map J V)) → IsNested m → IsSorted (inner k m)
  unfolding inner find
  inner-IsSorted k [] h = tt
  inner-IsSorted k ((i, n) ∷ m) h = ground (arith, inner-IsSorted k m h.2)

  assign-IsNested :
      (k : K) (n : Map J V) (m : Map K (Map J V))
      → IsSorted n
      → 0 < length n
      → IsNested m
      → IsNested (assign k n m)
  unfolding assign
  assign-IsNested k n [] s l h = (s, l, tt)
  assign-IsNested k n ((i, w) ∷ m) s l h = ground (arith, assign-IsNested k n m s l h.2)

  pub assign_inside-IsNested :
      (k : K) (j : J) (v : V) (m : Map K (Map J V))
      → IsNested m
      → IsNested (assign k (assign j v (inner k m)) m)
  assign_inside-IsNested k j v m h =
      assign-IsNested k (assign j v (inner k m)) m
        (assign-IsSorted j v (inner k m) (inner-IsSorted k m h)) (length-assign-pos j v (inner k m))
        h

  total-assign :
      (k : K) (n : Map J V) (m : Map K (Map J V))
      → IsSorted m
      → total (assign k n m) + length (inner k m) ≡ total m + length n
  unfolding total inner assign find
  total-assign k n [] s = omega arith
  total-assign k n ((i, w) ∷ m) s = ground (arith, total-assign k n m s.1)

  -- A nested assignment adds an entry exactly where there was none.
  pub total-assign_inside :
      (k : K) (j : J) (v : V) (m : Map K (Map J V))
      → IsSorted m
      → IsNested m
      → total (assign k (assign j v (inner k m)) m) ≡ with_new (nested k j m) (total m)
  unfolding nested
  total-assign_inside k j v m s h = ground (
    arith,
    total-assign k (assign j v (inner k m)) m s,
    length-assign j v (inner k m) (inner-IsSorted k m h),
  )

  find-restore : (k : K) (m : Map K (Map J V)) → IsNested m → find k m ≡ restore (inner k m)
  unfolding find inner
  find-restore k [] h = refl
  find-restore k ((i, n) ∷ m) h = ground (arith, restore-some n h.1, find-restore k m h.2)

  -- Sorted at both levels, the maps are determined by the values at the pairs of keys.
  pub nested_ext :
      (m n : Map K (Map J V))
      → IsSorted m
      → IsSorted n
      → IsNested m
      → IsNested n
      → ((k : K) (j : J) → nested k j m ≡ nested k j n)
      → m ≡ n
  unfolding nested
  nested_ext m n s t a b h = map_ext m n s t λ k.
      find-restore k m a
      ∙ ap restore
          (map_ext (inner k m) (inner k n) (inner-IsSorted k m a) (inner-IsSorted k n b) (h k))
      ∙ sym (find-restore k n b)
