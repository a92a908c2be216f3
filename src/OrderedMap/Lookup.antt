-- ===== src/OrderedMap/Lookup.antt =====
-- `find` and `assign` of an ordered map.
use chronostore.Common.{◌<◌, suc, ◌≡◌, refl, arith, false, none, some}
use chronostore.Common.{[], ◌∷◌, All, length, if◌then◌else◌}
use chronostore.Order.{Ord, ◌≺◌, is_eq}
use chronostore.OrderedMap.{Map, find, assign, IsSorted}

module _ {ℓ κ} {K : Type ℓ} {V : Type κ} ⦃o : Ord K⦄ where
  pub find-assign :
      (k j : K) (v : V) (m : Map K V)
      → find j (assign k v m) ≡ (if is_eq k j then some v else find j m)
  unfolding find assign
  find-assign k j v [] = ground (arith, o.cmp_swap k j)
  find-assign k j v ((i, w) ∷ m) = ground (
    arith,
    o.cmp_swap k j,
    o.eq_of_cmp k j,
    o.eq_of_cmp k i,
    o.eq_of_cmp j i,
    o.cmp_swap k i,
    o.lt_trans j k i,
    o.lt_trans k i j,
    find-assign k j v m,
  )

  -- Behind an entry with another key.
  pub find_behind :
      (k j : K) (v w : V) (m : Map K V)
      → find k ((j, v) ∷ m) ≡ some w
      → is_eq k j ≡ false
      → find k m ≡ some w
  unfolding find
  find_behind k j v w m h n = ground arith

  -- The same entry in front of another map.
  pub find_in_front :
      (k j : K) (v w : V) (m n : Map K V)
      → find k ((j, v) ∷ m) ≡ some w
      → (find k m ≡ some w → find k n ≡ some w)
      → find k ((j, v) ∷ n) ≡ some w
  unfolding find
  find_in_front k j v w m n h kept = ground (arith, kept)

  All-assign {μ} :
      (P : K → Type μ) (k : K) (v : V) (m : Map K V)
      → P k
      → All (λ p. P p.0) m
      → All (λ p. P p.0) (assign k v m)
  unfolding assign
  All-assign P k v [] p h = (p, tt)
  All-assign P k v ((j, w) ∷ m) p h = ground (arith, All-assign P k v m p h.1)

  All-lt : (k j : K) (m : Map K V) → k ≺ j → All (λ p. j ≺ p.0) m → All (λ p. k ≺ p.0) m
  All-lt k j [] h a = tt
  All-lt k j (p ∷ m) h a = (o.lt_trans k j p.0 h a.0, All-lt k j m h a.1)

  pub assign-IsSorted : (k : K) (v : V) (m : Map K V) → IsSorted m → IsSorted (assign k v m)
  unfolding assign
  assign-IsSorted k v [] s = (tt, tt)
  assign-IsSorted k v ((j, w) ∷ m) s = ground (
    arith,
    o.eq_of_cmp k j,
    o.cmp_swap k j,
    All-lt k j m,
    All-assign (λ x. j ≺ x) k v m,
    assign-IsSorted k v m s.1,
  )

  -- A key that is not there adds an entry.
  pub length-assign :
      (k : K) (v : V) (m : Map K V)
      → IsSorted m
      → length (assign k v m) ≡ elim (find k m) [ none ↦ suc (length m) | some w ↦ length m ]
  unfolding find assign
  length-assign k v [] s = refl
  length-assign k v ((j, w) ∷ m) s = ground (arith, length-assign k v m s.1)

  pub find-below : (k : K) (m : Map K V) → All (λ p. k ≺ p.0) m → find k m ≡ none
  unfolding find
  find-below k [] h = refl
  find-below k (p ∷ m) h = ground arith

  pub length-assign-pos : (k : K) (v : V) (m : Map K V) → 0 < length (assign k v m)
  unfolding assign
  length-assign-pos k v [] = omega arith
  length-assign-pos k v ((j, w) ∷ m) = ground arith
