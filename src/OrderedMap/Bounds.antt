-- ===== src/OrderedMap/Bounds.antt =====
-- Iteration: the entries from a bound, and the last entry.
use chronostore.Common.{◌≡◌, refl, sym, ap, arith, true, false, none, some}
use chronostore.Common.{[], ◌∷◌, All, if◌then◌else◌}
use mathlib.Core.Path.{subst}
use chronostore.Order.{Ord, ◌≺◌, is_lt, is_le}
use chronostore.OrderedMap.{Map, find, lower_bound, last, IsSorted}

module _ {ℓ κ} {K : Type ℓ} {V : Type κ} ⦃o : Ord K⦄ where
  -- A key at or below `j` is not among entries whose keys are above `j`.
  pub find-not_above :
      (k j : K) (m : Map K V) → is_le k j ≡ true → All (λ p. j ≺ p.0) m → find k m ≡ none
  unfolding find
  find-not_above k j [] h a = refl
  find-not_above k j (p ∷ m) h a =
      ground (arith, o.lt_trans k j p.0, o.eq_of_cmp k j, find-not_above k j m)

  find_behind :
      (k j : K) (v w : V) (m n : Map K V)
      → All (λ p. j ≺ p.0) m
      → All (λ p. j ≺ p.0) n
      → find k ((j, v) ∷ m) ≡ find k ((j, w) ∷ n)
      → find k m ≡ find k n
  find_behind k j v w m n a b h =
      let none_m = find-not_above k j m in
      let none_n = find-not_above k j n in unfold find in ground (arith, none_m, none_n)

  first_key :
      (i j : K) (v w : V) (m n : Map K V)
      → All (λ p. j ≺ p.0) n
      → find i ((i, v) ∷ m) ≡ find i ((j, w) ∷ n)
      → is_le j i ≡ true
  unfolding find
  first_key i j v w m n b h = ground (arith, o.cmp_swap i j, o.cmp_self i)

  same_first :
      (i j : K) (v w : V) (m n : Map K V)
      → i ≡ j
      → find i ((i, v) ∷ m) ≡ find i ((j, w) ∷ n)
      → v ≡ w
  unfolding find
  same_first i j v w m n e h = ground (arith, o.cmp_self i, o.cmp_self j, ap (λ x. o.cmp i x) e)

  pub map_ext : (m n : Map K V) → IsSorted m → IsSorted n → ((k : K) → find k m ≡ find k n) → m ≡ n
  unfolding find
  map_ext [] [] s t h = refl
  map_ext [] ((j, v) ∷ n) s t h = ground (arith, h j, o.cmp_self j)
  map_ext ((j, v) ∷ m) [] s t h = ground (arith, h j, o.cmp_self j)
  map_ext ((i, v) ∷ m) ((j, w) ∷ n) s t h =
      let e : i ≡ j = ground (
        arith,
        first_key i j v w m n t.0 (h i),
        first_key j i w v n m s.0 (sym (h j)),
        o.eq_of_cmp i j,
        o.cmp_swap i j,
      ) in
      let n_behind = subst (λ x. All (λ p. x ≺ p.0) n) (sym e) t.0 in
      let same = λ (k : K). subst (λ x. find k ((i, v) ∷ m) ≡ find k ((x, w) ∷ n)) (sym e) (h k) in
      let tails = map_ext m n s.1 t.1 (λ k. find_behind k i v w m n s.0 n_behind (same k)) in
      cc (e, same_first i j v w m n e (h i), tails)

  -- `lower_bound k` keeps the entries whose key is not below `k`.
  pub find-lower_bound :
      (k j : K) (m : Map K V)
      → IsSorted m
      → find j (lower_bound k m) ≡ (if is_lt j k then none else find j m)
  unfolding find lower_bound
  find-lower_bound k j [] s = ground arith
  find-lower_bound k j ((i, v) ∷ m) s = ground (
    arith,
    o.cmp_swap j i,
    o.eq_of_cmp i k,
    o.eq_of_cmp j i,
    o.cmp_swap i k,
    o.lt_trans j i k,
    o.lt_trans j k i,
    o.lt_trans i k j,
    find-lower_bound k j m s.1,
  )

  pub lower_bound-IsSorted : (k : K) (m : Map K V) → IsSorted m → IsSorted (lower_bound k m)
  unfolding lower_bound
  lower_bound-IsSorted k [] s = tt
  lower_bound-IsSorted k ((i, v) ∷ m) s = ground (arith, lower_bound-IsSorted k m s.1)

  -- The entries before the first whose key is not below `k`.
  unfoldable pub take_until : K → Map K V → Map K V
  take_until k [] = []
  take_until k ((i, v) ∷ m) = elim (is_lt i k) [ false ↦ [] | true ↦ (i, v) ∷ take_until k m ]

  pub find-take_until :
      (k j : K) (m : Map K V)
      → IsSorted m
      → find j (take_until k m) ≡ (if is_lt j k then find j m else none)
  unfolding find take_until
  find-take_until k j [] s = ground arith
  find-take_until k j ((i, v) ∷ m) s = ground (
    arith,
    o.cmp_swap j i,
    o.eq_of_cmp i k,
    o.eq_of_cmp j i,
    o.cmp_swap i k,
    o.lt_trans j i k,
    o.lt_trans k i j,
    o.lt_trans i j k,
    o.eq_of_cmp j k,
    o.cmp_swap j k,
    find-take_until k j m s.1,
    find-not_above j i m,
  )

  All-take_until :
      (P : K → Type 0) (k : K) (m : Map K V)
      → All (λ p. P p.0) m
      → All (λ p. P p.0) (take_until k m)
  unfolding take_until
  All-take_until P k [] h = tt
  All-take_until P k ((i, v) ∷ m) h = ground (arith, All-take_until P k m h.1)

  pub take_until-IsSorted : (k : K) (m : Map K V) → IsSorted m → IsSorted (take_until k m)
  unfolding take_until
  take_until-IsSorted k [] s = tt
  take_until-IsSorted k ((i, v) ∷ m) s =
      ground (arith, All-take_until (λ x. i ≺ x) k m s.0, take_until-IsSorted k m s.1)

  -- The last entry is there, and no key of the map is above its key.
  pub last-greatest :
      (m : Map K V) (k : K) (v : V)
      → IsSorted m
      → last m ≡ some (k, v)
      → (find k m ≡ some v) × ((j : K) → is_lt k j ≡ true → find j m ≡ none)
  unfolding find last
  last-greatest [] k v s h = ground arith
  last-greatest ((i, w) ∷ []) k v s h =
      (ground (arith, o.cmp_self i), λ j l. ground (arith, o.cmp_swap k j))
  last-greatest ((i, w) ∷ (i', w') ∷ m) k v s h =
      let (there, above) = last-greatest ((i', w') ∷ m) k v s.1 h in
      let not_above = find-not_above k i ((i', w') ∷ m) in
      let low : i ≺ k = ground (arith, there, not_above, o.cmp_swap k i) in
      (
        ground (arith, there, low, o.cmp_swap k i),
        λ j l. ground (
          arith,
          above j l,
          low,
          o.cmp_swap j i,
          o.lt_trans i k j,
          o.eq_of_cmp j i,
          o.cmp_swap k j,
        ),
      )

  pub last-none : (m : Map K V) → last m ≡ none → m ≡ []
  unfolding last
  last-none [] h = refl
  last-none ((i, w) ∷ []) h = cc
  last-none ((i, w) ∷ p ∷ m) h = cc (last-none (p ∷ m) h)
