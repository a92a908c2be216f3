-- ===== src/Order/Sort.antt =====
-- `std::sort`, as insertion into a sorted list. Elements that compare equal are equal here, so every
-- sorting algorithm gives this result; it does not depend on the order of the input.
use Prim.Native.Nat.Ordering.{lt}
use mathlib.Core.List.{Perm, Permᴰ}
use mathlib.Core.Logic.{∥∥₁_elim}
use chronostore.Common.{◌≡◌, refl, ◌∙◌, arith, true, List, [], ◌∷◌, All}
use chronostore.Order.{Ord, ◌≺◌, is_le}

module _ {ℓ} {A : Type ℓ} ⦃o : Ord A⦄ where
  unfoldable pub insert_sorted : A → List A → List A
  insert_sorted x [] = x ∷ []
  insert_sorted x (y ∷ ys) = elim (o.cmp y x) [ lt ↦ y ∷ insert_sorted x ys | _ ↦ x ∷ y ∷ ys ]

  unfoldable pub sort : List A → List A
  unfolding insert_sorted
  sort [] = []
  sort (x ∷ xs) = insert_sorted x (sort xs)

  -- Strictly increasing, so free of duplicates.
  abbrev pub IsStrict : List A → Type 0
  IsStrict [] = Unit
  IsStrict (x ∷ []) = Unit
  IsStrict (x ∷ y ∷ ys) = (x ≺ y) × IsStrict (y ∷ ys)

  pub insert_comm :
      (x y : A) (zs : List A)
      → insert_sorted x (insert_sorted y zs) ≡ insert_sorted y (insert_sorted x zs)
  unfolding insert_sorted
  insert_comm x y [] = ground (arith, o.eq_of_cmp x y, o.cmp_swap x y)
  insert_comm x y (z ∷ zs) = ground (
    arith,
    o.eq_of_cmp x y,
    o.cmp_swap x y,
    o.cmp_swap x z,
    o.cmp_swap y z,
    o.eq_of_cmp x z,
    o.eq_of_cmp y z,
    o.lt_trans x z y,
    o.lt_trans y z x,
    o.lt_trans z x y,
    o.lt_trans z y x,
    insert_comm x y zs,
  )

  -- A strictly increasing list is left as it is.
  pub sort-strict : (xs : List A) → IsStrict xs → sort xs ≡ xs
  unfolding sort insert_sorted
  sort-strict [] h = refl
  sort-strict (x ∷ []) h = refl
  sort-strict (x ∷ y ∷ ys) h = rw (sort-strict (y ∷ ys) h.1) (ground (arith, o.cmp_swap x y, h.0))

  -- Each element is at most the next.
  abbrev pub IsWeak : List A → Type 0
  IsWeak [] = Unit
  IsWeak (x ∷ []) = Unit
  IsWeak (x ∷ y ∷ ys) = (is_le x y ≡ true) × IsWeak (y ∷ ys)

  insert_sorted-IsWeak : (x : A) (ys : List A) → IsWeak ys → IsWeak (insert_sorted x ys)
  unfolding insert_sorted
  insert_sorted-IsWeak x [] h = tt
  insert_sorted-IsWeak x (y ∷ []) h = ground (arith, o.cmp_swap x y)
  insert_sorted-IsWeak x (y ∷ z ∷ zs) h =
      ground (arith, o.cmp_swap x y, o.cmp_swap x z, insert_sorted-IsWeak x (z ∷ zs) h.1)

  pub sort-IsWeak : (xs : List A) → IsWeak (sort xs)
  unfolding sort
  sort-IsWeak [] = tt
  sort-IsWeak (x ∷ xs) = insert_sorted-IsWeak x (sort xs) (sort-IsWeak xs)

  -- The result is the same for every arrangement of the input.
  sort-permᴰ : {xs ys : List A} → Permᴰ xs ys → sort xs ≡ sort ys
  unfolding sort
  sort-permᴰ Permᴰ.nil = refl
  sort-permᴰ (Permᴰ.cons {l₁ = l} {l₂ = m} e p) = cc (e, sort-permᴰ p)
  sort-permᴰ (Permᴰ.swap {a = a} {b = b} {a' = a'} {b' = b'} {l = l} e f) =
      rw (e, f) (insert_comm b' a' (sort l))
  sort-permᴰ (Permᴰ.trans p q) = sort-permᴰ p ∙ sort-permᴰ q

  pub sort-perm : (xs ys : List A) → IsSet (List A) → Perm xs ys → sort xs ≡ sort ys
  sort-perm xs ys is_set p = ∥∥₁_elim p (is_set (sort xs) (sort ys)) sort-permᴰ

  module _ {κ} (P : A → Type κ) where
    insert_sorted-All : (x : A) (ys : List A) → P x → All P ys → All P (insert_sorted x ys)
    unfolding insert_sorted
    insert_sorted-All x [] p h = (p, tt)
    insert_sorted-All x (y ∷ ys) p h = ground (arith, insert_sorted-All x ys p h.1)

    pub sort-All : (xs : List A) → All P xs → All P (sort xs)
    unfolding sort
    sort-All [] h = tt
    sort-All (x ∷ xs) h = insert_sorted-All x (sort xs) h.0 (sort-All xs h.1)
