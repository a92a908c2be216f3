-- ===== src/Order.antt =====
-- Three-way comparison, C++'s `<=>`: an interface with its laws, and the instances that the program
-- compares by: bytes, signed integers, and sequences (`std::string`, `std::vector`) in
-- lexicographic order.
pub mod Sort
use Prim.Native.Nat.{compare, Ordering}
use Prim.Native.Nat.Ordering.{lt, eq, gt}
use chronostore.Common.{ℕ, zero, suc, ◌≡◌, refl, arith, Bool, true, false, List, [], ◌∷◌}

abbrev pub flip : Ordering → Ordering
flip lt = gt
flip eq = eq
flip gt = lt

pub record Ord {ℓ} (K : Type ℓ) : Type ℓ where
  pub cmp : K → K → Ordering
  pub cmp_self : (a : K) → cmp a a ≡ eq
  pub eq_of_cmp : (x y : K) → cmp x y ≡ eq → x ≡ y
  pub cmp_swap : (a b : K) → cmp b a ≡ flip (cmp a b)
  pub lt_trans : (low mid high : K) → cmp low mid ≡ lt → cmp mid high ≡ lt → cmp low high ≡ lt

module _ {ℓ} {K : Type ℓ} ⦃o : Ord K⦄ where
  infix 50 ◌≺◌
  abbrev pub ◌≺◌ : K → K → Type 0
  a ≺ b = o.cmp a b ≡ lt

  -- The tests `a < b`, `a <= b` and `a == b`.
  abbrev pub is_lt : K → K → Bool
  is_lt a b = elim (o.cmp a b) [ lt ↦ true | _ ↦ false ]

  abbrev pub is_le : K → K → Bool
  is_le a b = elim (o.cmp a b) [ gt ↦ false | _ ↦ true ]

  abbrev pub is_eq : K → K → Bool
  is_eq a b = elim (o.cmp a b) [ eq ↦ true | _ ↦ false ]

  pub not_lt_self : (a : K) → a ≺ a → ⊥
  not_lt_self a h = cc (o.cmp_self a)

  pub gt_of_lt : (a b : K) → a ≺ b → o.cmp b a ≡ gt
  gt_of_lt a b h = rw (o.cmp_swap a b, h)

  pub lt_of_gt : (a b : K) → o.cmp a b ≡ gt → b ≺ a
  lt_of_gt a b h = rw (o.cmp_swap a b, h)

  -- The order is total: what the negated tests say.
  pub squeezed :
      (x y z : K) → is_lt z y ≡ false → is_lt y x ≡ false → is_lt x z ≡ false → (y ≡ x) × (z ≡ x)
  squeezed x y z h k l = ground (
    arith,
    o.eq_of_cmp y x,
    o.eq_of_cmp z x,
    o.eq_of_cmp z y,
    o.cmp_swap z y,
    o.cmp_swap y x,
    o.cmp_swap x z,
    o.lt_trans x y z,
  )

  pub lt_of_above : (x y z : K) → is_lt y x ≡ false → is_le z y ≡ false → is_lt x z ≡ true
  lt_of_above x y z h k =
      ground (arith, o.eq_of_cmp y x, o.cmp_swap y x, o.cmp_swap z y, o.lt_trans x y z)

  pub lt_of_lt_ge : (x y z : K) → is_lt x y ≡ true → is_lt z y ≡ false → is_lt x z ≡ true
  lt_of_lt_ge x y z h k = ground (arith, o.eq_of_cmp z y, o.cmp_swap z y, o.lt_trans x y z)

  pub ge_of_ge : (x y z : K) → is_lt y x ≡ false → is_lt z y ≡ false → is_lt z x ≡ false
  ge_of_ge x y z h k =
      ground
        (arith, o.eq_of_cmp y x, o.eq_of_cmp z y, o.cmp_swap y x, o.cmp_swap z y, o.lt_trans z x y)

  pub is_eq-of_lt : (x y : K) → is_lt x y ≡ true → is_eq y x ≡ false
  is_eq-of_lt x y h = ground (arith, o.cmp_swap x y)

  pub ne_of_lt : (x y : K) → is_lt x y ≡ true → is_eq x y ≡ false
  ne_of_lt x y h = ground arith

  pub lt_of_ne : (x y : K) → is_lt x y ≡ false → is_eq x y ≡ false → is_lt y x ≡ true
  lt_of_ne x y h k = ground (arith, o.cmp_swap x y)

  pub not_lt_of_lt : (x y : K) → is_lt x y ≡ true → is_lt y x ≡ false
  not_lt_of_lt x y h = ground (arith, o.cmp_swap x y)

  pub not_lt_of_eq : (x y : K) → x ≡ y → is_lt x y ≡ false
  not_lt_of_eq x y h = ground (arith, o.cmp_self y)

  pub is_eq_self : (x : K) → is_eq x x ≡ true
  is_eq_self x = ground (arith, o.cmp_self x)

  pub is_eq→eq : (x y : K) → is_eq x y ≡ true → x ≡ y
  is_eq→eq x y h = ground (arith, o.eq_of_cmp x y)

-- The second comparison decides where the first is a tie.
abbrev pub then_by : Ordering → Ordering → Ordering
then_by lt second = lt
then_by eq second = second
then_by gt second = gt

pub compare_self : (a : ℕ) → compare a a ≡ eq
compare_self a = ground arith

pub compare-eq : (a b : ℕ) → compare a b ≡ eq → a ≡ b
compare-eq a b = ground arith

pub compare-swap : (a b : ℕ) → compare b a ≡ flip (compare a b)
compare-swap a b = ground arith

pub compare_trans : (a b c : ℕ) → compare a b ≡ lt → compare b c ≡ lt → compare a c ≡ lt
compare_trans a b c = ground arith

instance abbrev pub nat_ord : Ord ℕ
nat_ord = record {
  cmp = compare;
  cmp_self = compare_self;
  eq_of_cmp = compare-eq;
  cmp_swap = compare-swap;
  lt_trans = compare_trans;
}

-- A signed integer; `negsuc n` is -(n + 1).
pub data ℤ : Type 0 where
  pos : ℕ → ℤ
  negsuc : ℕ → ℤ

abbrev pub compare_ℤ : ℤ → ℤ → Ordering
compare_ℤ (pos a) (pos b) = compare a b
compare_ℤ (pos a) (negsuc b) = gt
compare_ℤ (negsuc a) (pos b) = lt
compare_ℤ (negsuc a) (negsuc b) = compare b a

pub compare_ℤ-self : (a : ℤ) → compare_ℤ a a ≡ eq
compare_ℤ-self a = ground arith

pub compare_ℤ-eq : (a b : ℤ) → compare_ℤ a b ≡ eq → a ≡ b
compare_ℤ-eq a b = ground arith

pub compare_ℤ-swap : (a b : ℤ) → compare_ℤ b a ≡ flip (compare_ℤ a b)
compare_ℤ-swap a b = ground arith

pub compare_ℤ-trans : (a b c : ℤ) → compare_ℤ a b ≡ lt → compare_ℤ b c ≡ lt → compare_ℤ a c ≡ lt
compare_ℤ-trans a b c = ground arith

instance abbrev pub int_ord : Ord ℤ
int_ord = record {
  cmp = compare_ℤ;
  cmp_self = compare_ℤ-self;
  eq_of_cmp = compare_ℤ-eq;
  cmp_swap = compare_ℤ-swap;
  lt_trans = compare_ℤ-trans;
}

module _ {ℓ} {A : Type ℓ} ⦃o : Ord A⦄ where
  abbrev pub compare_list : List A → List A → Ordering
  compare_list [] [] = eq
  compare_list [] (y ∷ ys) = lt
  compare_list (x ∷ xs) [] = gt
  compare_list (x ∷ xs) (y ∷ ys) = then_by (o.cmp x y) (compare_list xs ys)

  pub compare_list_self : (xs : List A) → compare_list xs xs ≡ eq
  compare_list_self [] = refl
  compare_list_self (x ∷ xs) = rw (o.cmp_self x, compare_list_self xs)

  pub compare_list-eq : (xs ys : List A) → compare_list xs ys ≡ eq → xs ≡ ys
  compare_list-eq [] [] h = refl
  compare_list-eq [] (y ∷ ys) h = cc
  compare_list-eq (x ∷ xs) [] h = cc
  compare_list-eq (x ∷ xs) (y ∷ ys) h = ground (arith, o.eq_of_cmp x y, compare_list-eq xs ys)

  pub compare_list-swap : (xs ys : List A) → compare_list ys xs ≡ flip (compare_list xs ys)
  compare_list-swap [] [] = refl
  compare_list-swap [] (y ∷ ys) = refl
  compare_list-swap (x ∷ xs) [] = refl
  compare_list-swap (x ∷ xs) (y ∷ ys) = ground (arith, o.cmp_swap x y, compare_list-swap xs ys)

  pub compare_list_trans :
      (xs ys zs : List A)
      → compare_list xs ys ≡ lt
      → compare_list ys zs ≡ lt
      → compare_list xs zs ≡ lt
  compare_list_trans [] ys [] h k = ground arith
  compare_list_trans [] ys (z ∷ zs) h k = refl
  compare_list_trans (x ∷ xs) [] zs h k = cc
  compare_list_trans (x ∷ xs) (y ∷ ys) [] h k = cc
  compare_list_trans (x ∷ xs) (y ∷ ys) (z ∷ zs) h k =
      ground
        (arith, o.eq_of_cmp x y, o.eq_of_cmp y z, o.lt_trans x y z, compare_list_trans xs ys zs)

  instance abbrev pub list_ord : Ord (List A)
  list_ord = record {
    cmp = compare_list;
    cmp_self = compare_list_self;
    eq_of_cmp = compare_list-eq;
    cmp_swap = compare_list-swap;
    lt_trans = compare_list_trans;
  }
