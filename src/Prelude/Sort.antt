-- ===== src/Prelude/Sort.antt =====
-- `slice::sort_by`: a stable sort by a comparison that may tie.
use Prim.Native.Nat.{ℕ, ◌+◌, Ordering}
use Prim.Native.Nat.Ordering.{lt, eq, gt}
use mathlib.Core.Path.{◌≡◌, refl}
use mathlib.Core.Bool.{Bool}
use mathlib.Core.List.{List, [], ◌∷◌, Perm}
use mathlib.Core.List.Perm
use native.Mathlib.Omega.{arith}
use windows_fileserver_heatm.Prelude.Tests.{if◌then◌else◌}
use windows_fileserver_heatm.Prelude.Order.{Ord}
use windows_fileserver_heatm.Prelude.Lists.{length, count, sum_of, All, All-imp}

-- What `sort_by` asks of its comparison: a total preorder.
pub record IsPreorder {ℓ} {A : Type ℓ} (cmp : A → A → Ordering) : Type ℓ where
  pub lt_of_gt : (a b : A) → cmp a b ≡ gt → cmp b a ≡ lt
  pub trans : (a b c : A) → ¬ (cmp a b ≡ gt) → ¬ (cmp b c ≡ gt) → ¬ (cmp a c ≡ gt)

module _ {ℓ} {A : Type ℓ} (cmp : A → A → Ordering) where
  unfoldable pub insert_by : A → List A → List A
  insert_by x [] = x ∷ []
  insert_by x (y ∷ ys) = elim (cmp x y) [ gt ↦ y ∷ insert_by x ys | _ ↦ x ∷ y ∷ ys ]

  unfoldable pub sort_by : List A → List A
  unfolding insert_by
  sort_by [] = []
  sort_by (x ∷ xs) = insert_by x (sort_by xs)

  -- Each element is at most every later one.
  abbrev pub Sorted : List A → Type ℓ
  Sorted [] = Unit
  Sorted (x ∷ xs) = All (λ y. ¬ (cmp x y ≡ gt)) xs × Sorted xs

  pub All-insert_by {κ} :
      (P : A → Type κ) (x : A) (xs : List A) → P x → All P xs → All P (insert_by x xs)
  unfolding insert_by
  All-insert_by P x [] px h = (px, tt)
  All-insert_by P x (y ∷ ys) px h =
      elim (cmp x y) as (λ o. All P (elim o [ gt ↦ y ∷ insert_by x ys | _ ↦ x ∷ y ∷ ys ])) [
        | gt ↦ (h.0, All-insert_by P x ys px h.1)
        | _ ↦ (px, h)
      ]

  pub length-insert_by : (x : A) (xs : List A) → length (insert_by x xs) ≡ length xs + 1
  unfolding insert_by
  length-insert_by x [] = omega arith
  length-insert_by x (y ∷ ys) = ground (arith, length-insert_by x ys)

  pub length-sort_by : (xs : List A) → length (sort_by xs) ≡ length xs
  unfolding sort_by
  length-sort_by [] = refl
  length-sort_by (x ∷ xs) = omega (arith, length-insert_by x (sort_by xs), length-sort_by xs)

  pub count-insert_by :
      (p : A → Bool) (x : A) (xs : List A)
      → count p (insert_by x xs) ≡ (if p x then 1 else 0) + count p xs
  unfolding insert_by
  count-insert_by p x [] = refl
  count-insert_by p x (y ∷ ys) = ground (arith, count-insert_by p x ys)

  pub count-sort_by : (p : A → Bool) (xs : List A) → count p (sort_by xs) ≡ count p xs
  unfolding sort_by
  count-sort_by p [] = refl
  count-sort_by p (x ∷ xs) = omega (arith, count-insert_by p x (sort_by xs), count-sort_by p xs)

  sum_of-insert_by :
      (f : A → ℕ) (x : A) (xs : List A) → sum_of f (insert_by x xs) ≡ f x + sum_of f xs
  unfolding insert_by
  sum_of-insert_by f x [] = refl
  sum_of-insert_by f x (y ∷ ys) = ground (arith, sum_of-insert_by f x ys)

  pub sum_of-sort_by : (f : A → ℕ) (xs : List A) → sum_of f (sort_by xs) ≡ sum_of f xs
  unfolding sort_by
  sum_of-sort_by f [] = refl
  sum_of-sort_by f (x ∷ xs) = omega (arith, sum_of-insert_by f x (sort_by xs), sum_of-sort_by f xs)

  pub All-sort_by {κ} : (P : A → Type κ) (xs : List A) → All P xs → All P (sort_by xs)
  unfolding sort_by
  All-sort_by P [] h = tt
  All-sort_by P (x ∷ xs) h = All-insert_by P x (sort_by xs) h.0 (All-sort_by P xs h.1)

  insert_by-perm : (x : A) (xs : List A) → Perm (insert_by x xs) (x ∷ xs)
  unfolding insert_by
  insert_by-perm x [] = Perm.refl _
  insert_by-perm x (y ∷ ys) =
      elim (cmp x y)
        as (λ o. Perm (elim o [ gt ↦ y ∷ insert_by x ys | _ ↦ x ∷ y ∷ ys ]) (x ∷ y ∷ ys)) [
          | gt ↦ Perm.trans (Perm.cons y (insert_by-perm x ys)) (Perm.swap x y ys)
          | _ ↦ Perm.refl _
        ]

  pub sort_by-perm : (xs : List A) → Perm (sort_by xs) xs
  unfolding sort_by
  sort_by-perm [] = Perm.refl _
  sort_by-perm (x ∷ xs) = Perm.trans (insert_by-perm x (sort_by xs)) (Perm.cons x (sort_by-perm xs))

module _ {ℓ} {A : Type ℓ} (cmp : A → A → Ordering) (pre : IsPreorder cmp) where
  below :
      (x y : A) (ys : List A)
      → Sorted cmp (y ∷ ys)
      → ¬ (cmp x y ≡ gt)
      → All (λ z. ¬ (cmp x z ≡ gt)) (y ∷ ys)
  below x y ys h n =
      (n, All-imp (λ z. ¬ (cmp y z ≡ gt)) (λ z. ¬ (cmp x z ≡ gt)) (λ z. pre.trans x y z n) ys h.0)

  -- `insert_by` at a list that is not empty, by the result of the comparison.
  insert_by-cases :
      (x y : A) (ys : List A)
      → Sorted cmp (y ∷ ys)
      → (o : Ordering) → cmp x y ≡ o
      → Sorted cmp (insert_by cmp x ys)
      → Sorted cmp (elim o [ gt ↦ y ∷ insert_by cmp x ys | _ ↦ x ∷ y ∷ ys ])
  insert_by-cases x y ys h gt e rest = (
    All-insert_by cmp (λ z. ¬ (cmp y z ≡ gt)) x ys (λ q. ground (arith, pre.lt_of_gt x y e)) h.0,
    rest,
  )
  insert_by-cases x y ys h lt e rest = (below x y ys h (λ q. cc), h)
  insert_by-cases x y ys h eq e rest = (below x y ys h (λ q. cc), h)

  insert_by-Sorted : (x : A) (xs : List A) → Sorted cmp xs → Sorted cmp (insert_by cmp x xs)
  unfolding insert_by
  insert_by-Sorted x [] h = (tt, tt)
  insert_by-Sorted x (y ∷ ys) h =
      insert_by-cases x y ys h (cmp x y) refl (insert_by-Sorted x ys h.1)

  pub sort_by-Sorted : (xs : List A) → Sorted cmp (sort_by cmp xs)
  unfolding sort_by
  sort_by-Sorted [] = tt
  sort_by-Sorted (x ∷ xs) = insert_by-Sorted x (sort_by cmp xs) (sort_by-Sorted xs)

-- Comparing by a key of a linear order is a total preorder.
pub by_key-IsPreorder {ℓ κ} :
    {A : Type ℓ} {K : Type κ} (o : Ord K) (key : A → K)
    → IsPreorder (λ (a b : A). o.cmp (key a) (key b))
by_key-IsPreorder o key = record {
  lt_of_gt = λ a b. o.lt_of_gt (key a) (key b);
  trans = λ a b c h k q. ground (
    arith,
    h,
    k,
    o.eq_of_cmp (key a) (key b),
    o.eq_of_cmp (key b) (key c),
    o.lt_trans (key a) (key b) (key c),
  );
}
