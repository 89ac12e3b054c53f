-- ===== src/Prelude/Map.antt =====
-- Maps as association lists in key order. They stand for `BTreeMap`, which iterates in this order,
-- and for `HashMap`, whose order of iteration is unspecified: of the orders that it may have this
-- is one. Lookups stop at the first larger key.
use Prim.Native.Nat.{ℕ, ◌+◌, Ordering}
use Prim.Native.Nat.Ordering.{lt, eq, gt}
use mathlib.Core.Path.{◌≡◌, refl, sym, ◌∙◌}
use mathlib.Core.Logic.{◌≢◌}
use mathlib.Core.Bool.{Bool, true, false}
use mathlib.Core.Option.{Option, none, some, get_or}
use mathlib.Core.List.{List, [], ◌∷◌}
use native.Mathlib.Omega.{arith}
use windows_fileserver_heatm.Prelude.Tests.{if◌then◌else◌}
use windows_fileserver_heatm.Prelude.Lists.{sum_of, All, All-imp}
use windows_fileserver_heatm.Prelude.Order.{Ord, ◌==◌, ==_iff, ==_refl}

abbrev pub Map {ℓ κ} : Type ℓ → Type κ → Type (ℓ ⊔ κ)
Map K V = List (K × V)

module _ {ℓ κ} {K : Type ℓ} {V : Type κ} ⦃o : Ord K⦄ where
  unfoldable pub lookup : K → Map K V → Option V
  lookup k [] = none
  lookup k ((j, v) ∷ m) = elim (o.cmp k j) [ lt ↦ none | eq ↦ some v | gt ↦ lookup k m ]

  -- `*map.entry(k).or_insert(d)` changed by `f`.
  unfoldable pub modify : K → V → (V → V) → Map K V → Map K V
  modify k d f [] = (k, f d) ∷ []
  modify k d f ((j, v) ∷ m) = elim (o.cmp k j) [
    | lt ↦ (k, f d) ∷ (j, v) ∷ m
    | eq ↦ (j, f v) ∷ m
    | gt ↦ (j, v) ∷ modify k d f m
  ]

  -- `map.insert(k, v)`.
  unfoldable pub insert : K → V → Map K V → Map K V
  unfolding modify
  insert k v m = modify k v (λ _. v) m

  -- The keys ascend strictly.
  abbrev pub Ascending : Map K V → Type (ℓ ⊔ κ)
  Ascending [] = Unit
  Ascending ((k, v) ∷ m) = All {A = K × V} (λ e. o.cmp k e.0 ≡ lt) m × Ascending m

  pub lookup-modify :
      (k p : K) (d : V) (f : V → V) (m : Map K V)
      → lookup p (modify k d f m)
        ≡ (if k == p then some (f (get_or (lookup k m) d)) else lookup p m)
  unfolding lookup modify
  lookup-modify k p d f [] =
      ground (arith, o.eq_of_cmp k p, o.cmp_self k, o.lt_of_gt p k, o.gt_of_lt p k, o.eq_of_cmp p k)
  lookup-modify k p d f ((j, v) ∷ m) = ground (
    arith,
    lookup-modify k p d f m,
    o.eq_of_cmp k p,
    o.eq_of_cmp p k,
    o.eq_of_cmp k j,
    o.eq_of_cmp p j,
    o.cmp_self k,
    o.cmp_self p,
    o.lt_of_gt p k,
    o.gt_of_lt p k,
    o.lt_of_gt k p,
    o.lt_trans p k j,
  )

  pub lookup-insert :
      (k p : K) (w : V) (m : Map K V)
      → lookup p (insert k w m) ≡ (if k == p then some w else lookup p m)
  unfolding insert
  lookup-insert k p w m = lookup-modify k p w (λ _. w) m

  -- Where a value found after an insertion comes from.
  pub data InsertCases (k p : K) (w v : V) (m : Map K V) : Type (ℓ ⊔ κ) where
    at_key : k ≡ p → w ≡ v → InsertCases k p w v m
    elsewhere : (k == p) ≡ false → lookup p m ≡ some v → InsertCases k p w v m

  pub insert_cases :
      (k p : K) (w v : V) (m : Map K V) → lookup p (insert k w m) ≡ some v → InsertCases k p w v m
  insert_cases k p w v m h = by_test (k == p) refl (sym (lookup-insert k p w m) ∙ h)
    where
      by_test :
          (b : Bool)
          → (k == p) ≡ b
          → (if b then some w else lookup p m) ≡ some v
          → InsertCases k p w v m
      by_test true e r = at_key ((==_iff k p).0 e) (ground arith)
      by_test false e r = elsewhere e r

  pub insert_same : (k : K) (w : V) (m : Map K V) → lookup k (insert k w m) ≡ some w
  insert_same k w m = lookup-insert k k w m ∙ (rw (==_refl k) refl)

  pub insert_other : (k p : K) (w : V) (m : Map K V) → k ≢ p → lookup p (insert k w m) ≡ lookup p m
  insert_other k p w m away = lookup-insert k p w m ∙ by_test (k == p) refl
    where
      by_test : (b : Bool) → (k == p) ≡ b → (if b then some w else lookup p m) ≡ lookup p m
      by_test true e = absurd (away ((==_iff k p).0 e))
      by_test false e = refl

  All-modify {μ} :
      (P : K → Type μ) (k : K) (d : V) (f : V → V) (m : Map K V)
      → P k
      → All {A = K × V} (λ e. P e.0) m
      → All {A = K × V} (λ e. P e.0) (modify k d f m)
  unfolding modify
  All-modify P k d f [] pk h = (pk, tt)
  All-modify P k d f ((j, v) ∷ m) pk h =
      elim (o.cmp k j)
        as (λ r.
          All {A = K × V} (λ e. P e.0)
            (elim r [
              | lt ↦ (k, f d) ∷ (j, v) ∷ m
              | eq ↦ (j, f v) ∷ m
              | gt ↦ (j, v) ∷ modify k d f m
            ])) [ lt ↦ (pk, h) | eq ↦ h | gt ↦ (h.0, All-modify P k d f m pk h.1) ]

  modify-cases :
      (k j : K) (d v : V) (f : V → V) (m : Map K V)
      → Ascending ((j, v) ∷ m)
      → (r : Ordering) → o.cmp k j ≡ r
      → Ascending (modify k d f m)
      → Ascending
          (elim r [ lt ↦ (k, f d) ∷ (j, v) ∷ m | eq ↦ (j, f v) ∷ m | gt ↦ (j, v) ∷ modify k d f m ])
  modify-cases k j d v f m h lt e rest = (
    (
      e,
      All-imp (λ (x : K × V). o.cmp j x.0 ≡ lt) (λ x. o.cmp k x.0 ≡ lt) (λ x. o.lt_trans k j x.0 e)
          m h.0,
    ),
    h,
  )
  modify-cases k j d v f m h eq e rest = h
  modify-cases k j d v f m h gt e rest =
      (All-modify (λ x. o.cmp j x ≡ lt) k d f m (o.lt_of_gt k j e) h.0, rest)

  -- The order of the keys is kept, so no key stands twice.
  pub modify-Ascending :
      (k : K) (d : V) (f : V → V) (m : Map K V) → Ascending m → Ascending (modify k d f m)
  unfolding modify
  modify-Ascending k d f [] h = (tt, tt)
  modify-Ascending k d f ((j, v) ∷ m) h =
      modify-cases k j d v f m h (o.cmp k j) refl (modify-Ascending k d f m h.1)

  pub insert-Ascending : (k : K) (v : V) (m : Map K V) → Ascending m → Ascending (insert k v m)
  unfolding insert
  insert-Ascending k v m h = modify-Ascending k v (λ _. v) m h

  -- A key below all keys is not there.
  pub lookup_below :
      (k : K) (m : Map K V) → All {A = K × V} (λ e. o.cmp k e.0 ≡ lt) m → lookup k m ≡ none
  unfolding lookup
  lookup_below k [] h = refl
  lookup_below k ((j, v) ∷ m) h = rw (h.0, lookup) refl

  -- In a map without its first key there is nothing that is at most this key.
  pub lookup-tail :
      (k j : K) (v : V) (m : Map K V)
      → Ascending ((j, v) ∷ m)
      → lookup k ((j, v) ∷ m) ≡ (if j == k then some v else lookup k m)
  unfolding lookup
  lookup-tail k j v m h = by_order (o.cmp k j) refl
    where
      by_order :
          (r : Ordering)
          → o.cmp k j ≡ r
          → (elim r [ lt ↦ none | eq ↦ some v | gt ↦ lookup k m ])
            ≡ (if j == k then some v else lookup k m)
      by_order lt e =
          let none_below = lookup_below k m (
            All-imp (λ (x : K × V). o.cmp j x.0 ≡ lt) (λ x. o.cmp k x.0 ≡ lt)
              (λ x. o.lt_trans k j x.0 e) m h.0) in
          ground (arith, e, none_below, o.gt_of_lt k j e)
      by_order eq e = ground (arith, o.eq_of_cmp k j e, o.cmp_self k)
      by_order gt e = ground (arith, o.lt_of_gt k j e)

  -- A measure summed over the entries changes by what the one entry changes.
  pub sum_of-modify :
      (g : V → ℕ) (k : K) (d : V) (f : V → V) (m : Map K V)
      → sum_of {A = K × V} (λ e. g e.1) (modify k d f m)
          + elim (lookup k m) [ none ↦ 0 | some v ↦ g v ]
        ≡ sum_of {A = K × V} (λ e. g e.1) m + g (f (get_or (lookup k m) d))
  unfolding modify lookup
  sum_of-modify g k d f [] = omega arith
  sum_of-modify g k d f ((j, v) ∷ m) = ground (arith, sum_of-modify g k d f m)

  -- A predicate on the values, before and after the change of one.
  pub All-value-modify {μ ν} :
      (P : V → Type μ) (Q : V → Type ν) (k : K) (d : V) (f : V → V) (m : Map K V)
      → Q (f d)
      → ((v : V) → P v → Q (f v))
      → ((v : V) → P v → Q v)
      → All {A = K × V} (λ e. P e.1) m
      → All {A = K × V} (λ e. Q e.1) (modify k d f m)
  unfolding modify
  All-value-modify P Q k d f [] qd pf pq h = (qd, tt)
  All-value-modify P Q k d f ((j, v) ∷ m) qd pf pq h =
      let kept : All {A = K × V} (λ e. Q e.1) m =
        All-imp (λ (e : K × V). P e.1) (λ e. Q e.1) (λ e. pq e.1) m h.1 in
      elim (o.cmp k j)
        as (λ r.
          All {A = K × V} (λ e. Q e.1)
            (elim r [
              | lt ↦ (k, f d) ∷ (j, v) ∷ m
              | eq ↦ (j, f v) ∷ m
              | gt ↦ (j, v) ∷ modify k d f m
            ])) [
              | lt ↦ (qd, (pq v h.0, kept))
              | eq ↦ (pf v h.0, kept)
              | gt ↦ (pq v h.0, All-value-modify P Q k d f m qd pf pq h.1)
            ]

  abbrev pub NotEmpty : Map K V → Type 0
  NotEmpty [] = ⊥
  NotEmpty (e ∷ m) = Unit

  pub modify-NotEmpty : (k : K) (d : V) (f : V → V) (m : Map K V) → NotEmpty (modify k d f m)
  unfolding modify
  modify-NotEmpty k d f [] = tt
  modify-NotEmpty k d f ((j, v) ∷ m) =
      elim (o.cmp k j)
        as (λ r. NotEmpty (elim r [
          | lt ↦ (k, f d) ∷ (j, v) ∷ m
          | eq ↦ (j, f v) ∷ m
          | gt ↦ (j, v) ∷ modify k d f m
        ])) [ lt ↦ tt | eq ↦ tt | gt ↦ tt ]
