-- ===== src/Prelude/Strict.antt =====
-- Lists in strict order: a list has only one such arrangement.
use Prim.Native.Nat.{Ordering}
use Prim.Native.Nat.Ordering.{lt, eq, gt}
use mathlib.Core.Path.{◌≡◌, refl, sym, ap₂, subst}
use mathlib.Core.Logic.{◌≢◌}
use mathlib.Core.Logic.Or
use mathlib.Core.List.{
  List, [], ◌∷◌, ◌++◌, map, Mem, Perm, Pairwise, Nodup, mem-cons, mem-cons_self, mem-cons_of_mem,
  not-mem-nil, mem-map_of_mem, Nodup-cons,
}
use mathlib.Core.List.{Permᴰ, Perm-prop, perm_middle}
use mathlib.Core.Logic.{∥∥₁_elim}
use mathlib.Core.List.Pairwise
use mathlib.Core.List.Perm
use windows_fileserver_heatm.Prelude.Lists.{All, flat_map}
use windows_fileserver_heatm.Prelude.Sort.{Sorted}

module _ {ℓ} {A : Type ℓ} (A-set : IsSet A) (cmp : A → A → Ordering)
    (asym : (a b : A) → cmp a b ≡ lt → cmp b a ≢ lt) where
  abbrev pub Before : A → A → Type 0
  Before a b = cmp a b ≡ lt

  heads_eq :
      {a b : A} {l r : List A}
      → Pairwise Before (a ∷ l)
      → Pairwise Before (b ∷ r)
      → Perm (a ∷ l) (b ∷ r)
      → a ≡ b
  heads_eq {a} {b} (Pairwise.cons h _) (Pairwise.cons k _) p =
      Or.elim (A-set a b) (mem-cons.0 (Perm.subset p a mem-cons_self)) (λ e. e)
        (λ m.
          Or.elim (A-set a b) (mem-cons.0 (Perm.subset (Perm.symm p) b mem-cons_self)) (λ e. sym e)
            (λ n. absurd (asym b a (k a m) (h b n))))

  pub strict_unique : {l r : List A} → Pairwise Before l → Pairwise Before r → Perm l r → l ≡ r
  strict_unique {l = []} _ _ p = Perm.nil-eq p
  strict_unique {l = a ∷ l} {r = []} _ _ p = Perm.eq-nil p
  strict_unique {l = a ∷ l} {r = b ∷ r} sl sr p =
      let heads = heads_eq sl sr p in
      let tails = Perm.cons_inv (Perm.trans p (Perm.symm (Perm.cons' heads Perm.rfl))) in
      ap₂ ◌∷◌ heads (strict_unique {l = l} (Pairwise.of_cons sl) (Pairwise.of_cons sr) tails)

Ordering-set : IsSet Ordering
Ordering-set = hlevel

-- An order by a key, of lists whose keys differ, is strict.
module _ {ℓ κ} {A : Type ℓ} {K : Type κ} (cmp : A → A → Ordering) (key : A → K)
    (tie : (a b : A) → cmp a b ≡ eq → key a ≡ key b) where
  before_all :
      (a : A) (l : List A)
      → ((b : A) → Mem b l → key a ≢ key b)
      → All (λ b. ¬ (cmp a b ≡ gt)) l
      → (b : A) → Mem b l
      → cmp a b ≡ lt
  before_all a [] away h b m = absurd (not-mem-nil m)
  before_all a (x ∷ l) away h b m =
      Or.elim (Ordering-set (cmp a b) lt) (mem-cons.0 m)
        (λ e. subst (λ y. cmp a y ≡ lt) (sym e) (strict (cmp a x) refl h.0 (away x mem-cons_self)))
        (λ n. before_all a l (λ c k. away c (mem-cons_of_mem x k)) h.1 b n)
    where
      strict : (o : Ordering) → cmp a x ≡ o → ¬ (cmp a x ≡ gt) → key a ≢ key x → cmp a x ≡ lt
      strict lt e not_gt differ = e
      strict eq e not_gt differ = absurd (differ (tie a x e))
      strict gt e not_gt differ = absurd (not_gt e)

  pub Sorted-strict :
      (l : List A) → Sorted cmp l → Nodup (map key l) → Pairwise (λ (a b : A). cmp a b ≡ lt) l
  Sorted-strict [] h n = Pairwise.nil
  Sorted-strict (a ∷ l) h n =
      let differ = Nodup-cons.0 n in
      Pairwise.cons
        (before_all a l
          (λ b m e. differ.0 (subst (λ k. Mem k (map key l)) (sym e) (mem-map_of_mem key m))) h.0)
        (Sorted-strict l h.1 differ.1)

append_swap {ℓ} : {A : Type ℓ} (xs ys zs : List A) → Perm (xs ++ (ys ++ zs)) (ys ++ (xs ++ zs))
append_swap [] ys zs = Perm.rfl
append_swap (x ∷ xs) ys zs =
    Perm.trans (Perm.cons x (append_swap xs ys zs)) (Perm.symm (perm_middle ys (xs ++ zs)))

flat_map_permuted {ℓ κ} :
    {A : Type ℓ} {B : Type κ} (f : A → List B) {xs ys : List A}
    → Permᴰ xs ys
    → Perm (flat_map f xs) (flat_map f ys)
flat_map_permuted f Permᴰ.nil = Perm.nil
flat_map_permuted f (Permᴰ.cons {a = a} {l₁ = l} {l₂ = m} e p) =
    subst (λ x. Perm (f a ++ flat_map f l) (f x ++ flat_map f m)) e
      (Perm.append_left (f a) (flat_map_permuted f p))
flat_map_permuted f (Permᴰ.swap {a = a} {b = b} {b' = b'} {l = l} e e') =
    subst (λ x. Perm (f a ++ (f b ++ flat_map f l)) (f x ++ (f b' ++ flat_map f l))) e'
      (subst (λ y. Perm (f a ++ (f b ++ flat_map f l)) (f b ++ (f y ++ flat_map f l))) e
        (append_swap (f a) (f b) (flat_map f l)))
flat_map_permuted f (Permᴰ.trans p q) = Perm.trans (flat_map_permuted f p) (flat_map_permuted f q)

pub Perm-flat_map {ℓ κ} :
    {A : Type ℓ} {B : Type κ} (f : A → List B) {xs ys : List A}
    → Perm xs ys
    → Perm (flat_map f xs) (flat_map f ys)
Perm-flat_map f p = ∥∥₁_elim p Perm-prop (λ d. flat_map_permuted f d)
