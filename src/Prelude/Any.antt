-- ===== src/Prelude/Any.antt =====
-- Whether some member of a list passes a test, for the functions on lists and maps that the modules
-- share.
use Prim.Native.Nat.{Ordering}
use mathlib.Core.Path.{◌≡◌, refl, ◌∙◌, ap}
use mathlib.Core.Bool.{Bool, true, ◌||◌}
use mathlib.Core.List.{List, [], ◌∷◌, ◌++◌, map}
use native.Mathlib.Omega.{arith}
use windows_fileserver_heatm.Prelude.Lists.{any, flat_map}
use windows_fileserver_heatm.Prelude.Map.{Map, modify}
use windows_fileserver_heatm.Prelude.Order.{Ord}
use windows_fileserver_heatm.Prelude.Sort.{insert_by, sort_by}

module _ {ℓ} {A : Type ℓ} where
  pub any-append : (p : A → Bool) (xs ys : List A) → any p (xs ++ ys) ≡ any p xs || any p ys
  any-append p [] ys = refl
  any-append p (x ∷ xs) ys = ground (arith, any-append p xs ys)

  pub any-imp :
      (p q : A → Bool)
      → ((x : A) → p x ≡ true → q x ≡ true)
      → (xs : List A) → any p xs ≡ true
      → any q xs ≡ true
  any-imp p q h [] t = t
  any-imp p q h (x ∷ xs) t = ground (arith, h x, any-imp p q h xs)

  any-insert_by :
      (cmp : A → A → Ordering) (p : A → Bool) (x : A) (xs : List A)
      → any p (insert_by cmp x xs) ≡ p x || any p xs
  unfolding insert_by
  any-insert_by cmp p x [] = refl
  any-insert_by cmp p x (y ∷ ys) = ground (arith, any-insert_by cmp p x ys)

  pub any-sort_by :
      (cmp : A → A → Ordering) (p : A → Bool) (xs : List A) → any p (sort_by cmp xs) ≡ any p xs
  unfolding sort_by
  any-sort_by cmp p [] = refl
  any-sort_by cmp p (x ∷ xs) =
      any-insert_by cmp p x (sort_by cmp xs) ∙ ap (λ b. p x || b) (any-sort_by cmp p xs)

module _ {ℓ κ} {A : Type ℓ} {B : Type κ} where
  pub any-flat_map :
      (p : B → Bool) (f : A → List B) (xs : List A)
      → any p (flat_map f xs) ≡ any (λ x. any p (f x)) xs
  any-flat_map p f [] = refl
  any-flat_map p f (x ∷ xs) =
      any-append p (f x) (flat_map f xs) ∙ ap (λ b. any p (f x) || b) (any-flat_map p f xs)

  pub any-map : (p : B → Bool) (f : A → B) (xs : List A) → any p (map f xs) ≡ any (λ x. p (f x)) xs
  any-map p f [] = refl
  any-map p f (x ∷ xs) = ap (λ b. p (f x) || b) (any-map p f xs)

module _ {ℓ κ} {K : Type ℓ} {V : Type κ} ⦃o : Ord K⦄ where
  -- A change that keeps the test of each value keeps that some entry passes.
  pub any-modify :
      (p : K × V → Bool) (k : K) (d : V) (f : V → V)
      → ((j : K) (v : V) → p (j, v) ≡ true → p (j, f v) ≡ true)
      → (m : Map K V) → any p m ≡ true
      → any p (modify k d f m) ≡ true
  unfolding modify
  any-modify p k d f h [] t = ground arith
  any-modify p k d f h ((j, v) ∷ m) t = ground (arith, h j v, any-modify p k d f h m)
