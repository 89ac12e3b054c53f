-- ===== src/Prelude/Lists.antt =====
-- Lists measured by native numbers, under the library's names, and Boolean folds over lists.
use Prim.Native.Nat.{ℕ, zero, suc, ◌+◌, ◌≤◌}
use mathlib.Core.Path.{◌≡◌, refl, ap}
use mathlib.Core.Bool.{Bool, true, false, ◌&&◌, ◌||◌}
use mathlib.Core.List.{List, [], ◌∷◌, ◌++◌, map}
use native.Mathlib.Omega.{arith}
use windows_fileserver_heatm.Prelude.Tests.{if◌then◌else◌, &&-true}

module _ {ℓ} {A : Type ℓ} where
  abbrev pub length : List A → ℕ
  length [] = 0
  length (x ∷ xs) = suc (length xs)

  abbrev pub take : ℕ → List A → List A
  take zero xs = []
  take (suc n) [] = []
  take (suc n) (x ∷ xs) = x ∷ take n xs

  abbrev pub drop : ℕ → List A → List A
  drop zero xs = xs
  drop (suc n) [] = []
  drop (suc n) (x ∷ xs) = drop n xs

  abbrev pub replicate : ℕ → A → List A
  replicate zero a = []
  replicate (suc n) a = a ∷ replicate n a

  -- The members that pass a test.
  abbrev pub filter_by : (A → Bool) → List A → List A
  filter_by p [] = []
  filter_by p (x ∷ xs) = let rest = filter_by p xs in if p x then x ∷ rest else rest

  -- How many members pass a test.
  abbrev pub count : (A → Bool) → List A → ℕ
  count p [] = 0
  count p (x ∷ xs) = (if p x then 1 else 0) + count p xs

  -- The sum of a measure over a list.
  abbrev pub sum_of : (A → ℕ) → List A → ℕ
  sum_of f [] = 0
  sum_of f (x ∷ xs) = f x + sum_of f xs

  abbrev pub all : (A → Bool) → List A → Bool
  all p [] = true
  all p (x ∷ xs) = p x && all p xs

  abbrev pub any : (A → Bool) → List A → Bool
  any p [] = false
  any p (x ∷ xs) = p x || any p xs

  abbrev pub All {κ} : (A → Type κ) → List A → Type κ
  All P [] = Unit
  All P (x ∷ xs) = P x × All P xs

  pub length-append : (xs ys : List A) → length (xs ++ ys) ≡ length xs + length ys
  length-append [] ys = omega arith
  length-append (x ∷ xs) ys = omega (arith, length-append xs ys)

  pub count-append : (p : A → Bool) (xs ys : List A) → count p (xs ++ ys) ≡ count p xs + count p ys
  count-append p [] ys = omega arith
  count-append p (x ∷ xs) ys = omega (arith, count-append p xs ys)

  pub sum_of-append : (f : A → ℕ) (xs ys : List A) → sum_of f (xs ++ ys) ≡ sum_of f xs + sum_of f ys
  sum_of-append f [] ys = omega arith
  sum_of-append f (x ∷ xs) ys = omega (arith, sum_of-append f xs ys)

  pub All-append {κ} : (P : A → Type κ) (xs ys : List A) → All P xs → All P ys → All P (xs ++ ys)
  All-append P [] ys hx hy = hy
  All-append P (x ∷ xs) ys hx hy = (hx.0, All-append P xs ys hx.1 hy)

  pub All-imp {κ μ} :
      (P : A → Type κ) (Q : A → Type μ)
      → ((x : A) → P x → Q x)
      → (xs : List A) → All P xs
      → All Q xs
  All-imp P Q f [] h = tt
  All-imp P Q f (x ∷ xs) h = (f x h.0, All-imp P Q f xs h.1)

  pub length-take : (n : ℕ) (xs : List A) → n ≤ length xs → length (take n xs) ≡ n
  length-take zero xs h = refl
  length-take (suc n) [] h = omega arith
  length-take (suc n) (x ∷ xs) h = ap suc (length-take n xs (omega arith))

module _ {ℓ κ} {A : Type ℓ} {B : Type κ} where
  pub length-map : (f : A → B) (xs : List A) → length (map f xs) ≡ length xs
  length-map f [] = refl
  length-map f (x ∷ xs) = ap suc (length-map f xs)

  pub count-map :
      (p : B → Bool) (f : A → B) (xs : List A) → count p (map f xs) ≡ count (λ x. p (f x)) xs
  count-map p f [] = refl
  count-map p f (x ∷ xs) = omega (arith, count-map p f xs)

  pub sum_of-map :
      (g : B → ℕ) (f : A → B) (xs : List A) → sum_of g (map f xs) ≡ sum_of (λ x. g (f x)) xs
  sum_of-map g f [] = refl
  sum_of-map g f (x ∷ xs) = omega (arith, sum_of-map g f xs)

  -- Every list of a list, joined, as `for` loops that push onto one vector do.
  abbrev pub flat_map : (A → List B) → List A → List B
  flat_map f [] = []
  flat_map f (x ∷ xs) = f x ++ flat_map f xs

  pub length-flat_map :
      (f : A → List B) (xs : List A) → length (flat_map f xs) ≡ sum_of (λ x. length (f x)) xs
  length-flat_map f [] = refl
  length-flat_map f (x ∷ xs) =
      omega (arith, length-append {κ} (f x) (flat_map f xs), length-flat_map f xs)

  pub All-flat_map {μ} :
      (P : B → Type μ) (f : A → List B) (xs : List A)
      → ((x : A) → All P (f x))
      → All P (flat_map f xs)
  All-flat_map P f [] h = tt
  All-flat_map P f (x ∷ xs) h = All-append P (f x) (flat_map f xs) (h x) (All-flat_map P f xs h)

  pub All-map {μ} :
      (P : B → Type μ) (f : A → B) (xs : List A) → ((x : A) → P (f x)) → All P (map f xs)
  All-map P f [] h = tt
  All-map P f (x ∷ xs) h = (h x, All-map P f xs h)

module _ {ℓ} {A : Type ℓ} where
  pub sum_of-All {κ} :
      (P : A → Type κ) (f g : A → ℕ) (xs : List A)
      → ((x : A) → P x → f x ≡ g x)
      → All P xs
      → sum_of f xs ≡ sum_of g xs
  sum_of-All P f g [] e h = refl
  sum_of-All P f g (x ∷ xs) e h = omega (arith, e x h.0, sum_of-All P f g xs e h.1)

  pub All-all {κ} :
      (p : A → Bool) (P : A → Type κ) (xs : List A)
      → ((x : A) → p x ≡ true → P x)
      → all p xs ≡ true
      → All P xs
  All-all p P [] f h = tt
  All-all p P (x ∷ xs) f h =
      let (here, there) = &&-true (p x) (all p xs) h in (f x here, All-all p P xs f there)

  pub count-All {κ} :
      (P : A → Type κ) (p : A → Bool) (xs : List A)
      → ((x : A) → P x → p x ≡ true)
      → All P xs
      → count p xs ≡ length xs
  count-All P p [] e h = refl
  count-All P p (x ∷ xs) e h = rw (e x h.0) (omega (arith, count-All P p xs e h.1))
