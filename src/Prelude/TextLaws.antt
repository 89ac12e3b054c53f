-- ===== src/Prelude/TextLaws.antt =====
-- Laws of splitting and of the decimal digits.
use Prim.Native.Nat.{ℕ, zero, suc, ◌+◌, ◌/◌, ◌%◌, ◌≤◌}
use mathlib.Core.Path.{◌≡◌, refl, ap, subst}
use mathlib.Core.Logic.{inl, inr}
use mathlib.Core.List.{List, [], ◌∷◌}
use native.Mathlib.Omega.{arith}
use windows_fileserver_heatm.Prelude.Tests.{ltb, Bool-cases}
use windows_fileserver_heatm.Prelude.Lists.{length, take, All, All-append}
use windows_fileserver_heatm.Prelude.Order.{nat_ord, ◌==◌}
use windows_fileserver_heatm.Prelude.Text.{Text, split, extend_first, decimal, decimal_digits}

take-split_cons :
    (c : ℕ) (s p : Text) (ps rest : List Text)
    → ((q : Text) (qs : List Text) → rest ≡ q ∷ qs → take (length q) s ≡ q)
    → extend_first c rest ≡ p ∷ ps
    → take (length p) (c ∷ s) ≡ p
take-split_cons c s p ps [] ih h =
    let e : c ∷ [] ≡ p = ground arith in subst (λ t. take (length t) (c ∷ s) ≡ t) e refl
take-split_cons c s p ps (q ∷ qs) ih h =
    let e : c ∷ q ≡ p = ground arith in
    subst (λ t. take (length t) (c ∷ s) ≡ t) e (ap (λ t. c ∷ t) (ih q qs refl))

take-split_nil : (s p : Text) (ps rest : List Text) → [] ∷ rest ≡ p ∷ ps → take (length p) s ≡ p
take-split_nil s p ps rest h =
    let e : [] ≡ p = ground arith in subst (λ t. take (length t) s ≡ t) e refl

-- A text begins with the first piece of its split.
pub take-split : (b : ℕ) (s p : Text) (ps : List Text) → split b s ≡ p ∷ ps → take (length p) s ≡ p
unfolding split
take-split b [] p ps h = take-split_nil [] p ps [] h
take-split b (c ∷ s) p ps h = elim (Bool-cases (c == b)) [
  | inl hit ↦ take-split_nil (c ∷ s) p ps (split b s) (rw hit at h)
  | inr miss ↦ take-split_cons c s p ps (split b s) (take-split b s) (rw miss at h)
]

abbrev pub Digit : ℕ → Type 0
Digit c = (48 ≤ c) × (c ≤ 57)

decimal_digits-All : (fuel n : ℕ) → All Digit (decimal_digits fuel n)
unfolding decimal_digits
decimal_digits-All zero n = tt
decimal_digits-All (suc fuel) n = elim (Bool-cases (ltb n 10)) [
  | inl small ↦ rw small ((omega arith, ground arith), tt)
  | inr large ↦ rw large (
      All-append Digit (decimal_digits fuel (n / 10)) ((48 + n % 10) ∷ [])
        (decimal_digits-All fuel (n / 10)) ((omega arith, omega arith), tt))
]

-- A decimal number is written with digits alone.
pub decimal-All : (n : ℕ) → All Digit (decimal n)
unfolding decimal
decimal-All n = decimal_digits-All (suc n) n
