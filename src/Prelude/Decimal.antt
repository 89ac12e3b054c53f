-- ===== src/Prelude/Decimal.antt =====
-- The digits of a number tell the number.
use Prim.Native.Nat.{ℕ, zero, suc, ◌+◌, ◌*◌, ◌/◌, ◌%◌, ◌<◌, ◌≤◌}
use mathlib.Core.Path.{◌≡◌, refl, sym, ◌∙◌, ap}
use mathlib.Core.Logic.{inl, inr}
use mathlib.Core.List.{[], ◌∷◌, ◌++◌}
use native.Mathlib.Omega.{arith}
use windows_fileserver_heatm.Prelude.Tests.{ltb, Bool-cases}
use windows_fileserver_heatm.Prelude.Text.{Text, decimal_digits, decimal}

-- The number that digits stand for, after some that were read: b'0' is 48.
abbrev digits_value : ℕ → Text → ℕ
digits_value n [] = n
digits_value n (c ∷ s) = digits_value (n * 10 + c % 48) s

digits_value-append :
    (n : ℕ) (s : Text) (c : ℕ) → digits_value n (s ++ (c ∷ [])) ≡ digits_value n s * 10 + c % 48
digits_value-append n [] c = refl
digits_value-append n (d ∷ s) c = digits_value-append (n * 10 + d % 48) s c

digits_value-decimal_digits : (fuel n : ℕ) → n < fuel → digits_value 0 (decimal_digits fuel n) ≡ n
unfolding decimal_digits
digits_value-decimal_digits zero n h = absurd (omega arith)
digits_value-decimal_digits (suc fuel) n h = elim (Bool-cases (ltb n 10)) [
  | inl small ↦ let below : n < 10 = ground arith in rw small (omega arith)
  | inr large ↦
      let above : 10 ≤ n = ground arith in
      let rest = digits_value-decimal_digits fuel (n / 10) (omega arith) in
      rw large (
        digits_value-append 0 (decimal_digits fuel (n / 10)) (48 + n % 10)
        ∙ (rw rest (omega arith)))
]

-- Two numbers with the same digits are the same.
pub decimal_injective : (n m : ℕ) → decimal n ≡ decimal m → n ≡ m
unfolding decimal
decimal_injective n m e =
    sym (digits_value-decimal_digits (suc n) n (omega arith))
    ∙ ap (digits_value 0) e
    ∙ digits_value-decimal_digits (suc m) m (omega arith)
