-- ===== src/Prelude/Result.antt =====
-- Rust's `Result` with an error of type `E`, and the early return of `?`.
use mathlib.Core.Path.{◌≡◌, refl}
use mathlib.Core.Option.{Option, none, some}

pub data Result {ℓ κ} (E : Type κ) (A : Type ℓ) : Type (ℓ ⊔ κ) where
  ok : A → Result E A
  err : E → Result E A

infixl 5 ◌>>=◌
abbrev pub ◌>>=◌ {ℓ κ μ} :
    {E : Type μ} {A : Type ℓ} {B : Type κ} → Result E A → (A → Result E B) → Result E B
err e >>= next = err e
ok x >>= next = next x

-- `option.ok_or(e)`.
abbrev pub ok_or {ℓ κ} : {E : Type κ} {A : Type ℓ} → Option A → E → Result E A
ok_or (some a) e = ok a
ok_or none e = err e

-- A successful bind has a successful first part.
pub >>=-eq-ok {ℓ κ μ} :
    {E : Type μ} {A : Type ℓ} {B : Type κ}
    → (first : Result E A) → (next : A → Result E B) → {b : B} → (first >>= next) ≡ ok b
    → (x : A) × (first ≡ ok x) × (next x ≡ ok b)
>>=-eq-ok (err e) next h = cc
>>=-eq-ok (ok x) next h = (x, refl, h)

pub ok_or-eq-ok {ℓ κ} :
    {E : Type κ} {A : Type ℓ} (o : Option A) (e : E) {x : A} → ok_or o e ≡ ok x → o ≡ some x
ok_or-eq-ok none e h = cc
ok_or-eq-ok (some a) e h = cc
