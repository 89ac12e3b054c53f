-- ===== src/Prelude/Order.antt =====
-- Rust's `Ord`: three-way comparison with its laws, and `==` as the test that it gives.
use Prim.Native.Nat.{ℕ, ◌+◌, compare, Ordering}
use Prim.Native.Nat.Ordering.{lt, eq, gt}
use mathlib.Core.Path.{◌≡◌, refl, sym}
use mathlib.Core.Logic.{◌≢◌, ◌↔◌}
use mathlib.Core.Bool.{◌&&◌, Bool, true, false}
use mathlib.Core.Option.{Option, none, some}
use mathlib.Core.List.{List, [], ◌∷◌}
use native.Mathlib.Omega.{arith}
use windows_fileserver_heatm.Prelude.Int.{ℤ, pos_part, neg_part, eq_of_parts}

-- The laws of a total order, as far as the library uses them.
pub record IsLinear {ℓ} {T : Type ℓ} (compare_by : T → T → Ordering) : Type ℓ where
  pub lt_trans : (x y z : T) → compare_by x y ≡ lt → compare_by y z ≡ lt → compare_by x z ≡ lt
  pub cmp_self : (x : T) → compare_by x x ≡ eq
  pub gt_of_lt : (x y : T) → compare_by x y ≡ lt → compare_by y x ≡ gt
  pub lt_of_gt : (x y : T) → compare_by x y ≡ gt → compare_by y x ≡ lt
  pub eq_of_cmp : (x y : T) → compare_by x y ≡ eq → x ≡ y

pub record Ord {ℓ} (T : Type ℓ) : Type ℓ where
  pub cmp : T → T → Ordering
  pub linear : IsLinear cmp
  pub open linear use *

abbrev pub is_eq : Ordering → Bool
is_eq eq = true
is_eq _ = false

infix 50 ◌==◌
abbrev pub ◌==◌ {ℓ} : {K : Type ℓ} ⦃o : Ord K⦄ → K → K → Bool
◌==◌ ⦃o⦄ a b = is_eq (o.cmp a b)

-- `Ordering::then_with`.
abbrev pub then_with : Ordering → Ordering → Ordering
then_with eq second = second
then_with first _ = first

module _ {ℓ} {K : Type ℓ} ⦃o : Ord K⦄ where
  pub ==_refl : (a : K) → (a == a) ≡ true
  ==_refl a = ground (arith, o.cmp_self a)

  pub ==_iff : (a b : K) → ((a == b) ≡ true) ↔ (a ≡ b)
  ==_iff a b = (λ h. ground (arith, o.eq_of_cmp a b), λ p. ground (arith, o.cmp_self a))

  pub ==_differ : (a b : K) → a ≢ b → (a == b) ≡ false
  ==_differ a b away = ground (arith, away, o.eq_of_cmp a b)

pub compare-IsLinear : IsLinear compare
compare-IsLinear = record {
  cmp_self = λ a. ground arith;
  eq_of_cmp = λ a b h. ground arith;
  lt_of_gt = λ a b h. ground arith;
  gt_of_lt = λ a b h. ground arith;
  lt_trans = λ a b c h k. ground arith;
}

instance abbrev pub nat_ord : Ord ℕ
nat_ord = record { cmp = compare; linear = compare-IsLinear }

abbrev pub cmp_ℤ : ℤ → ℤ → Ordering
cmp_ℤ a b = compare (pos_part a + neg_part b) (pos_part b + neg_part a)

pub cmp_ℤ-IsLinear : IsLinear cmp_ℤ
cmp_ℤ-IsLinear = record {
  cmp_self = λ a. ground arith;
  eq_of_cmp = λ a b h. eq_of_parts a b (ground arith);
  lt_of_gt = λ a b h. ground arith;
  gt_of_lt = λ a b h. ground arith;
  lt_trans = λ a b c h k. ground arith;
}

instance abbrev pub int_ord : Ord ℤ
int_ord = record { cmp = cmp_ℤ; linear = cmp_ℤ-IsLinear }

module _ {ℓ κ} {A : Type ℓ} {B : Type κ} ⦃left : Ord A⦄ ⦃right : Ord B⦄ where
  -- The derived order of a pair: the first component decides unless it ties.
  abbrev pub cmp_pair : A × B → A × B → Ordering
  cmp_pair (a, b) (c, d) = then_with (left.cmp a c) (right.cmp b d)

  cmp_self_pair : (p : A × B) → cmp_pair p p ≡ eq
  cmp_self_pair (a, b) = simp (left.cmp_self, right.cmp_self)

  eq_of_cmp_pair : (p q : A × B) → cmp_pair p q ≡ eq → p ≡ q
  eq_of_cmp_pair (a, b) (c, d) h = ground (arith, left.eq_of_cmp a c, right.eq_of_cmp b d)

  lt_of_gt_pair : (p q : A × B) → cmp_pair p q ≡ gt → cmp_pair q p ≡ lt
  lt_of_gt_pair (a, b) (c, d) h =
      ground (arith, left.eq_of_cmp a c, left.cmp_self a, left.lt_of_gt a c, right.lt_of_gt b d)

  gt_of_lt_pair : (p q : A × B) → cmp_pair p q ≡ lt → cmp_pair q p ≡ gt
  gt_of_lt_pair (a, b) (c, d) h =
      ground (arith, left.eq_of_cmp a c, left.cmp_self a, left.gt_of_lt a c, right.gt_of_lt b d)

  lt_trans_pair : (p q r : A × B) → cmp_pair p q ≡ lt → cmp_pair q r ≡ lt → cmp_pair p r ≡ lt
  lt_trans_pair (a, b) (c, d) (e, f) h k =
      ground
        (arith, left.eq_of_cmp a c, left.eq_of_cmp c e, left.lt_trans a c e, right.lt_trans b d f)

  pub cmp_pair-IsLinear : IsLinear {T = A × B} cmp_pair
  cmp_pair-IsLinear = record {
    cmp_self = cmp_self_pair;
    eq_of_cmp = eq_of_cmp_pair;
    lt_of_gt = lt_of_gt_pair;
    gt_of_lt = gt_of_lt_pair;
    lt_trans = lt_trans_pair;
  }

  instance abbrev pub pair_ord : Ord (A × B)
  pair_ord = record { cmp = cmp_pair; linear = cmp_pair-IsLinear }

  pub ==_pair : (a c : A) (b d : B) → ◌==◌ {K = A × B} (a, b) (c, d) ≡ (a == c && b == d)
  ==_pair a c b d = ground arith

module _ {ℓ} {A : Type ℓ} ⦃a : Ord A⦄ where
  -- `None` is below every `Some`.
  abbrev pub cmp_option : Option A → Option A → Ordering
  cmp_option none none = eq
  cmp_option none (some y) = lt
  cmp_option (some x) none = gt
  cmp_option (some x) (some y) = a.cmp x y

  eq_of_cmp_option : (x y : Option A) → cmp_option x y ≡ eq → x ≡ y
  eq_of_cmp_option none none h = refl
  eq_of_cmp_option none (some y) h = cc
  eq_of_cmp_option (some x) none h = cc
  eq_of_cmp_option (some x) (some y) h = cc (a.eq_of_cmp x y h)

  lt_of_gt_option : (x y : Option A) → cmp_option x y ≡ gt → cmp_option y x ≡ lt
  lt_of_gt_option none none h = cc
  lt_of_gt_option none (some y) h = cc
  lt_of_gt_option (some x) none h = refl
  lt_of_gt_option (some x) (some y) h = a.lt_of_gt x y h

  gt_of_lt_option : (x y : Option A) → cmp_option x y ≡ lt → cmp_option y x ≡ gt
  gt_of_lt_option none none h = cc
  gt_of_lt_option none (some y) h = refl
  gt_of_lt_option (some x) none h = cc
  gt_of_lt_option (some x) (some y) h = a.gt_of_lt x y h

  lt_trans_option :
      (x y z : Option A) → cmp_option x y ≡ lt → cmp_option y z ≡ lt → cmp_option x z ≡ lt
  lt_trans_option none y (some z) h k = refl
  lt_trans_option none none none h k = cc
  lt_trans_option none (some y) none h k = cc
  lt_trans_option (some x) none z h k = cc
  lt_trans_option (some x) (some y) none h k = cc
  lt_trans_option (some x) (some y) (some z) h k = a.lt_trans x y z h k

  cmp_self_option : (x : Option A) → cmp_option x x ≡ eq
  cmp_self_option none = refl
  cmp_self_option (some x) = a.cmp_self x

  pub cmp_option-IsLinear : IsLinear cmp_option
  cmp_option-IsLinear = record {
    cmp_self = cmp_self_option;
    eq_of_cmp = eq_of_cmp_option;
    lt_of_gt = lt_of_gt_option;
    gt_of_lt = gt_of_lt_option;
    lt_trans = lt_trans_option;
  }

  instance abbrev pub option_ord : Ord (Option A)
  option_ord = record { cmp = cmp_option; linear = cmp_option-IsLinear }

  -- Sequences compare lexicographically, a prefix first; on bytes this is the order of `str`.
  abbrev pub cmp_list : List A → List A → Ordering
  cmp_list [] [] = eq
  cmp_list [] (y ∷ ys) = lt
  cmp_list (x ∷ xs) [] = gt
  cmp_list (x ∷ xs) (y ∷ ys) = then_with (a.cmp x y) (cmp_list xs ys)

  cmp_self_list : (xs : List A) → cmp_list xs xs ≡ eq
  cmp_self_list [] = refl
  cmp_self_list (x ∷ xs) = simp (a.cmp_self, cmp_self_list xs)

  eq_of_cmp_list : (xs ys : List A) → cmp_list xs ys ≡ eq → xs ≡ ys
  eq_of_cmp_list [] [] h = refl
  eq_of_cmp_list [] (y ∷ ys) h = cc
  eq_of_cmp_list (x ∷ xs) [] h = cc
  eq_of_cmp_list (x ∷ xs) (y ∷ ys) h = ground (arith, a.eq_of_cmp x y, eq_of_cmp_list xs ys)

  lt_of_gt_list : (xs ys : List A) → cmp_list xs ys ≡ gt → cmp_list ys xs ≡ lt
  lt_of_gt_list [] [] h = cc
  lt_of_gt_list [] (y ∷ ys) h = cc
  lt_of_gt_list (x ∷ xs) [] h = refl
  lt_of_gt_list (x ∷ xs) (y ∷ ys) h =
      ground (arith, a.eq_of_cmp x y, a.cmp_self x, a.lt_of_gt x y, lt_of_gt_list xs ys)

  gt_of_lt_list : (xs ys : List A) → cmp_list xs ys ≡ lt → cmp_list ys xs ≡ gt
  gt_of_lt_list [] [] h = cc
  gt_of_lt_list [] (y ∷ ys) h = refl
  gt_of_lt_list (x ∷ xs) [] h = cc
  gt_of_lt_list (x ∷ xs) (y ∷ ys) h =
      ground (arith, a.eq_of_cmp x y, a.cmp_self x, a.gt_of_lt x y, gt_of_lt_list xs ys)

  lt_trans_list :
      (xs ys zs : List A) → cmp_list xs ys ≡ lt → cmp_list ys zs ≡ lt → cmp_list xs zs ≡ lt
  lt_trans_list [] [] zs h k = cc
  lt_trans_list [] (y ∷ ys) [] h k = cc
  lt_trans_list [] (y ∷ ys) (z ∷ zs) h k = refl
  lt_trans_list (x ∷ xs) [] zs h k = cc
  lt_trans_list (x ∷ xs) (y ∷ ys) [] h k = cc
  lt_trans_list (x ∷ xs) (y ∷ ys) (z ∷ zs) h k =
      ground (arith, a.eq_of_cmp x y, a.eq_of_cmp y z, a.lt_trans x y z, lt_trans_list xs ys zs)

  pub cmp_list-IsLinear : IsLinear cmp_list
  cmp_list-IsLinear = record {
    cmp_self = cmp_self_list;
    eq_of_cmp = eq_of_cmp_list;
    lt_of_gt = lt_of_gt_list;
    gt_of_lt = gt_of_lt_list;
    lt_trans = lt_trans_list;
  }

  instance abbrev pub list_ord : Ord (List A)
  list_ord = record { cmp = cmp_list; linear = cmp_list-IsLinear }

-- The same order from the top down, as in `b.cmp(a)`.
abbrev pub down {ℓ} : {K : Type ℓ} → Ord K → Ord K
down o = record {
  cmp = λ a b. o.cmp b a;
  linear = record {
    cmp_self = o.cmp_self;
    eq_of_cmp = λ a b h. sym (o.eq_of_cmp b a h);
    lt_of_gt = λ a b h. o.lt_of_gt b a h;
    gt_of_lt = λ a b h. o.gt_of_lt b a h;
    lt_trans = λ a b c h k. o.lt_trans c b a k h;
  };
}
