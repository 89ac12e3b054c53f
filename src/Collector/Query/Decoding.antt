-- ===== src/Collector/Query/Decoding.antt =====
-- What percent decoding decodes, said as a relation between a text and its encoded forms.
use mathlib.Core.Path.{subst}
use windows_fileserver_heatm.Prelude.{
  ℕ, ◌+◌, ◌-◌, ◌*◌, ◌<◌, ◌≡◌, ◌≢◌, ◌↔◌, refl, sym, ◌∙◌, ap, Option, none, some, [], ◌∷◌, Bool, true,
  false, ◌&&◌, leb, if◌then◌else◌, length, ◌≤◌, inl, inr, arith,
}
use windows_fileserver_heatm.Prelude.Tests.{Bool-cases}
use windows_fileserver_heatm.Prelude.Order.{nat_ord, ◌==◌, ==_iff, ==_differ}
use windows_fileserver_heatm.Prelude.Text.{Text}
use windows_fileserver_heatm.Collector.Query.{hex_val, escaped, plus_to_space, percent_bytes}

-- A digit to the base 16 and its value, in either case.
pub data IsHexDigit : ℕ → ℕ → Type 0 where
  digit : {v : ℕ} → v < 10 → IsHexDigit v (v + b'0')
  lower : {v : ℕ} → v < 6 → IsHexDigit (v + 10) (v + b'a')
  upper : {v : ℕ} → v < 6 → IsHexDigit (v + 10) (v + b'A')

-- Two digits stand first.
pub data HasDigits : Text → Type 0 where
  has_digits : {h l a b : ℕ} {t : Text} → IsHexDigit h a → IsHexDigit l b → HasDigits (a ∷ b ∷ t)

-- The second text is a form of the first: a space is a plus, a byte is `%` and its two digits, a `%`
-- without two digits behind it stands for itself, and so does any other byte.
pub data Encodes : Text → Text → Type 0 where
  done : Encodes [] []
  plain : {c : ℕ} {s t : Text} → c ≢ b'%' → c ≢ b'+' → Encodes s t → Encodes (c ∷ s) (c ∷ t)
  space : {s t : Text} → Encodes s t → Encodes (b' ' ∷ s) (b'+' ∷ t)
  literal : {s t : Text} → ¬ HasDigits t → Encodes s t → Encodes (b'%' ∷ s) (b'%' ∷ t)
  escape :
      {h l a b : ℕ} {s t : Text}
      → IsHexDigit h a
      → IsHexDigit l b
      → Encodes s t
      → Encodes ((h * 16 + l) ∷ s) (b'%' ∷ a ∷ b ∷ t)

hex_val-IsHexDigit : {v c : ℕ} → IsHexDigit v c → hex_val c ≡ some v
hex_val-IsHexDigit (digit h) = ground arith
hex_val-IsHexDigit (lower h) = ground arith
hex_val-IsHexDigit (upper h) = ground arith

-- The byte is one of the three kinds.
data HexCases (v c : ℕ) : Type 0 where
  in_digits : v < 10 → c ≡ v + b'0' → HexCases v c
  in_lower : (w : ℕ) → w < 6 → v ≡ w + 10 → c ≡ w + b'a' → HexCases v c
  in_upper : (w : ℕ) → w < 6 → v ≡ w + 10 → c ≡ w + b'A' → HexCases v c

hex_cases : (c v : ℕ) → hex_val c ≡ some v → HexCases v c
hex_cases c v h = elim (Bool-cases (leb b'0' c && leb c b'9')) [
  | inl t ↦ in_digits (ground arith) (ground arith)
  | inr f ↦ elim (Bool-cases (leb b'a' c && leb c b'f')) [
    | inl t ↦ in_lower (c - b'a') (ground arith) (ground arith) (ground arith)
    | inr g ↦ in_upper (c - b'A') (ground arith) (ground arith) (ground arith)
  ]
]

IsHexDigit-of_cases : (c v : ℕ) → HexCases v c → IsHexDigit v c
IsHexDigit-of_cases c v (in_digits h e) = subst (IsHexDigit v) (sym e) (digit h)
IsHexDigit-of_cases c v (in_lower w h p e) =
    subst (IsHexDigit v) (sym e) (subst (λ x. IsHexDigit x (w + b'a')) (sym p) (lower h))
IsHexDigit-of_cases c v (in_upper w h p e) =
    subst (IsHexDigit v) (sym e) (subst (λ x. IsHexDigit x (w + b'A')) (sym p) (upper h))

IsHexDigit-of_hex_val : (c v : ℕ) → hex_val c ≡ some v → IsHexDigit v c
IsHexDigit-of_hex_val c v h = IsHexDigit-of_cases c v (hex_cases c v h)

-- How the bytes at the front are read: as an escape, or one byte alone.
data Front (c high low : ℕ) : Option ℕ → Type 0 where
  coded :
      {h l : ℕ}
      → c ≡ b'%'
      → IsHexDigit h high
      → IsHexDigit l low
      → Front c high low (some (h * 16 + l))
  alone : (c ≡ b'%' → (t : Text) → ¬ HasDigits (high ∷ low ∷ t)) → Front c high low none

digits_of :
    {a b : ℕ} {t : Text}
    → HasDigits (a ∷ b ∷ t)
    → (h : ℕ) × (l : ℕ) × (hex_val a ≡ some h) × (hex_val b ≡ some l)
digits_of (has_digits {h} {l} x y) = (h, l, hex_val-IsHexDigit x, hex_val-IsHexDigit y)

escaped-Front : (c high low : ℕ) → Front c high low (escaped c high low)
escaped-Front c high low = by_test (c == b'%') refl (hex_val high) refl (hex_val low) refl
  where
    by_test :
        (t : Bool)
        → (c == b'%') ≡ t
        → (oh : Option ℕ) → hex_val high ≡ oh
        → (ol : Option ℕ) → hex_val low ≡ ol
        → Front c high low (
            if t
            then elim oh [
              | none ↦ none
              | some h ↦ elim ol [ none ↦ none | some l ↦ some (h * 16 + l) ]
            ]
            else none)
    by_test false e oh f ol g = alone (λ p t d. cc (sym e ∙ (==_iff c b'%').1 p))
    by_test true e none f ol g = alone (λ p t d. let (h, l, x, y) = digits_of d in cc (sym f ∙ x))
    by_test true e (some h) f none g =
        alone (λ p t d. let (h', l, x, y) = digits_of d in cc (sym g ∙ y))
    by_test true e (some h) f (some l) g =
        coded ((==_iff c b'%').0 e) (IsHexDigit-of_hex_val high h f) (IsHexDigit-of_hex_val low l g)

-- One byte that is no escape.
Encodes-one :
    (c : ℕ) (s t : Text)
    → (c ≡ b'%' → ¬ HasDigits t)
    → Encodes s t
    → Encodes (plus_to_space c ∷ s) (c ∷ t)
Encodes-one c s t none_here rest = elim (Bool-cases (c == b'+')) [
  | inl plus ↦
      let same : b'+' ≡ c = sym ((==_iff c b'+').0 plus) in
      subst (λ x. Encodes (plus_to_space x ∷ s) (x ∷ t)) same (space rest)
  | inr other ↦ elim (Bool-cases (c == b'%')) [
    | inl percent ↦
        let same : c ≡ b'%' = (==_iff c b'%').0 percent in
        subst (λ x. Encodes (plus_to_space x ∷ s) (x ∷ t)) (sym same)
          (literal (none_here same) rest)
    | inr neither ↦ rw other (
        plain (λ p. cc (sym neither ∙ (==_iff c b'%').1 p))
          (λ p. cc (sym other ∙ (==_iff c b'+').1 p)) rest)
  ]
]

HasDigits-long : {t : Text} → HasDigits t → 2 ≤ length t
HasDigits-long (has_digits x y) = omega arith

-- Every text decodes to what it is a form of.
Encodes-percent_bytes : (t : Text) → Encodes (percent_bytes t) t
unfolding percent_bytes
Encodes-percent_bytes [] = done
Encodes-percent_bytes (c ∷ []) =
    Encodes-one c [] [] (λ p d. absurd (omega (arith, HasDigits-long d))) done
Encodes-percent_bytes (c ∷ d ∷ []) =
    Encodes-one c _ (d ∷ []) (λ p h. absurd (omega (arith, HasDigits-long h)))
      (Encodes-percent_bytes (d ∷ []))
Encodes-percent_bytes (c ∷ high ∷ low ∷ s) =
    by_front (escaped c high low) (escaped-Front c high low) (Encodes-percent_bytes s)
      (Encodes-percent_bytes (high ∷ low ∷ s))
  where
    by_front :
        (o : Option ℕ)
        → Front c high low o
        → Encodes (percent_bytes s) s
        → Encodes (percent_bytes (high ∷ low ∷ s)) (high ∷ low ∷ s)
        → Encodes
            (elim o [
              | some v ↦ v ∷ percent_bytes s
              | none ↦ plus_to_space c ∷ percent_bytes (high ∷ low ∷ s)
            ])
            (c ∷ high ∷ low ∷ s)
    by_front none (alone away) short long = Encodes-one c _ _ (λ p. away p s) long
    by_front (some _) (coded {h} {l} p x y) short long =
        subst (λ b. Encodes ((h * 16 + l) ∷ percent_bytes s) (b ∷ high ∷ low ∷ s)) (sym p)
          (escape x y short)

-- One byte that is no escape is read alone.
percent_bytes-one :
    (c : ℕ) (t : Text)
    → (c ≡ b'%' → ¬ HasDigits t)
    → percent_bytes (c ∷ t) ≡ plus_to_space c ∷ percent_bytes t
unfolding percent_bytes
percent_bytes-one c [] h = refl
percent_bytes-one c (d ∷ []) h = refl
percent_bytes-one c (high ∷ low ∷ s) h = by_front (escaped c high low) (escaped-Front c high low)
  where
    by_front :
        (o : Option ℕ)
        → Front c high low o
        → (elim o [
          | some v ↦ v ∷ percent_bytes s
          | none ↦ plus_to_space c ∷ percent_bytes (high ∷ low ∷ s)
        ])
          ≡ plus_to_space c ∷ percent_bytes (high ∷ low ∷ s)
    by_front none f = refl
    by_front (some _) (coded p x y) = absurd (h p (has_digits x y))

escaped-digits :
    (h l a b : ℕ) → hex_val a ≡ some h → hex_val b ≡ some l → escaped b'%' a b ≡ some (h * 16 + l)
escaped-digits h l a b x y = rw (x, y) refl

percent_bytes-escape :
    (h l a b : ℕ) (t : Text)
    → hex_val a ≡ some h
    → hex_val b ≡ some l
    → percent_bytes (b'%' ∷ a ∷ b ∷ t) ≡ (h * 16 + l) ∷ percent_bytes t
unfolding percent_bytes
percent_bytes-escape h l a b t x y = rw (escaped-digits h l a b x y, percent_bytes) refl

percent_bytes-Encodes : {s t : Text} → Encodes s t → percent_bytes t ≡ s
percent_bytes-Encodes done = unfold percent_bytes in refl
percent_bytes-Encodes (plain {c} {s} {t} percent plus rest) =
    percent_bytes-one c t (λ p. absurd (percent p))
    ∙ (rw (==_differ c b'+' plus) (ap (λ x. c ∷ x) (percent_bytes-Encodes rest)))
percent_bytes-Encodes (space {s} {t} rest) =
    percent_bytes-one b'+' t (λ p. absurd (omega arith))
    ∙ ap (λ x. b' ' ∷ x) (percent_bytes-Encodes rest)
percent_bytes-Encodes (literal {s} {t} away rest) =
    percent_bytes-one b'%' t (λ p. away) ∙ ap (λ x. b'%' ∷ x) (percent_bytes-Encodes rest)
percent_bytes-Encodes (escape {h} {l} {a} {b} {s} {t} x y rest) =
    percent_bytes-escape h l a b t (hex_val-IsHexDigit x) (hex_val-IsHexDigit y)
    ∙ ap (λ r. (h * 16 + l) ∷ r) (percent_bytes-Encodes rest)

-- A text decodes to exactly that text of which it is an encoded form: a plus stands for a space, `%`
-- and two digits to the base 16, in either case, stand for their byte, and every other byte, also a
-- `%` that two digits do not follow, stands for itself.
pub percent_bytes_iff : (s t : Text) → (percent_bytes t ≡ s) ↔ Encodes s t
percent_bytes_iff s t =
    (λ same. subst (λ x. Encodes x t) same (Encodes-percent_bytes t), percent_bytes-Encodes)
