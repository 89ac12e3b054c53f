-- ===== src/Prelude/Text.antt =====
-- Rust's `str` as its bytes, with the operations of the standard library that the programs use.
use Prim.Native.Nat.{ℕ, zero, suc, ◌+◌, ◌-◌, ◌/◌, ◌%◌}
use Prim.Native.Char.{code}
use Prim.Native.String.{String}
use mathlib.Core.Path.{◌≡◌, refl}
use mathlib.Core.Logic.{◌≢◌}
use mathlib.Core.Bool.{Bool, true, false, ◌&&◌, ◌||◌}
use mathlib.Core.Option.{Option, none, some}
use mathlib.Core.List.{List, [], ◌∷◌, ◌++◌}
use native.Mathlib.Omega.{arith}
use windows_fileserver_heatm.Prelude.Tests.{ltb, leb, if◌then◌else◌}
use windows_fileserver_heatm.Prelude.Lists.{length, length-append, All, replicate}
use windows_fileserver_heatm.Prelude.Int.{ℤ, pos, negsuc}
use windows_fileserver_heatm.Prelude.Order.{nat_ord, list_ord, ◌==◌}

abbrev pub Text : Type 0
Text = List ℕ

-- The bytes of an ASCII literal.
abbrev pub text : String → Text
text String.[] = []
text (String.◌∷◌ c s) = code c ∷ text s

-- One more byte in front of the first piece.
abbrev pub extend_first : ℕ → List Text → List Text
extend_first c [] = (c ∷ []) ∷ []
extend_first c (p ∷ ps) = (c ∷ p) ∷ ps

-- `text.split(byte)`: at least one piece, and no piece holds the byte.
unfoldable pub split : ℕ → Text → List Text
split b [] = [] ∷ []
split b (c ∷ s) = let rest = split b s in if c == b then [] ∷ rest else extend_first c rest

-- `text.split_once(byte)`.
unfoldable pub split_once : ℕ → Text → Option (Text × Text)
split_once b [] = none
split_once b (c ∷ s) =
    let rest = split_once b s in
    if c == b then some ([], s) else elim rest [ none ↦ none | some (l, r) ↦ some (c ∷ l, r) ]

-- `text.starts_with(prefix)`.
abbrev pub starts_with : Text → Text → Bool
starts_with s [] = true
starts_with [] (p ∷ ps) = false
starts_with (c ∷ s) (p ∷ ps) = c == p && starts_with s ps

abbrev pub is_empty : Text → Bool
is_empty [] = true
is_empty _ = false

pub last_piece : List Text → Text
last_piece [] = []
last_piece (p ∷ []) = p
last_piece (p ∷ q ∷ ps) = last_piece (q ∷ ps)

-- `text.rsplit(byte).next()`: what follows the last occurrence of the byte.
unfoldable pub after_last : ℕ → Text → Text
unfolding split last_piece
after_last b s = last_piece (split b s)

abbrev pub ends_with_byte : ℕ → Text → Bool
ends_with_byte b [] = false
ends_with_byte b (c ∷ []) = c == b
ends_with_byte b (c ∷ d ∷ s) = ends_with_byte b (d ∷ s)

-- `to_ascii_uppercase`, byte by byte.
abbrev pub ascii_upper : ℕ → ℕ
ascii_upper c = if leb b'a' c && leb c b'z' then c - 32 else c

abbrev pub is_ascii_lowercase : ℕ → Bool
is_ascii_lowercase c = leb b'a' c && leb c b'z'

abbrev pub is_ascii_digit : ℕ → Bool
is_ascii_digit c = leb b'0' c && leb c b'9'

abbrev pub is_ascii_hexdigit : ℕ → Bool
is_ascii_hexdigit c = is_ascii_digit c || (leb b'a' c && leb c b'f') || (leb b'A' c && leb c b'F')

-- `{:>n}` with a fill byte: at least n bytes, the text at the right end.
abbrev pub pad_left : ℕ → ℕ → Text → Text
pad_left fill n s = replicate (n - length s) fill ++ s

-- Decimal digits, `fuel` of them at most; a number below 2 ^ fuel needs no more.
unfoldable pub decimal_digits : ℕ → ℕ → Text
decimal_digits zero n = []
decimal_digits (suc fuel) n =
    let rest = decimal_digits fuel (n / 10) in
    if ltb n 10 then (48 + n) ∷ [] else rest ++ ((48 + n % 10) ∷ [])

-- `to_string` of an unsigned number. The fuel is enough: each round divides by ten.
unfoldable pub decimal : ℕ → Text
unfolding decimal_digits
decimal n = decimal_digits (suc n) n

-- `to_string` of a signed number.
unfoldable pub decimal_ℤ : ℤ → Text
unfolding decimal
decimal_ℤ (pos n) = decimal n
decimal_ℤ (negsuc n) = b'-' ∷ decimal (suc n)

abbrev pub upper_hex : ℕ → ℕ
upper_hex d = if ltb d 10 then 48 + d else 55 + d

abbrev pub lower_hex : ℕ → ℕ
lower_hex d = if ltb d 10 then 48 + d else 87 + d

-- `{:0wX}` of a number below 16 ^ w: exactly w digits.
unfoldable pub hex : (ℕ → ℕ) → ℕ → ℕ → Text
hex digit zero n = []
hex digit (suc w) n = hex digit w (n / 16) ++ (digit (n % 16) ∷ [])

pub length-hex : (digit : ℕ → ℕ) (w n : ℕ) → length (hex digit w n) ≡ w
unfolding hex
length-hex digit zero n = refl
length-hex digit (suc w) n = omega (
  arith,
  length-append {0} (hex digit w (n / 16)) (digit (n % 16) ∷ []),
  length-hex digit w (n / 16),
)

-- A byte that does not stand in a text.
abbrev pub Free : ℕ → Text → Type 0
Free b = All (λ c. c ≢ b)

pub split-append : (b : ℕ) (p s : Text) → Free b p → split b (p ++ b ∷ s) ≡ p ∷ split b s
unfolding split
split-append b [] s h = ground arith
split-append b (c ∷ p) s h = let away : c ≢ b = h.0 in rw (split-append b p s h.1) (ground arith)

pub split-Free : (b : ℕ) (p : Text) → Free b p → split b p ≡ p ∷ []
unfolding split
split-Free b [] h = refl
split-Free b (c ∷ p) h = let away : c ≢ b = h.0 in rw (split-Free b p h.1) (ground arith)

-- Texts joined, as `format!` and repeated `push_str` do.
abbrev pub cat : List Text → Text
cat [] = []
cat (p ∷ ps) = p ++ cat ps

abbrev pub newline : ℕ
newline = 10

abbrev pub backslash : ℕ
backslash = 92

-- `parts.join(sep)`.
abbrev pub join : Text → List Text → Text
join sep [] = []
join sep (p ∷ []) = p
join sep (p ∷ q ∷ ps) = p ++ (sep ++ join sep (q ∷ ps))
