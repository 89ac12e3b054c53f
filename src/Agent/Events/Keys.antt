-- ===== src/Agent/Events/Keys.antt =====
-- The key of a GUID has all of its fields.
use windows_fileserver_heatm.Prelude.{
  ℕ, suc, ◌+◌, ◌*◌, ◌/◌, ◌%◌, ◌^◌, ◌<◌, ◌≡◌, refl, sym, ◌∙◌, ap, List, [], ◌∷◌, ◌++◌, length, take,
  arith,
}
use Prim.Native.Nat.{bit_or}
use mathlib.Core.List.{append_assoc, append-nil}
use mathlib.Core.Path.{subst}
use native.Mathlib.Nat.{pow-suc, mul_assoc}
use windows_fileserver_heatm.Prelude.Bits.{bit_or-fields}
use windows_fileserver_heatm.Prelude.Lists.{All}
use windows_fileserver_heatm.Prelude.Text.{Text, hex, upper_hex}
use windows_fileserver_heatm.Agent.Events.{
  Guid, from_be_bytes, to_be_bytes, guid_key, fmt_guid_key, hex_bytes, drop_two,
}

-- The fields are of their types.
pub record IsGuid (g : Guid) : Type 0 where
  pub data1 : g.data1 < 2 ^ 32
  pub data2 : g.data2 < 2 ^ 16
  pub data3 : g.data3 < 2 ^ 16
  pub bytes : All (λ b. b < 256) g.data4
  pub eight : length g.data4 ≡ 8

-- The usual text of a GUID.
abbrev pub usual_form : (ℕ → ℕ) → Guid → Text
usual_form digit g =
    hex digit 8 g.data1
    ++ b'-'
      ∷ (hex digit 4 g.data2
          ++ b'-'
            ∷ (hex digit 4 g.data3
                ++ b'-'
                  ∷ (hex_bytes digit (take 2 g.data4)
                      ++ b'-' ∷ hex_bytes digit (drop_two g.data4))))

to_be_bytes-next :
    (w n b : ℕ) → b < 256 → to_be_bytes (suc w) (n * 256 + b) ≡ to_be_bytes w n ++ b ∷ []
unfolding to_be_bytes
to_be_bytes-next w n b h =
    let front : (n * 256 + b) / 256 ≡ n = omega arith in
    let last : (n * 256 + b) % 256 ≡ b = omega arith in rw (front, last) refl

to_be_bytes-from_be_bytes :
    (w n : ℕ) (bs : List ℕ)
    → All (λ b. b < 256) bs
    → to_be_bytes (w + length bs) (from_be_bytes n bs) ≡ to_be_bytes w n ++ bs
unfolding from_be_bytes
to_be_bytes-from_be_bytes w n [] h =
    ap (λ v. to_be_bytes v n) (omega arith) ∙ sym (append-nil (to_be_bytes w n))
to_be_bytes-from_be_bytes w n (b ∷ bs) h =
    ap (λ v. to_be_bytes v (from_be_bytes (n * 256 + b) bs)) {x = w + suc (length bs)}
      {y = suc w + length bs} (omega arith)
    ∙ to_be_bytes-from_be_bytes (suc w) (n * 256 + b) bs h.1
    ∙ ap (λ t. t ++ bs) (to_be_bytes-next w n b h.0)
    ∙ append_assoc (to_be_bytes w n) (b ∷ []) bs

from_be_bytes_below :
    (m n : ℕ) (bs : List ℕ)
    → n < m
    → All (λ b. b < 256) bs
    → from_be_bytes n bs < m * 256 ^ length bs
unfolding from_be_bytes
from_be_bytes_below m n [] h bytes = omega arith
from_be_bytes_below m n (b ∷ bs) h bytes =
    let below = from_be_bytes_below (m * 256) (n * 256 + b) bs (omega (arith, bytes.0)) bytes.1 in
    subst (λ t. from_be_bytes (n * 256 + b) bs < t) (regroup m (length bs)) below
  where
    regroup : (m l : ℕ) → m * 256 * 256 ^ l ≡ m * 256 ^ suc l
    regroup m l = omega (arith, ap (λ t. m * t) (pow-suc 256 l), mul_assoc m 256 (256 ^ l))

bytes_back : (g : Guid) → IsGuid g → to_be_bytes 8 (from_be_bytes 0 g.data4) ≡ g.data4
unfolding to_be_bytes
bytes_back g h =
    ap (λ w. to_be_bytes w (from_be_bytes 0 g.data4)) {x = 8} {y = 0 + length g.data4}
      (omega (arith, h.eight))
    ∙ to_be_bytes-from_be_bytes 0 0 g.data4 h.bytes

-- The fields side by side.
abbrev packed : ℕ → ℕ → ℕ → ℕ → ℕ
packed d1 d2 d3 low = ((d1 * 2 ^ 16 + d2) * 2 ^ 16 + d3) * 2 ^ 64 + low

or_packed :
    (d1 d2 d3 low : ℕ)
    → d2 < 2 ^ 16
    → d3 < 2 ^ 16
    → low < 2 ^ 64
    → bit_or (bit_or (bit_or (d1 * 2 ^ 96) (d2 * 2 ^ 80)) (d3 * 2 ^ 64)) low ≡ packed d1 d2 d3 low
or_packed d1 d2 d3 low h2 h3 h =
    let first : bit_or (d1 * 2 ^ 96) (d2 * 2 ^ 80) ≡ (d1 * 2 ^ 16 + d2) * 2 ^ 80 =
      bit_or-fields 96 d1 (d2 * 2 ^ 80) (omega arith) ∙ omega arith in
    let second : bit_or ((d1 * 2 ^ 16 + d2) * 2 ^ 80) (d3 * 2 ^ 64)
        ≡ ((d1 * 2 ^ 16 + d2) * 2 ^ 16 + d3) * 2 ^ 64 =
      bit_or-fields 80 (d1 * 2 ^ 16 + d2) (d3 * 2 ^ 64) (omega arith) ∙ omega arith in
    ap (λ x. bit_or (bit_or x (d3 * 2 ^ 64)) low) first
    ∙ ap (λ x. bit_or x low) second
    ∙ bit_or-fields 64 ((d1 * 2 ^ 16 + d2) * 2 ^ 16 + d3) low h

-- The text of a key is the usual text of the GUID that it was made of: each field in hexadecimal, with
-- all its digits. The fields are of their types.
pub fmt_guid_key-guid_key :
    (g : Guid) → IsGuid g → fmt_guid_key (guid_key g) ≡ usual_form upper_hex g
unfolding fmt_guid_key guid_key
fmt_guid_key-guid_key g h =
    let low : from_be_bytes 0 g.data4 < 2 ^ 64 =
      subst (λ n. from_be_bytes 0 g.data4 < 1 * 256 ^ n) h.eight
        (from_be_bytes_below 1 0 g.data4 (omega arith) h.bytes) in
    let v = from_be_bytes 0 g.data4 in
    let whole = or_packed g.data1 g.data2 g.data3 v h.data2 h.data3 low in
    let d1 : packed g.data1 g.data2 g.data3 v / 2 ^ 96 % 2 ^ 32 ≡ g.data1 =
      omega (arith, h.data1, h.data2, h.data3, low) in
    let d2 : packed g.data1 g.data2 g.data3 v / 2 ^ 80 % 2 ^ 16 ≡ g.data2 =
      omega (arith, h.data2, h.data3, low) in
    let d3 : packed g.data1 g.data2 g.data3 v / 2 ^ 64 % 2 ^ 16 ≡ g.data3 =
      omega (arith, h.data3, low) in
    let d4 : packed g.data1 g.data2 g.data3 v % 2 ^ 64 ≡ v = omega (arith, low) in
    ap fmt_guid_key whole ∙ rw (d1, d2, d3, d4, bytes_back g h) refl
