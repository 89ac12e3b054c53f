-- ===== src/Agent/RunId/Accepted.antt =====
-- The run ids that the agent mints pass the collector's validation.
use windows_fileserver_heatm.Prelude.{
  ℕ, zero, suc, ◌*◌, ◌/◌, ◌%◌, ◌<◌, ◌≡◌, ◌≢◌, refl, List, [], ◌∷◌, ◌++◌, true, length,
  length-append, all, take, arith,
}
use windows_fileserver_heatm.Prelude.Lists.{All, All-append, All-imp}
use windows_fileserver_heatm.Prelude.Order.{nat_ord, ==_iff}
use windows_fileserver_heatm.Prelude.Text.{
  Text, hex, lower_hex, length-hex, Free, split, split-append, split-Free, is_ascii_hexdigit,
}
use windows_fileserver_heatm.Agent.Events.{Guid, hex_bytes, drop_two}
use windows_fileserver_heatm.Agent.RunId.{mint_run_id}
use windows_fileserver_heatm.Collector.Ingest.{is_valid_uuid, group_ok}

-- A lower-case hexadecimal digit.
abbrev IsHex : ℕ → Type 0
IsHex c = (is_ascii_hexdigit c ≡ true) × (c ≢ b'-')

lower_hex-IsHex : (d : ℕ) → d < 16 → IsHex (lower_hex d)
lower_hex-IsHex d h = (ground arith, λ e. ground arith)

hex-IsHex : (w n : ℕ) → All IsHex (hex lower_hex w n)
unfolding hex
hex-IsHex zero n = tt
hex-IsHex (suc w) n =
    All-append IsHex (hex lower_hex w (n / 16)) (lower_hex (n % 16) ∷ []) (hex-IsHex w (n / 16))
      (lower_hex-IsHex (n % 16) (omega arith), tt)

hex_bytes-IsHex : (bytes : List ℕ) → All IsHex (hex_bytes lower_hex bytes)
hex_bytes-IsHex [] = tt
hex_bytes-IsHex (b ∷ bytes) =
    All-append IsHex (hex lower_hex 2 b) (hex_bytes lower_hex bytes) (hex-IsHex 2 b)
      (hex_bytes-IsHex bytes)

length-hex_bytes : (bytes : List ℕ) → length (hex_bytes lower_hex bytes) ≡ 2 * length bytes
length-hex_bytes [] = refl
length-hex_bytes (b ∷ bytes) = omega (
  arith,
  length-append (hex lower_hex 2 b) (hex_bytes lower_hex bytes),
  length-hex lower_hex 2 b,
  length-hex_bytes bytes,
)

all-IsHex : (p : Text) → All IsHex p → all is_ascii_hexdigit p ≡ true
all-IsHex [] h = refl
all-IsHex (c ∷ p) h = let here : is_ascii_hexdigit c ≡ true = h.0.0 in rw here (all-IsHex p h.1)

Free-IsHex : (p : Text) → All IsHex p → Free b'-' p
Free-IsHex p h = All-imp IsHex (λ c. c ≢ b'-') (λ c. λ (d : IsHex c). d.1) p h

group_ok-IsHex : (p : Text) (n : ℕ) → All IsHex p → length p ≡ n → group_ok p n ≡ true
group_ok-IsHex p n h e = let same = (==_iff (length p) n).1 e in rw (same, all-IsHex p h) refl

uuid_parts :
    (p q r s t : Text)
    → All IsHex p
    → All IsHex q
    → All IsHex r
    → All IsHex s
    → All IsHex t
    → split b'-' (p ++ b'-' ∷ (q ++ b'-' ∷ (r ++ b'-' ∷ (s ++ b'-' ∷ t)))) ≡ p ∷ q ∷ r ∷ s ∷ t ∷ []
uuid_parts p q r s t hp hq hr hs ht =
    rw
      (
        split-append b'-' p (q ++ b'-' ∷ (r ++ b'-' ∷ (s ++ b'-' ∷ t))) (Free-IsHex p hp),
        split-append b'-' q (r ++ b'-' ∷ (s ++ b'-' ∷ t)) (Free-IsHex q hq),
        split-append b'-' r (s ++ b'-' ∷ t) (Free-IsHex r hr),
        split-append b'-' s t (Free-IsHex s hs),
        split-Free b'-' t (Free-IsHex t ht),
      )
      refl

-- The id that the agent mints from any GUID, with its eight bytes of data4, is one that the
-- collector takes for valid.
pub is_valid_uuid-mint_run_id :
    (g : Guid) → length g.data4 ≡ 8 → is_valid_uuid (mint_run_id g) ≡ true
unfolding is_valid_uuid mint_run_id
is_valid_uuid-mint_run_id g eight =
    rw
      (uuid_parts (hex lower_hex 8 g.data1) (hex lower_hex 4 g.data2) (hex lower_hex 4 g.data3)
        (hex_bytes lower_hex (take 2 g.data4)) (hex_bytes lower_hex (drop_two g.data4))
        (hex-IsHex 8 g.data1) (hex-IsHex 4 g.data2) (hex-IsHex 4 g.data3)
        (hex_bytes-IsHex (take 2 g.data4)) (hex_bytes-IsHex (drop_two g.data4)))
      (rw
        (
          group_ok-IsHex (hex lower_hex 8 g.data1) 8 (hex-IsHex 8 g.data1)
              (length-hex lower_hex 8 g.data1),
          group_ok-IsHex (hex lower_hex 4 g.data2) 4 (hex-IsHex 4 g.data2)
              (length-hex lower_hex 4 g.data2),
          group_ok-IsHex (hex lower_hex 4 g.data3) 4 (hex-IsHex 4 g.data3)
              (length-hex lower_hex 4 g.data3),
          group_ok-IsHex (hex_bytes lower_hex (take 2 g.data4)) 4 (hex_bytes-IsHex (take 2 g.data4))
              (first_two g.data4 eight),
          group_ok-IsHex (hex_bytes lower_hex (drop_two g.data4)) 12
              (hex_bytes-IsHex (drop_two g.data4)) (last_six g.data4 eight),
        )
        refl)
  where
    first_two : (d : List ℕ) → length d ≡ 8 → length (hex_bytes lower_hex (take 2 d)) ≡ 4
    first_two [] e = absurd (omega arith)
    first_two (a ∷ []) e = absurd (omega arith)
    first_two (a ∷ b ∷ d) e = length-hex_bytes (a ∷ b ∷ [])

    last_six : (d : List ℕ) → length d ≡ 8 → length (hex_bytes lower_hex (drop_two d)) ≡ 12
    last_six [] e = absurd (omega arith)
    last_six (a ∷ []) e = absurd (omega arith)
    last_six (a ∷ b ∷ d) e = omega (arith, length-hex_bytes d)
