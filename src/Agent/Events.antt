-- ===== src/Agent/Events.antt =====
-- agent/src/events.rs: the correlation key, the normalized event, and the extraction of one from
-- the properties of an ETW record.
pub mod Address
pub mod Keys
use Prim.Native.Nat.{bit_or}
use windows_fileserver_heatm.Prelude.{
  ℕ, zero, suc, ◌+◌, ◌*◌, ◌/◌, ◌%◌, ◌^◌, Option, none, some, List, [], ◌∷◌, ◌++◌, if◌then◌else◌,
  take,
}
use windows_fileserver_heatm.Prelude.Order.{nat_ord, ◌==◌}
use windows_fileserver_heatm.Prelude.Text.{Text, text, hex, upper_hex}

-- Keyword bits of the provider.
abbrev pub kw_connection : ℕ
kw_connection = 0x0000_0010

abbrev pub kw_session : ℕ
kw_session = 0x0000_0020

abbrev pub kw_treeconnect : ℕ
kw_treeconnect = 0x0000_0040

abbrev pub kw_file : ℕ
kw_file = 0x0000_0080

abbrev pub kw_rundown : ℕ
kw_rundown = 0x0001_0000

abbrev pub mask_correlation : ℕ
mask_correlation = bit_or (bit_or (bit_or kw_connection kw_session) kw_treeconnect) kw_file

abbrev pub e_tree_alloc : ℕ
e_tree_alloc = 600

abbrev pub e_open : ℕ
e_open = 650

-- A GUID folded into a `u128`.
abbrev pub GuidKey : Type 0
GuidKey = ℕ

-- The fields of a Windows `GUID`: a `u32`, two `u16` and eight bytes.
pub record Guid : Type 0 where
  pub data1 : ℕ
  pub data2 : ℕ
  pub data3 : ℕ
  pub data4 : List ℕ

-- `u64::from_be_bytes`.
unfoldable pub from_be_bytes : ℕ → List ℕ → ℕ
from_be_bytes acc [] = acc
from_be_bytes acc (b ∷ bs) = from_be_bytes (acc * 256 + b) bs

-- `to_be_bytes` of the low `w` bytes of a number.
unfoldable pub to_be_bytes : ℕ → ℕ → List ℕ
to_be_bytes zero n = []
to_be_bytes (suc w) n = to_be_bytes w (n / 256) ++ (n % 256 ∷ [])

unfoldable pub guid_key : Guid → GuidKey
guid_key g =
    bit_or (bit_or (bit_or (g.data1 * 2 ^ 96) (g.data2 * 2 ^ 80)) (g.data3 * 2 ^ 64))
      (from_be_bytes 0 g.data4)

abbrev pub hex_bytes : (ℕ → ℕ) → List ℕ → Text
hex_bytes digit [] = []
hex_bytes digit (b ∷ bs) = hex digit 2 b ++ hex_bytes digit bs

abbrev pub drop_two : List ℕ → List ℕ
drop_two (a ∷ b ∷ bs) = bs
drop_two bs = []

unfoldable pub fmt_guid_key : GuidKey → Text
fmt_guid_key k =
    let d1 = k / 2 ^ 96 % 2 ^ 32 in
    let d2 = k / 2 ^ 80 % 2 ^ 16 in
    let d3 = k / 2 ^ 64 % 2 ^ 16 in
    let d4 = to_be_bytes 8 (k % 2 ^ 64) in
    hex upper_hex 8 d1
    ++ (b'-'
        ∷ (hex upper_hex 4 d2
            ++ (b'-'
                ∷ (hex upper_hex 4 d3
                    ++ (b'-'
                        ∷ (hex_bytes upper_hex (take 2 d4)
                            ++ (b'-' ∷ hex_bytes upper_hex (drop_two d4))))))))

pub data SmbEvent : Type 0 where
  -- share_guid, share
  tree_connect : GuidKey → Text → SmbEvent
  -- open, tree, share_guid, path, access
  open_file : GuidKey → GuidKey → Option GuidKey → Text → ℕ → SmbEvent

-- The property reader of ferrisetw: `none` where `try_parse` fails at that type.
pub record Parser : Type 0 where
  pub parse_string : Text → Option Text
  pub parse_guid : Text → Option Guid
  pub parse_u64 : Text → Option ℕ
  pub parse_u32 : Text → Option ℕ
  pub parse_u16 : Text → Option ℕ
  pub parse_bytes : Text → Option (List ℕ)

abbrev pub p_tree_guid : List Text
p_tree_guid = text "TreeConnectGUID" ∷ []

abbrev pub p_share_guid : List Text
p_share_guid = text "ShareGUID" ∷ []

abbrev pub p_open_guid : List Text
p_open_guid = text "OpenGUID" ∷ []

abbrev pub p_share_name : List Text
p_share_name = text "ShareName" ∷ []

abbrev pub p_file_name : List Text
p_file_name = text "Name" ∷ []

abbrev pub p_desired_access : List Text
p_desired_access = text "DesiredAccess" ∷ []

module _ (parser : Parser) where
  unfoldable pub first_str : List Text → Option Text
  first_str [] = none
  first_str (n ∷ names) = elim (parser.parse_string n) [ some v ↦ some v | none ↦ first_str names ]

  unfoldable pub first_guid : List Text → Option GuidKey
  first_guid [] = none
  first_guid (n ∷ names) = elim (parser.parse_guid n) [
    | some g ↦ some (guid_key g)
    | none ↦ first_guid names
  ]

  unfoldable pub first_u64 : List Text → Option ℕ
  first_u64 [] = none
  first_u64 (n ∷ names) =
      let rest = first_u64 names in
      elim (parser.parse_u64 n) [
        | some v ↦ some v
        | none ↦ elim (parser.parse_u32 n) [
          | some v ↦ some v
          | none ↦ elim (parser.parse_u16 n) [ some v ↦ some v | none ↦ rest ]
        ]
      ]

  abbrev pub unwrap_or {ℓ} : {A : Type ℓ} → Option A → A → A
  unwrap_or none d = d
  unwrap_or (some a) d = a

  unfoldable pub parse_event : ℕ → Option SmbEvent
  parse_event event_id =
      if event_id == e_tree_alloc
      then elim (first_guid p_share_guid) [
        | none ↦ none
        | some g ↦ some (tree_connect g (unwrap_or (first_str p_share_name) []))
      ]
      else if event_id == e_open
      then elim (first_guid p_open_guid) [
        | none ↦ none
        | some g ↦ some (
            open_file g (unwrap_or (first_guid p_tree_guid) 0) (first_guid p_share_guid)
              (unwrap_or (first_str p_file_name) [])
              (unwrap_or (first_u64 p_desired_access) 0 % 2 ^ 32))
      ]
      else none
