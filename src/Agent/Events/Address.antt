-- ===== src/Agent/Events/Address.antt =====
-- agent/src/events.rs: the client address of a record, from the bytes of a Windows `SOCKADDR`.
use windows_fileserver_heatm.Prelude.{
  ℕ, ◌+◌, ◌*◌, Option, none, some, List, [], ◌∷◌, Bool, false, ◌&&◌, if◌then◌else◌, leb, take,
  length,
}
use windows_fileserver_heatm.Prelude.Lists.{drop}
use windows_fileserver_heatm.Prelude.Order.{nat_ord, ◌==◌}
use windows_fileserver_heatm.Prelude.Text.{Text, text, cat, decimal, lower_hex}
use windows_fileserver_heatm.Agent.Events.{Parser, hex_bytes}

abbrev pub p_address : List Text
p_address = text "Address" ∷ []

abbrev af_inet : ℕ
af_inet = 2

abbrev af_inet6 : ℕ
af_inet6 = 23

-- The first two bytes, the lower one first; no family where they are missing.
abbrev family : List ℕ → Option ℕ
family (lo ∷ hi ∷ b) = some (hi * 256 + lo)
family b = none

-- `Ipv4Addr::to_string` of bytes 4 to 7.
abbrev dotted : List ℕ → Text
dotted (a ∷ b ∷ c ∷ d ∷ rest) =
    cat (decimal a ∷ text "." ∷ decimal b ∷ text "." ∷ decimal c ∷ text "." ∷ decimal d ∷ [])
dotted b = []

abbrev is_family : ℕ → Option ℕ → Bool
is_family f none = false
is_family f (some g) = g == f

-- `ipv6` stands for `Ipv6Addr::to_string` on sixteen bytes.
module _ (ipv6 : List ℕ → Text) where
  unfoldable pub decode_socket_address : List ℕ → Text
  decode_socket_address b =
      if is_family af_inet (family b) && leb 8 (length b)
      then dotted (drop 4 b)
      else if is_family af_inet6 (family b) && leb 24 (length b)
      then ipv6 (take 16 (drop 8 b))
      else hex_bytes lower_hex b

  unfoldable pub first_socket_addr : Parser → List Text → Option Text
  first_socket_addr parser [] = none
  first_socket_addr parser (n ∷ names) = elim (parser.parse_bytes n) [
    | some bytes ↦ some (decode_socket_address bytes)
    | none ↦ first_socket_addr parser names
  ]
