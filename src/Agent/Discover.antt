-- ===== src/Agent/Discover.antt =====
-- agent/src/etw.rs: the console line of a target event in discover mode.
use windows_fileserver_heatm.Prelude.{
  ℕ, ◌%◌, ◌^◌, Option, none, some, List, [], ◌∷◌, if◌then◌else◌, any,
}
use windows_fileserver_heatm.Prelude.Order.{nat_ord, ◌==◌}
use windows_fileserver_heatm.Prelude.Text.{Text, text, cat, decimal, join, pad_left, hex, upper_hex}
use windows_fileserver_heatm.Agent.Events.{
  GuidKey, Parser, fmt_guid_key, first_guid, first_str, first_u64, e_open, e_tree_alloc,
  p_tree_guid, p_share_guid, p_open_guid, p_share_name, p_file_name, p_desired_access,
}
use windows_fileserver_heatm.Agent.Events.Address.{first_socket_addr, p_address}

abbrev p_conn_guid : List Text
p_conn_guid = text "ConnectionGUID" ∷ []

abbrev p_session_guid : List Text
p_session_guid = text "SessionGUID" ∷ []

abbrev p_user_name : List Text
p_user_name = text "UserName" ∷ []

abbrev p_domain_name : List Text
p_domain_name = text "DomainName" ∷ []

abbrev p_scope_name : List Text
p_scope_name = text "ScopeName" ∷ []

abbrev p_transport : List Text
p_transport = text "TransportName" ∷ []

-- Connections, sessions, trees, opens and the rundown, in the source's order.
abbrev pub discover_targets : List ℕ
discover_targets =
    500 ∷ 501 ∷ 502 ∷ 550 ∷ 552 ∷ 554 ∷ 555 ∷ e_tree_alloc ∷ 601 ∷ 602 ∷ e_open ∷ 654 ∷ 108 ∷ 3004
    ∷ 3005 ∷ 3006 ∷ []

-- `.map(|v| format!("{label}={v}"))`, with the value already formatted.
abbrev labelled : Text → Option Text → Option Text
labelled label none = none
labelled label (some v) = some (cat (label ∷ text "=" ∷ v ∷ []))

abbrev shown_guid : Option GuidKey → Option Text
shown_guid none = none
shown_guid (some k) = some (fmt_guid_key k)

abbrev shown_access : Option ℕ → Option Text
shown_access none = none
shown_access (some v) = some (cat (text "0x" ∷ hex upper_hex 8 (v % 2 ^ 32) ∷ []))

-- `.into_iter().flatten().collect()`.
abbrev pub flatten : List (Option Text) → List Text
flatten [] = []
flatten (none ∷ fs) = flatten fs
flatten (some f ∷ fs) = f ∷ flatten fs

module _ (ipv6 : List ℕ → Text) (parser : Parser) where
  unfoldable pub field_guid : Text → List Text → Option Text
  field_guid label names = labelled label (shown_guid (first_guid parser names))

  unfoldable pub field_str : Text → List Text → Option Text
  field_str label names = labelled label (first_str parser names)

  unfoldable pub field_addr : Text → List Text → Option Text
  field_addr label names = labelled label (first_socket_addr ipv6 parser names)

  unfoldable pub field_access : Text → List Text → Option Text
  field_access label names = labelled label (shown_access (first_u64 parser names))

  -- The fields that are looked for on a target event.
  unfoldable pub target_fields : ℕ → List (Option Text)
  target_fields id =
      if id == e_open
      then field_str (text "Name") p_file_name
        ∷ field_guid (text "OpenGUID") p_open_guid
        ∷ field_guid (text "ShareGUID") p_share_guid
        ∷ field_guid (text "TreeConnectGUID") p_tree_guid
        ∷ field_access (text "DesiredAccess") p_desired_access
        ∷ []
      else if id == e_tree_alloc
      then field_str (text "ShareName") p_share_name
        ∷ field_guid (text "ShareGUID") p_share_guid
        ∷ field_guid (text "TreeConnectGUID") p_tree_guid
        ∷ []
      else field_guid (text "ConnectionGUID") p_conn_guid
        ∷ field_guid (text "SessionGUID") p_session_guid
        ∷ field_guid (text "TreeConnectGUID") p_tree_guid
        ∷ field_guid (text "ShareGUID") p_share_guid
        ∷ field_guid (text "OpenGUID") p_open_guid
        ∷ field_str (text "UserName") p_user_name
        ∷ field_str (text "DomainName") p_domain_name
        ∷ field_str (text "ShareName") p_share_name
        ∷ field_str (text "ScopeName") p_scope_name
        ∷ field_str (text "Name") p_file_name
        ∷ field_str (text "TransportName") p_transport
        ∷ field_addr (text "Address") p_address
        ∷ field_access (text "DesiredAccess") p_desired_access
        ∷ []

  -- The line that is printed, if the event is a target.
  unfoldable pub discover_dump : ℕ → Option Text
  discover_dump id =
      if any (λ t. t == id) discover_targets
      then some (
          cat (
            pad_left 32 3 (decimal id)
            ∷ text "  "
            ∷ join (text "  ") (flatten (target_fields id))
            ∷ []))
      else none
