-- ===== src/Agent/Identity.antt =====
-- agent/src/identity.rs: the classes of principals.
pub mod Domains
use windows_fileserver_heatm.Prelude.{
  Option, none, some, List, [], ◌∷◌, ◌++◌, Bool, true, false, ◌||◌, if◌then◌else◌, map,
}
use windows_fileserver_heatm.Prelude.Order.{nat_ord, list_ord, ◌==◌}
use windows_fileserver_heatm.Prelude.Text.{
  Text, text, is_empty, starts_with, after_last, ends_with_byte, ascii_upper, backslash,
}

pub data PrincipalClass : Type 0 where
  human machine service system unknown : PrincipalClass

unfoldable pub is_automation : PrincipalClass → Bool
is_automation machine = true
is_automation service = true
is_automation system = true
is_automation _ = false

unfoldable pub compose : Text → Text → Text
compose [] [] = []
compose [] user = user
compose domain [] = domain
compose domain user = domain ++ backslash ∷ user

abbrev pub is_unnamed : Text → Bool
is_unnamed account = is_empty account || account == text "<unknown>"

-- The class of a well-known SID.
abbrev pub sid_class : Text → Option PrincipalClass
sid_class account =
    if starts_with account (text "S-1-5-18")
    then some system
    else if starts_with account (text "S-1-5-19") || starts_with account (text "S-1-5-20")
    then some service
    else if starts_with account (text "S-1-5-7")
    then some system
    else none

-- The class by the name without its domain.
unfoldable pub name_class : Text → PrincipalClass
name_class bare =
    let upper : Text = map ascii_upper bare in
    if upper == text "SYSTEM" || upper == text "ANONYMOUS LOGON"
    then system
    else if upper == text "LOCAL SERVICE" || upper == text "NETWORK SERVICE"
    then service
    else if ends_with_byte b'$' bare
    then machine
    else human

unfoldable pub classify : Text → PrincipalClass
classify account =
    if is_unnamed account
    then unknown
    else elim (sid_class account) [ some c ↦ c | none ↦ name_class (after_last backslash account) ]
