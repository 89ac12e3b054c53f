-- ===== src/Tests/Keys.antt =====
-- The keys of GUIDs: the provider of the SMB server's events.
use windows_fileserver_heatm.Prelude.{◌≡◌, refl, [], ◌∷◌, arith}
use windows_fileserver_heatm.Prelude.Text.{text, upper_hex, hex}
use windows_fileserver_heatm.Agent.Events.{Guid, guid_key, fmt_guid_key}
use windows_fileserver_heatm.Agent.Events.Keys.{IsGuid, usual_form, fmt_guid_key-guid_key}

abbrev provider : Guid
provider = record {
  data1 = 0xD48CE617;
  data2 = 0x33A2;
  data3 = 0x4BC3;
  data4 = 0xA5 ∷ 0xC7 ∷ 0x11 ∷ 0xAA ∷ 0x4F ∷ 0x29 ∷ 0x61 ∷ 0x9E ∷ [];
}

provider-IsGuid : IsGuid provider
provider-IsGuid = record {
  data1 = omega arith;
  data2 = omega arith;
  data3 = omega arith;
  bytes = (
    omega arith,
    (
      omega arith,
      (omega arith, (omega arith, (omega arith, (omega arith, (omega arith, (omega arith, tt)))))),
    ),
  );
  eight = refl;
}

fmt_guid_key-guid_key_example : fmt_guid_key (guid_key provider) ≡ usual_form upper_hex provider
fmt_guid_key-guid_key_example = fmt_guid_key-guid_key provider provider-IsGuid

smb_server_key : usual_form upper_hex provider ≡ text "D48CE617-33A2-4BC3-A5C7-11AA4F29619E"
unfolding hex
smb_server_key = refl
