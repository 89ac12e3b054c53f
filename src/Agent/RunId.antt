-- ===== src/Agent/RunId.antt =====
-- agent/src/etw.rs: the text of the run's id, from the GUID that UuidCreate gives.
pub mod Accepted
use windows_fileserver_heatm.Prelude.{ℕ, List, [], ◌∷◌, ◌++◌, take}
use windows_fileserver_heatm.Prelude.Text.{Text, hex, lower_hex}
use windows_fileserver_heatm.Agent.Events.{Guid, hex_bytes, drop_two}

unfoldable pub mint_run_id : Guid → Text
mint_run_id g =
    hex lower_hex 8 g.data1
    ++ b'-'
      ∷ (hex lower_hex 4 g.data2
          ++ b'-'
            ∷ (hex lower_hex 4 g.data3
                ++ b'-'
                  ∷ (hex_bytes lower_hex (take 2 g.data4)
                      ++ b'-' ∷ hex_bytes lower_hex (drop_two g.data4))))
