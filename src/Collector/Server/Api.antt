-- ===== src/Collector/Server/Api.antt =====
-- collector/src/main.rs: the handlers of the read API, which fill the fields of Host that answer it.
use windows_fileserver_heatm.Prelude.{ℕ, Option, none, some, ◌++◌, Bool, if◌then◌else◌}
use windows_fileserver_heatm.Prelude.Int.{ℤ}
use windows_fileserver_heatm.Prelude.Result.{Result, ok, err}
use windows_fileserver_heatm.Prelude.Text.{Text, text}
use windows_fileserver_heatm.Collector.Db.{Store}
use windows_fileserver_heatm.Collector.Query.{Std, Knobs, parse_knobs}
use windows_fileserver_heatm.Collector.Query.Responses.{
  Connection, LeaderboardResponse, ChildrenResponse, HealthResponse, leaderboard, children, health,
}
use windows_fileserver_heatm.Collector.Server.{Reply, Host, json_response}

module _ (std : Std) where
  -- What the handlers call: the database's queries on its tables, serde_json, the clock, and whether
  -- the tier log exists.
  pub record Api : Type 0 where
    pub connection : Store → Connection std
    pub leaderboard_json : LeaderboardResponse std → Text
    pub children_json : ChildrenResponse std → Text
    pub health_json : HealthResponse std → Text
    pub error_json : Text → Text
    pub now_secs : ℤ
    pub tier_log : Option Text
    pub exists : Text → Bool

  module _ (api : Api) where
    abbrev pub error_reply : Text → ℕ → Reply
    error_reply message status = json_response (api.error_json message) status

    abbrev pub db_reply : Result Text Text → Reply
    db_reply (ok body) = json_response body 200
    db_reply (err e) = error_reply (text "db error: " ++ e) 500

    -- `map` of a result.
    abbrev pub written : {A : Type 0} → (A → Text) → Result Text A → Result Text Text
    written json (ok a) = ok (json a)
    written json (err e) = err e

    -- `tier_log.filter(|p| p.exists())`.
    abbrev pub existing : Option Text → Option Text
    existing none = none
    existing (some path) = if api.exists path then some path else none

    abbrev pub leaderboard_reply : Store → Result Text (Knobs std) → Reply
    leaderboard_reply db (err e) = error_reply e 400
    leaderboard_reply db (ok knobs) = db_reply (
        written api.leaderboard_json
          (leaderboard std (api.connection db) knobs (existing api.tier_log)))

    abbrev pub children_for : Store → Knobs std → Option Text → Reply
    children_for db knobs none = error_reply (text "parent is required") 400
    children_for db knobs (some parent) =
        db_reply (written api.children_json (children std (api.connection db) knobs))

    abbrev pub children_reply : Store → Result Text (Knobs std) → Reply
    children_reply db (err e) = error_reply e 400
    children_reply db (ok knobs) = children_for db knobs knobs.parent

    unfoldable pub api_leaderboard : Option Store → Text → Reply
    api_leaderboard none query = error_reply (text "database not enabled") 503
    api_leaderboard (some db) query = leaderboard_reply db (parse_knobs std query)

    unfoldable pub api_children : Option Store → Text → Reply
    api_children none query = error_reply (text "database not enabled") 503
    api_children (some db) query = children_reply db (parse_knobs std query)

    unfoldable pub api_health : Option Store → Reply
    api_health none = error_reply (text "database not enabled") 503
    api_health (some db) =
        db_reply (written api.health_json (health std (api.connection db) api.now_secs))

    -- A host whose read API is this one.
    abbrev pub host_with_api : Host → Host
    host_with_api host = record host {
      api_leaderboard = api_leaderboard;
      api_children = api_children;
      api_health = api_health;
      json_error_text = api.error_json;
    }
