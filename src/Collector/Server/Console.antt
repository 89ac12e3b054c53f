-- ===== src/Collector/Server/Console.antt =====
-- collector/src/main.rs: the line that a request prints on standard output.
use mathlib.Core.List.{append_assoc}
use windows_fileserver_heatm.Prelude.{
  ℕ, ◌/◌, ◌≡◌, refl, sym, ◌∙◌, ap, Option, none, some, List, [], ◌∷◌, ◌++◌,
}
use windows_fileserver_heatm.Prelude.Int.{pos, wrap_i64}
use windows_fileserver_heatm.Prelude.Text.{Text, text, decimal, cat}
use windows_fileserver_heatm.Collector.Clock.{rfc3339_utc}
use windows_fileserver_heatm.Collector.Db.{Engine}
use windows_fileserver_heatm.Collector.Ingest.{Wire}
use windows_fileserver_heatm.Collector.Server.{
  Host, Request, State, LogLine, get_line, ingest_line, handle,
}
use windows_fileserver_heatm.Collector.Server.Handling.{logged_status, handle-IsSound}

abbrev pub log_get : Text → Text → Text → ℕ → Text
log_get ts ip path status = cat (
    ts ∷ text " ip=" ∷ ip ∷ text " method=GET path=" ∷ path ∷ text " status=" ∷ decimal status ∷ [])

-- The time, the address and the token of the database stand around what the handler says.
unfoldable pub printed : Text → Text → Text → LogLine → Text
printed ts ip db (get_line path status) = log_get ts ip path status
printed ts ip db (ingest_line server run seq rows status reason) = cat (
    ts
    ∷ text " ip="
    ∷ ip
    ∷ text " server="
    ∷ server
    ∷ text " run="
    ∷ run
    ∷ text " seq="
    ∷ seq
    ∷ text " rows="
    ∷ rows
    ∷ text " status="
    ∷ decimal status
    ∷ text " reason="
    ∷ reason
    ∷ text " db="
    ∷ db
    ∷ [])

-- The address of the client, where it has one.
abbrev pub ip_of : Option Text → Text
ip_of none = text "-"
ip_of (some ip) = ip

-- `rfc3339_utc(now.as_secs() as i64)`.
abbrev pub ts_of : ℕ → Text
ts_of now_millis = rfc3339_utc (wrap_i64 (pos (now_millis / 1000)))

-- What `handle` prints.
unfoldable pub console_line : Host → Option Text → Text → Wire → Engine → Request → State → Text
console_line host remote_addr db_token wire engine request s =
    printed (ts_of host.now_millis) (ip_of remote_addr) db_token
      (handle host wire engine request s).1.1

cat-append : (xs ys : List Text) → cat (xs ++ ys) ≡ cat xs ++ cat ys
cat-append [] ys = refl
cat-append (x ∷ xs) ys =
    ap (λ t. x ++ t) (cat-append xs ys) ∙ sym (append_assoc x (cat xs) (cat ys))

-- The text has the status between two others.
abbrev pub ShowsStatus : Text → ℕ → Type 0
ShowsStatus line status =
    (before : Text) × (after : Text) × (line
      ≡ before ++ (text " status=" ++ (decimal status ++ after)))

printed-ShowsStatus :
    (ts ip db : Text) (line : LogLine) → ShowsStatus (printed ts ip db line) (logged_status line)
unfolding printed
printed-ShowsStatus ts ip db (get_line path status) = (
  cat (ts ∷ text " ip=" ∷ ip ∷ text " method=GET path=" ∷ path ∷ []),
  [],
  cat-append (ts ∷ text " ip=" ∷ ip ∷ text " method=GET path=" ∷ path ∷ [])
      (text " status=" ∷ decimal status ∷ []),
)
printed-ShowsStatus ts ip db (ingest_line server run seq rows status reason) =
    let start =
      ts
      ∷ text " ip="
      ∷ ip
      ∷ text " server="
      ∷ server
      ∷ text " run="
      ∷ run
      ∷ text " seq="
      ∷ seq
      ∷ text " rows="
      ∷ rows
      ∷ [] in
    let end = text " reason=" ∷ reason ∷ text " db=" ∷ db ∷ [] in
    (cat start, cat end, cat-append start (text " status=" ∷ decimal status ∷ end))

-- Every request prints a line that shows the status of its response.
pub console_line-ShowsStatus :
    (host : Host) (remote_addr : Option Text) (db_token : Text) (wire : Wire) (engine : Engine)
    (request : Request) (s : State)
    → ShowsStatus
        (console_line host remote_addr db_token wire engine request s)
        (handle host wire engine request s).1.0.status
unfolding console_line
console_line-ShowsStatus host remote_addr db_token wire engine request s =
    let (before, after, same) =
      printed-ShowsStatus (ts_of host.now_millis) (ip_of remote_addr) db_token
        (handle host wire engine request s).1.1 in
    (
      before,
      after,
      same
          ∙ ap (λ n. before ++ (text " status=" ++ (decimal n ++ after)))
              (handle-IsSound host wire engine request s).logged,
    )
