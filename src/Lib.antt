-- ===== src/Lib.antt =====
-- The file-access heat map of Windows file servers: an agent on the server (agent/) and a collector
-- (collector/) that receives its dumps.
--
-- The agent decodes events of the SMB server, folds them into a table of accesses for each share,
-- file and day, joins the table with an inventory of the shares, and sends it as one document of
-- newline-delimited JSON with each flush. The collector classifies a document, archives it, and adds
-- it to its database in one transaction.
--
-- The files and the code that they model:
--   Agent/Events              agent/src/events.rs: GUID keys, the readers of properties, parse_event
--   Agent/Events/Address      the same file: the client address of a record
--   Agent/Inventory           agent/src/inventory.rs: entries, attribute bits, rounding to clusters,
--                             and below it Walking (normalize_path, cluster_size, walk) and Summary
--   Agent/Correlation         agent/src/correlation.rs: CorrelationEngine, its state and apply
--   Agent/Correlation/Summary   the same file: resolved_summary, stats_line
--   Agent/Correlation/Emission  the same file: resolved_table, emit_rows, and below it HashOrder: the
--                               rows by the order in which the HashMap yields its entries, and
--                               Growth: the rows as the trace goes on
--   Agent/Emit                agent/src/emit.rs: the document of one flush
--   Collector/Ingest          collector/src/ingest.rs: classify, its parts, and the archive's path
--   Collector/Db              collector/src/db.rs: the tables, ingest and upsert_dimension
--   Collector/Archive         collector/src/archive.rs: write_verbatim, write_malformed, which give the
--                             files that they leave; below it Places, the layout, said without the
--                             code's paths
--   Collector/Server          collector/src/main.rs: handle, handle_get, the archive's files,
--                             and below it Startup (main up to the accept loop, and the loop), Api
--                             (api_leaderboard, api_children, api_health) and Console (the line
--                             that a request prints); Keeping, Service, Isolation and Filing are
--                             about sequences of requests
--   Collector/Clock           the same file: civil_from_days, rfc3339_utc
--   Collector/Query           collector/src/query.rs: the query string, parse_knobs, escape_like, and
--                             below it Statements (the SQL with its parameters) and Responses
--                             (leaderboard, children and health)
--   Collector/Options         collector/src/main.rs: parse_value and the options
--   Agent/Identity            agent/src/identity.rs: compose and classify
--   Agent/Flusher             agent/src/etw.rs: run_flusher and flush, and below it Sinks
--                             (write_emit_dir, post_collector)
--   Agent/Discover            the same file: the line of a target event in discover mode
--   Agent/Session             the same file: run, with its callback, and below it Steps, a step
--                             relation over the thread of the trace and the flusher's
--   Agent/Options             agent/src/main.rs: the options, build_inventory, and below it Command
--                             (main)
--   Agent/RunId               agent/src/etw.rs: mint_run_id, after the GUID is given
--   EndToEnd                  the agent's document read by the collector, and below it Delivery: a
--                             flush that is posted, Series: the flushes of a run, of which the
--                             network may lose any, with requests of others between them,
--                             Losses and Final: what the last flush leaves
--   Prelude                   lists, integers, orders, sorting, maps and texts that these share
--   Tests                     runs at concrete inputs
-- A struct is a record and an enum a data type with the source's names. A method on `&mut self` takes
-- the state and returns the next one. A text is the list of its UTF-8 bytes. A HashMap or a BTreeMap
-- is an association list in key order (Prelude/Map), which is one of the orders that a HashMap may
-- have. A table of the database is a map from its unique key.
--
-- Integers: u32 and u64 counters wrap (% 2 ^ 32, % 2 ^ 64), as in the release profile, which has no
-- overflow checks; the casts `as i32` and `as i64` read the same bits. A property whose proof needs
-- that a count does not wrap names its bound. Loops are recursion on a list, and no model runs on
-- fuel but the printing of a number, which has more than it has digits.
--
-- Parameters, for code that is not in the repository: Platform (chrono-tz, Unicode lower case),
-- Parser (ferrisetw), FileSystem (walkdir, Path, GetDiskFreeSpaceW), Connection (the rows that
-- DuckDB returns for a statement), Serializer and Wire (serde_json, from_utf8, Debug of a string),
-- Engine (the casts of DuckDB), Std (f64, the parsing of numbers, trim), Sinks (the file system and
-- ureq, for a flush), Environment (what a start meets), Disk (the file system of the archive), Api
-- (serde_json and the queries of the read API) and Host (the clock, the errors of input and output,
-- the embedded pages, and the responses of the read API, which Server/Api fills). Hypotheses on them
-- state documented behaviour: a JSON line is on one line and is read back, and the engine keeps a
-- number that it stores or refuses it.
--
-- Not modelled: the ETW trace, sockets and files; the deadline of the flusher's timer, which may
-- pass at any time; the user interface (collector/src/ui); what DuckDB computes for a statement, and
-- its failures in a transaction, of which only those of a cast are errors of ingest. A capture that
-- could not start its trace is not a session of Agent/Session. The sequence of file ids is set back
-- with a transaction that is rolled back, where DuckDB may leave a gap. The flusher's wait and the
-- lock of its flush are one step.
pub mod Prelude
pub mod Agent
pub mod Collector
pub mod EndToEnd
pub mod Tests
