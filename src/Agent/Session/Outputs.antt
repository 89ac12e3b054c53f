-- ===== src/Agent/Session/Outputs.antt =====
-- What an output of a session shows.
use windows_fileserver_heatm.Prelude.{◌≡◌, refl, none, some, [], if◌then◌else◌}
use windows_fileserver_heatm.Prelude.Text.{Text}
use windows_fileserver_heatm.Agent.Platform.{Platform}
use windows_fileserver_heatm.Agent.Correlation.{CorrelationEngine}
use windows_fileserver_heatm.Agent.Correlation.Emission.{resolved_table, emit_rows}
use windows_fileserver_heatm.Agent.Emit.{Serializer, document}
use windows_fileserver_heatm.Agent.Flusher.{Moment, FlushCtx, Flushed, want_ndjson, flush}

-- A context without its number.
abbrev pub unnumbered : FlushCtx → FlushCtx
unnumbered ctx = record ctx { dump_seq = 0 }

module _ (platform : Platform) (to_string : Serializer) where
  -- The output is that of a flush of this engine: its table on the console, and its rows in the
  -- document, under the output's own number.
  pub record Shows (ctx : FlushCtx) (engine : CorrelationEngine) (f : Flushed) : Type 0 where
    pub emitted_at : Text
    pub console : f.console ≡ resolved_table platform engine
    pub ndjson : f.ndjson ≡ (
        if want_ndjson ctx
        then some (
            document to_string
              (record {
                server = ctx.server;
                run_id = ctx.run_id;
                dump_seq = f.seq;
                emitted_at = emitted_at;
                walked_shares = ctx.walked_shares;
              })
              (emit_rows platform engine))
        else none)
    pub post : f.post ≡ ctx.collector

  pub flush-Shows :
      (ctx : FlushCtx) (m : Moment)
      → Shows (unnumbered ctx) m.engine (flush platform to_string ctx m).1
  unfolding flush
  flush-Shows ctx m = record {
    emitted_at = if want_ndjson ctx then m.rfc3339_now else [];
    console = refl;
    ndjson = refl;
    post = refl;
  }
