-- ===== src/Agent/Correlation/Traces.antt =====
-- A trace in two parts.
use windows_fileserver_heatm.Prelude.{◌≡◌, refl, List, [], ◌∷◌, ◌++◌}
use windows_fileserver_heatm.Prelude.Int.{ℤ}
use windows_fileserver_heatm.Agent.Platform.{Platform}
use windows_fileserver_heatm.Agent.Events.{SmbEvent}
use windows_fileserver_heatm.Agent.Correlation.{CorrelationEngine, apply, run_trace}

pub run_trace-append :
    (platform : Platform) (l m : List (SmbEvent × ℤ)) (e : CorrelationEngine)
    → run_trace platform (l ++ m) e ≡ run_trace platform m (run_trace platform l e)
unfolding run_trace
run_trace-append platform [] m e = refl
run_trace-append platform ((ev, filetime) ∷ l) m e =
    run_trace-append platform l m (apply platform ev filetime e).0
