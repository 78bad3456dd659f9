-- ===== src/Flow/Stop.antt =====
-- `StopSignal` of crates/flow/src/flow_graph.rs.
use flow_backend.Prelude.{ℕ, ◌*◌, min, Bool, true, false, Option, none, Str, if◌then◌else◌}

-- Duration::from_secs(5 * 60).as_millis()
abbrev pub max_stop_timeout : ℕ
max_stop_timeout = 5 * 60 * 1000

pub record StopSignal : Type 0 where
  pub cancelled : Bool
  pub timeout_millies : ℕ
  pub reason : Option Str

abbrev pub new : StopSignal
new = record { cancelled = false; timeout_millies = 0; reason = none }

-- token.cancel() alone, as the graph does on its own errors.
unfoldable pub cancel : StopSignal → StopSignal
cancel s = record s { cancelled = true }

unfoldable pub stop : StopSignal → ℕ → Option Str → StopSignal
stop s timeout_millies reason = if s.cancelled then s else record s {
  timeout_millies = min timeout_millies max_stop_timeout;
  reason = reason;
  cancelled = true;
}
