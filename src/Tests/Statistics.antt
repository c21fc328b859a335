-- ===== src/Tests/Statistics.antt =====
-- What the collector keeps of a tool that ran twice.
use agent_diaries_core.Prelude.{ℕ, Bool, true, false, List, [], ◌∷◌, none, Text, codes}
use agent_diaries_core.Tools.Executor.{Event}

abbrev event : Text → Bool → ℕ → Event
event name good ms = record {
  tool_name = name;
  agent_id = none;
  trace_id = none;
  success = good;
  duration_ms = ms;
  cached = none;
  retry_count = 1;
  cancelled = false;
  timed_out = false;
}

abbrev executions : List Event
executions =
    event (codes "http") true 5 ∷ event (codes "file") true 1 ∷ event (codes "http") false 9 ∷ []
