-- ===== src/Runtime/Collector.antt =====
-- src/runtime/RuntimeMetricsCollector.ts: what the collector keeps of each tool. A cost is a natural
-- number of a fixed unit.
pub mod Counts
pub mod Rank
pub mod Percentile
pub mod Snapshots
pub mod Rankings
pub mod AgentCounts
use agent_diaries_core.Prelude.{
  ℕ, zero, suc, ◌+◌, List, [], ◌∷◌, ◌++◌, Option, none, some, leb, length, if◌then◌else◌,
}
use agent_diaries_core.JsMap.{JsMap}
use agent_diaries_core.JsMap
use agent_diaries_core.Tools.Executor.{Event}

-- `shift`
unfoldable pub shift : List ℕ → List ℕ
shift [] = []
shift (x ∷ xs) = xs

-- `RingBuffer.push`, with the capacity `MAX_OBSERVATIONS`
unfoldable pub push : ℕ → List ℕ → List ℕ
unfolding shift
push d buf = (if leb 1000 (length buf) then shift buf else buf) ++ d ∷ []

pub record ToolState : Type 0 where
  pub durations : List ℕ
  pub success_count : ℕ
  pub failure_count : ℕ
  pub retry_count : ℕ
  pub cancellation_count : ℕ
  pub timeout_count : ℕ
  pub estimated_cost : ℕ

unfoldable pub new_state : ToolState
new_state = record {
  durations = [];
  success_count = 0;
  failure_count = 0;
  retry_count = 0;
  cancellation_count = 0;
  timeout_count = 0;
  estimated_cost = 0;
}

unfoldable pub or_new : Option ToolState → ToolState
unfolding new_state
or_new none = new_state
or_new (some s) = s

abbrev pub or_zero : Option ℕ → ℕ
or_zero none = 0
or_zero (some n) = n

-- The handler's changes of a tool's state.
unfoldable pub bump : ℕ → Event → ToolState → ToolState
unfolding push
bump cost e s = record {
  durations = push e.duration_ms s.durations;
  success_count = if e.success then s.success_count + 1 else s.success_count;
  failure_count = if e.success then s.failure_count else s.failure_count + 1;
  retry_count = s.retry_count + e.retry_count;
  cancellation_count = if e.cancelled then s.cancellation_count + 1 else s.cancellation_count;
  timeout_count = if e.timed_out then s.timeout_count + 1 else s.timeout_count;
  estimated_cost = s.estimated_cost + cost;
}

-- `ToolExecuted`
unfoldable pub on_tool_executed : JsMap ℕ → Event → JsMap ToolState → JsMap ToolState
unfolding bump or_new
on_tool_executed costs e m =
    JsMap.set e.tool_name
      (bump (or_zero (JsMap.get e.tool_name costs)) e (or_new (JsMap.get e.tool_name m))) m

unfoldable pub on_all : JsMap ℕ → List Event → JsMap ToolState → JsMap ToolState
unfolding on_tool_executed
on_all costs [] m = m
on_all costs (e ∷ es) m = on_all costs es (on_tool_executed costs e m)
