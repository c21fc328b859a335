-- ===== src/Runtime/Collector/Snapshots.antt =====
-- src/runtime/RuntimeMetricsCollector.ts: the agent events, the snapshots and the rankings. A rate
-- is the quotient of two numbers; a mean is rounded as `Math.round` does.
use agent_diaries_core.Prelude.{
  ℕ, ◌+◌, ◌*◌, ◌/◌, Bool, ◌&&◌, List, [], ◌∷◌, map, Option, none, some, Text, leb, ltb, take,
  length, filter, if◌then◌else◌,
}
use agent_diaries_core.JsMap.{JsMap}
use agent_diaries_core.JsMap
use agent_diaries_core.Sorting.{sort}
use agent_diaries_core.Shared.{DomainEvent, agent_completed, agent_failed}
use agent_diaries_core.Tools.Executor.{Event}
use agent_diaries_core.Runtime.Collector.{ToolState, push, on_tool_executed}
use agent_diaries_core.Runtime.Collector.Percentile.{percentile}

-- The collector's `AgentState`
pub record AgentTally : Type 0 where
  pub durations : List ℕ
  pub success_count : ℕ
  pub failure_count : ℕ

pub record Collector : Type 0 where
  pub tool_states : JsMap ToolState
  pub agent_states : JsMap AgentTally
  pub tool_cost_per_call : JsMap ℕ

unfoldable pub or_new_agent : Option AgentTally → AgentTally
or_new_agent none = record { durations = []; success_count = 0; failure_count = 0 }
or_new_agent (some s) = s

abbrev pub succeed : ℕ → AgentTally → AgentTally
succeed ms s = record s { durations = push ms s.durations; success_count = s.success_count + 1 }

abbrev pub fail : ℕ → AgentTally → AgentTally
fail ms s = record s { durations = push ms s.durations; failure_count = s.failure_count + 1 }

abbrev pub update_agent : Text → (AgentTally → AgentTally) → Collector → Collector
update_agent id f c = record c {
  agent_states = JsMap.set id (f (or_new_agent (JsMap.get id c.agent_states))) c.agent_states;
}

-- The subscriptions to `AgentCompleted` and `AgentFailed`.
unfoldable pub on_agent_event : DomainEvent → Collector → Collector
unfolding or_new_agent push
on_agent_event (agent_completed id trace workflow ms tools) c = update_agent id (succeed ms) c
on_agent_event (agent_failed id trace workflow ms error) c = update_agent id (fail ms) c
on_agent_event _ c = c

unfoldable pub on_tool_event : Event → Collector → Collector
unfolding on_tool_executed
on_tool_event e c = record c { tool_states = on_tool_executed c.tool_cost_per_call e c.tool_states }

unfoldable pub register_tool_cost : Text → ℕ → Collector → Collector
register_tool_cost name cost c = record c {
  tool_cost_per_call = JsMap.set name cost c.tool_cost_per_call;
}

-- The registered costs stay.
unfoldable pub reset : Collector → Collector
reset c = record c { tool_states = []; agent_states = [] }

abbrev pub sum : List ℕ → ℕ
sum [] = 0
sum (x ∷ xs) = x + sum xs

-- `Math.round(durations.reduce(...) / durations.length)`
unfoldable pub mean : List ℕ → ℕ
mean ds = (2 * sum ds + length ds) / (2 * length ds)

-- A quotient; `0 / 1` where the code writes 0.
pub record Rate : Type 0 where
  pub part : ℕ
  pub whole : ℕ

unfoldable pub rate : ℕ → ℕ → Rate
rate part total =
    if ltb 0 total then record { part = part; whole = total } else record { part = 0; whole = 1 }

abbrev pub below : Rate → Rate → Bool
below a b = ltb (a.part * b.whole) (b.part * a.whole)

pub record ToolSnapshot : Type 0 where
  pub tool_name : Text
  pub execution_count : ℕ
  pub success_rate : Rate
  pub avg_duration_ms : ℕ
  pub p95_duration_ms : ℕ
  pub p99_duration_ms : ℕ
  pub failure_count : ℕ
  pub retry_count : ℕ
  pub cancellation_count : ℕ
  pub timeout_count : ℕ
  pub estimated_cost : ℕ

unfoldable pub build_tool_snapshot : Text → ToolState → ToolSnapshot
unfolding mean percentile rate
build_tool_snapshot name s =
    let durations = sort leb s.durations in
    let total = s.success_count + s.failure_count in
    record {
      tool_name = name;
      execution_count = total;
      success_rate = rate s.success_count total;
      avg_duration_ms = if ltb 0 total then mean durations else 0;
      p95_duration_ms = percentile durations 95;
      p99_duration_ms = percentile durations 99;
      failure_count = s.failure_count;
      retry_count = s.retry_count;
      cancellation_count = s.cancellation_count;
      timeout_count = s.timeout_count;
      estimated_cost = s.estimated_cost;
    }

pub record AgentSnapshot : Type 0 where
  pub agent_id : Text
  pub execution_count : ℕ
  pub success_rate : Rate
  pub avg_duration_ms : ℕ
  pub p95_duration_ms : ℕ
  pub p99_duration_ms : ℕ
  pub failure_count : ℕ

unfoldable pub build_agent_snapshot : Text → AgentTally → AgentSnapshot
unfolding mean percentile rate
build_agent_snapshot id s =
    let durations = sort leb s.durations in
    let total = s.success_count + s.failure_count in
    record {
      agent_id = id;
      execution_count = total;
      success_rate = rate s.success_count total;
      avg_duration_ms = if ltb 0 total then mean durations else 0;
      p95_duration_ms = percentile durations 95;
      p99_duration_ms = percentile durations 99;
      failure_count = s.failure_count;
    }

abbrev pub map_option : {A B : Type 0} → (A → B) → Option A → Option B
map_option f none = none
map_option f (some a) = some (f a)

unfoldable pub get_tool_snapshot : Text → Collector → Option ToolSnapshot
unfolding build_tool_snapshot
get_tool_snapshot name c = map_option (build_tool_snapshot name) (JsMap.get name c.tool_states)

unfoldable pub get_all_tool_snapshots : Collector → List ToolSnapshot
unfolding build_tool_snapshot
get_all_tool_snapshots c = map (λ e. build_tool_snapshot e.0 e.1) c.tool_states

unfoldable pub get_agent_snapshot : Text → Collector → Option AgentSnapshot
unfolding build_agent_snapshot
get_agent_snapshot id c = map_option (build_agent_snapshot id) (JsMap.get id c.agent_states)

unfoldable pub get_all_agent_snapshots : Collector → List AgentSnapshot
unfolding build_agent_snapshot
get_all_agent_snapshots c = map (λ e. build_agent_snapshot e.0 e.1) c.agent_states

-- Descending, as the comparison functions of the two rankings say.
abbrev pub more_used : ToolSnapshot → ToolSnapshot → Bool
more_used a b = leb b.execution_count a.execution_count

abbrev pub slower : ToolSnapshot → ToolSnapshot → Bool
slower a b = leb b.p95_duration_ms a.p95_duration_ms

unfoldable pub get_most_used_tools : ℕ → Collector → List ToolSnapshot
unfolding get_all_tool_snapshots
get_most_used_tools n c = take n (sort more_used (get_all_tool_snapshots c))

unfoldable pub get_slowest_tools : ℕ → Collector → List ToolSnapshot
unfolding get_all_tool_snapshots
get_slowest_tools n c = take n (sort slower (get_all_tool_snapshots c))

unfoldable pub get_failing_tools : Rate → Collector → List ToolSnapshot
unfolding get_all_tool_snapshots
get_failing_tools threshold c =
    filter (λ s. below s.success_rate threshold && ltb 0 s.execution_count)
      (get_all_tool_snapshots c)
