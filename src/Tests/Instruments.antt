-- ===== src/Tests/Instruments.antt =====
-- A tool that fails once, the registry that holds it, and the metrics and lines of a run.
use agent_diaries_core.Prelude.{
  ℕ, zero, suc, ◌+◌, ◌≤◌, ◌<◌, ◌≡◌, refl, true, false, List, [], ◌∷◌, none, some, arith, Text,
  codes, Text-discrete, Memᴰ,
}
use agent_diaries_core.Shared.{
  string, undefined, DomainEvent, workflow_started, workflow_completed, MetricRecord,
}
use agent_diaries_core.Memory.Persistence.{Persistence}
use agent_diaries_core.Tools.Executor.{
  ToolResult, Attempt, returned, raised, Options, Log, run, denied,
}
use agent_diaries_core.Tools.Executor
use agent_diaries_core.Tools.Executor.Retries.{fails, Decides, verdict}
use agent_diaries_core.Tools.Executor.Runs.{run-Decides, run-denied}
use agent_diaries_core.Tools.Registry.{Tool, Registry, recommend}
use agent_diaries_core.Tools.Registry.Choice.{Recommends, recommend-best}
use agent_diaries_core.JsMap
use agent_diaries_core.Shared.{TraceRecord, TraceStatus}
use agent_diaries_core.Memory.Persistence.{get_trace}
use agent_diaries_core.Workflow.Domain.{Env, World}
use agent_diaries_core.Observability.Traces.{has_span}

abbrev print : ℕ → Text
print n = codes "2"

abbrev success : ToolResult
success = record {
  success = true;
  data_of = string (codes "ok");
  error = none;
  duration_ms = 0;
  cached = none;
}

abbrev flaky : ℕ → Attempt
flaky zero = raised false false (codes "timeout") 5
flaky (suc n) = returned success 6

abbrev http : Executor.Call
http = record {
  name = codes "http";
  permissions = codes "net" ∷ [];
  invalid = none;
  attempts = flaky;
  has_event_bus = true;
  context = record { agent_id = none; trace_id = none };
}

abbrev down : Executor.Call
down = record http { attempts = λ n. raised false false (codes "refused") 1 }

abbrev options : Options
options = record {
  max_retries = 2;
  retry_delay_ms = 500;
  granted_permissions = some (codes "net" ∷ []);
}

abbrev no_log : Log
no_log = record { events = []; delays = []; made = 0 }

net_is_granted : denied (codes "net" ∷ []) (codes "net" ∷ []) ≡ []
unfolding denied Text-discrete
net_is_granted = refl

first_fails : (i : ℕ) → 0 ≤ i → i < 1 → fails (flaky i) ≡ true
first_fails zero l h = refl
first_fails (suc n) l h = absurd (omega arith)

second-Decides : Decides print http 500 0 1
second-Decides = (first_fails, refl)

run-Decides_example :
    ((run print http options no_log).1 ≡ verdict print http 500 (flaky 1))
    × ((run print http options no_log).0.made ≡ 0 + suc 1)
run-Decides_example =
    run-Decides print http options no_log 1 (net_is_granted, refl) (omega arith) second-Decides

abbrev nothing_granted : Options
nothing_granted = record options { granted_permissions = some [] }

run-denied_example :
    ((run print http nothing_granted no_log).1.success ≡ false)
    × ((run print http nothing_granted no_log).0.made ≡ 0)
run-denied_example =
    run-denied print http nothing_granted no_log [] (codes "net") refl (Memᴰ.head refl) refl

abbrev slow : Tool
slow = record {
  name = codes "slow";
  capabilities = codes "get" ∷ [];
  permissions = [];
  tags = none;
  category = none;
  estimated_latency_ms = some 90;
  estimated_cost_usd = none;
  health_state = none;
  initialize = none;
  cleanup = none;
  health_check = none;
}

abbrev fast : Tool
fast = record slow { name = codes "fast"; estimated_latency_ms = some 10 }

abbrev registry : Registry
registry = (codes "slow", slow) ∷ (codes "fast", fast) ∷ []

recommend-best_example : Recommends (codes "get") registry (recommend (codes "get") registry)
recommend-best_example = recommend-best (codes "get") registry

abbrev metric : ℕ → MetricRecord
metric n = record { name = codes "ms"; value = n; tags = []; timestamp = 0 }

abbrev measured : Persistence
measured = record {
  workflows = [];
  traces = [];
  timeline = [];
  metrics = metric 4 ∷ metric 9 ∷ metric 2 ∷ [];
  reports = [];
}

abbrev events : List DomainEvent
events = workflow_started (codes "w") ∷ workflow_completed (codes "w") undefined ∷ []

abbrev clock : Env
clock = record { time = λ n. 10 + n; uuid = λ n. n ∷ [] }

abbrev trace : TraceRecord
trace = record {
  trace_id = codes "t";
  workflow_id = none;
  name = codes "run";
  start_time = 1;
  end_time = none;
  spans = [];
  status = TraceStatus.active;
}

abbrev traced : World
traced = record {
  db = record measured { traces = (codes "t", trace) ∷ [] };
  workers = [];
  events = [];
  ticks = 0;
  ids = 7;
}

trace_is_stored : get_trace (codes "t") traced.db ≡ some trace
unfolding get_trace JsMap.get Text-discrete
trace_is_stored = refl

not_there : has_span (7 ∷ []) trace.spans ≡ false
unfolding has_span
not_there = refl
