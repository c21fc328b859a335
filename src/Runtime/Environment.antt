-- ===== src/Runtime/Environment.antt =====
-- src/runtime/ExecutionEnvironment.ts and src/runtime/AgentRuntime.ts, but for the runs of agents.
-- `warmup` and `shutdown` go on after each `await`, and other calls may come in between. What the
-- hooks of the tools do is not followed.
pub mod Turns
pub mod Logged
pub mod Once
use agent_diaries_core.Prelude.{
  ℕ, ◌-◌, Bool, true, false, not, ◌||◌, List, [], ◌∷◌, Option, none, some, Text, ite, filter,
  if◌then◌else◌,
}
use agent_diaries_core.Shared.Effect.{Result}
use agent_diaries_core.Tools.Registry
use agent_diaries_core.Tools.Registry.{
  Registry, Tool, Status, Health-discrete, degraded, initialize_all,
}
use agent_diaries_core.Agents
use agent_diaries_core.Agents.{Agent, HealthReport}
use agent_diaries_core.Runtime.Collector.Snapshots.{Collector, register_tool_cost}

-- What was done to all tools, the newest first.
pub data Action : Type 0 where
  initialized : List Text → Action
  cleaned : Action

pub record Environment : Type 0 where
  pub tools : Registry
  pub agents : Agents.Agents
  pub collector : Collector
  pub warmed_up : Bool
  pub shut_down : Bool
  pub log : List Action

abbrev pub fresh : Environment
fresh = record {
  tools = [];
  agents = [];
  collector = record { tool_states = []; agent_states = []; tool_cost_per_call = [] };
  warmed_up = false;
  shut_down = false;
  log = [];
}

pub record WarmupResult : Type 0 where
  pub initialized_tools : List Text
  pub tool_health : List Status
  pub agent_health : List HealthReport
  pub duration_ms : ℕ

-- A call of `warmup` at one of its awaits, with the time of its start and what it has so far.
pub data Warming : Type 0 where
  tools_initialized : ℕ → List Text → Warming
  tools_checked : ℕ → List Text → List Status → Warming
  agents_checked : ℕ → List Text → List Status → List HealthReport → Warming

abbrev pub ignored : WarmupResult
ignored = record { initialized_tools = []; tool_health = []; agent_health = []; duration_ms = 0 }

-- Where a call is after it has gone on, or its answer.
pub data Progress : Type 0 where
  waits : Warming → Progress
  answers : WarmupResult → Progress

-- The call up to the end of `tools.initializeAll`.
unfoldable pub begin_warmup : ℕ → Environment → Environment × Progress
unfolding initialize_all
begin_warmup start e =
    if e.warmed_up
    then (e, answers ignored)
    else let names = initialize_all e.tools in
      (record e { log = initialized names ∷ e.log }, waits (tools_initialized start names))

-- The next part of the call, at some time. The flag is set after the last `await`.
unfoldable pub continue_warmup : ℕ → Environment → Warming → Environment × Progress
unfolding Registry.health_check Agents.health_check
continue_warmup now e (tools_initialized start names) =
    let (tools, statuses) = Registry.health_check now e.tools in
    (record e { tools = tools }, waits (tools_checked start names statuses))
continue_warmup now e (tools_checked start names statuses) =
    (e, waits (agents_checked start names statuses (Agents.health_check now e.agents)))
continue_warmup now e (agents_checked start names statuses reports) = (
  record e { warmed_up = true },
  answers (record {
    initialized_tools = names;
    tool_health = statuses;
    agent_health = reports;
    duration_ms = now - start;
  }),
)

-- The tools that the warm-up warns of.
unfoldable pub degraded_tools : List Status → List Status
unfolding Health-discrete
degraded_tools statuses =
    filter (λ s. not s.healthy || ite (Health-discrete s.report.state degraded) true false) statuses

-- `shutdown` up to the end of `tools.cleanupAll`, and whether it goes on.
unfoldable pub begin_shutdown : Environment → Environment × Bool
begin_shutdown e = if e.shut_down then (e, false) else (record e { log = cleaned ∷ e.log }, true)

abbrev pub end_shutdown : Environment → Environment
end_shutdown e = record e { shut_down = true }

abbrev pub cost_registered : Text → Option ℕ → Collector → Collector
cost_registered name none c = c
cost_registered name (some cost) c = register_tool_cost name cost c

-- The promise of `tools.register` is not awaited; the cost is registered even if it is rejected.
unfoldable pub register_tool : Tool → Environment → Environment
unfolding Registry.register register_tool_cost
register_tool t e = record e {
  tools = (Registry.register t false e.tools).0;
  collector = cost_registered t.name t.estimated_cost_usd e.collector;
}

unfoldable pub register_agent : Agent → Environment → Environment × Result (Unit {0})
unfolding Agents.register
register_agent a e =
    let (agents, r) = Agents.register a e.agents in (record e { agents = agents }, r)

unfoldable pub health_check : ℕ → ℕ → Environment → Environment × List Status × List HealthReport
unfolding Registry.health_check Agents.health_check
health_check tools_now agents_now e =
    let (tools, statuses) = Registry.health_check tools_now e.tools in
    (record e { tools = tools }, statuses, Agents.health_check agents_now e.agents)
