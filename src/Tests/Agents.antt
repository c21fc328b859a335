-- ===== src/Tests/Agents.antt =====
-- One agent that answers and one that throws, and the runtime around them.
mod Observed
use agent_diaries_core.Prelude.{
  ◌+◌, ◌≡◌, refl, true, false, List, [], ◌∷◌, Option, none, some, Text-discrete, codes, length,
}
use agent_diaries_core.JsMap
use agent_diaries_core.Sorting.{text_le, IsSorted}
use agent_diaries_core.Shared.{undefined, null, string, Error, agent_invalid, agent_started}
use agent_diaries_core.Shared.Effect.{ok, err, return}
use agent_diaries_core.Workflow.Domain.{Env, World}
use agent_diaries_core.Tools.Registry.{includes}
use agent_diaries_core.Agents.{Agent, Agents, AgentResult, find_by_category, find_by_capability}
use agent_diaries_core.Agents.Statistics.{statistics, statistics-agrees, or_zero, nonempty}
use agent_diaries_core.Runtime.Lifecycle.{
  Services, Options, State, Call, tracing_service, context_of, run,
}
use agent_diaries_core.Runtime.Lifecycle.Outcome.{run-Answers, Answers}
use agent_diaries_core.Runtime.Lifecycle.Heard.{agent_log, tracing_service-IsSilent}
use agent_diaries_core.Runtime.Lifecycle.Timers.{run-timers}
use agent_diaries_core.Runtime.Lifecycle.Refusal.{run-refused, refusal_of, IsQuiet}
use agent_diaries_core.Runtime.Lifecycle.Tracing.{Traced, IsOver}
use agent_diaries_core.Runtime.Lifecycle.Tracing.Runs.{KeepsTrace, status_of, run-Traced}
use agent_diaries_core.Tools.Registry.{initialize_all}
use agent_diaries_core.Runtime.Environment.{
  begin_warmup, continue_warmup, begin_shutdown, register_agent,
}
use agent_diaries_core.Runtime.Environment.Turns.{
  Turn, begins_warmup, continues_warmup, begins_shutdown, ends_shutdown, adds_agent, new_runtime,
  continue_at, finish_shutdown, advance, advance_all, is_serial,
}
use agent_diaries_core.Runtime.Environment.Logged.{initializations, cleanups}
use agent_diaries_core.Runtime.Environment.Once.{advance_all-once}
use agent_diaries_core.Runtime.Collector.Snapshots.{Collector}

abbrev host : Env
host = record { time = λ n. 100 + n; uuid = λ n. n ∷ [] }

abbrev world : World
world = record {
  db = record { workflows = []; traces = []; timeline = []; metrics = []; reports = [] };
  workers = [];
  events = [];
  ticks = 0;
  ids = 0;
}

abbrev answer : AgentResult
answer = record {
  success = true;
  payload = string (codes "done");
  error = none;
  duration_ms = 0;
  agent_id = codes "writer";
  trace_id = none;
  tools_used = some (codes "file" ∷ []);
  cost = undefined;
}

abbrev writer : Agent
writer = record {
  metadata = record {
    id = codes "writer";
    name = codes "Writer";
    version = codes "1.0.0";
    category = codes "documents";
    capabilities = record { name = codes "write"; version = none; description = none } ∷ [];
    description = none;
    author = none;
    required_tools = none;
    tags = none;
  };
  validate = λ input. ok (record { valid = true; errors = none });
  execute = λ input ctx. return answer;
  health_check = ok (record { healthy = true; message = none; last_checked = none });
}

abbrev reader : Agent
reader = record writer {
  metadata = record writer.metadata { id = codes "reader" };
  validate = λ input. ok (record { valid = false; errors = some (codes "no file" ∷ []) });
}

abbrev agents : Agents
agents = (codes "writer", writer) ∷ (codes "reader", reader) ∷ []

abbrev services : Services
services = record { tools = []; agents = agents; tracing = some (tracing_service host) }

abbrev options : Options
options = record { timeout = none; workflow_id = none; metadata = none }

abbrev state : State
state = record { world = world; timers = 2 }

finds_writer : JsMap.get (codes "writer") services.agents ≡ some writer
unfolding JsMap.get Text-discrete
finds_writer = refl

run-Answers_example :
    (w : World) × (c : Call) × (agent_log w.events
      ≡ agent_started (codes "writer") (0 ∷ []) none ∷ [])
    × (c.agent_id ≡ codes "writer")
    × (c.trace_id ≡ 0 ∷ [])
    × (c.start ≡ 100)
    × Answers c
        (writer.execute null (context_of services (codes "writer") options writer (0 ∷ [])) w)
        (run host services (codes "writer") null options state)
run-Answers_example =
    run-Answers host services (codes "writer") null options state writer finds_writer
      (record { valid = true; errors = none }) refl refl (tracing_service-IsSilent host)

abbrev no_counts : Collector
no_counts = record { tool_states = []; agent_states = []; tool_cost_per_call = [] }

writer-KeepsTrace :
    KeepsTrace (1 ∷ []) writer null (context_of services (codes "writer") options writer (0 ∷ []))
writer-KeepsTrace w t = t

run-Traced_example :
    (w : World) × Traced
      (1 ∷ [])
      (IsOver (
        status_of
          (writer.execute null (context_of services (codes "writer") options writer (0 ∷ [])) w).1))
      (run host services (codes "writer") null options state).0.world
run-Traced_example =
    run-Traced host services (codes "writer") null options state writer finds_writer
      (record { valid = true; errors = none }) 1 [] refl refl refl refl writer-KeepsTrace

run-timers_example : (run host services (codes "writer") null options state).0.timers ≡ 2
run-timers_example = run-timers host services (codes "writer") null options state

refuses :
    ◌≡◌ {A = Option Error}
      (refusal_of (codes "reader") null (JsMap.get (codes "reader") services.agents))
      (some (agent_invalid (codes "reader") (codes "no file" ∷ [])))
unfolding JsMap.get Text-discrete
refuses = refl

run-refused_example :
    let p = run host services (codes "reader") null options state in
    (p.1 ≡ err (agent_invalid (codes "reader") (codes "no file" ∷ []))) × IsQuiet state p.0
run-refused_example =
    run-refused host services (codes "reader") null options state
      (agent_invalid (codes "reader") (codes "no file" ∷ [])) refuses

-- A tool is added during the warm-up, and a shut-down begins.
abbrev turns : List Turn
turns =
    begins_warmup 1
    ∷ adds_agent writer
    ∷ continues_warmup 0 2
    ∷ begins_shutdown
    ∷ continues_warmup 0 3
    ∷ continues_warmup 0 4
    ∷ ends_shutdown
    ∷ begins_warmup 5
    ∷ begins_shutdown
    ∷ []

are_serial : is_serial turns new_runtime ≡ true
unfolding is_serial advance begin_warmup continue_at continue_warmup begin_shutdown finish_shutdown
    register_agent
are_serial = refl

advance_all-once_example :
    (initializations (advance_all turns new_runtime).environment.log ≡ 1)
    × (cleanups (advance_all turns new_runtime).environment.log ≡ 1)
advance_all-once_example = advance_all-once turns are_serial

-- Two warm-ups at a time initialise the tools twice, and two shut-downs clean them up twice.
overlapping :
    let log =
      (advance_all
        (begins_warmup 1 ∷ begins_warmup 2 ∷ begins_shutdown ∷ begins_shutdown ∷ [])
        new_runtime).environment.log in
    (initializations log ≡ 2) × (cleanups log ≡ 2)
unfolding advance_all advance begin_warmup begin_shutdown initialize_all
overlapping = (refl, refl)

statistics-agrees_example :
    (or_zero (JsMap.get (codes "documents") (statistics agents).by_category)
      ≡ length (find_by_category (codes "documents") agents))
    × (includes (statistics agents).capabilities (codes "write")
        ≡ nonempty (find_by_capability (codes "write") agents))
    × IsSorted text_le (statistics agents).capabilities
statistics-agrees_example = statistics-agrees agents (codes "documents") (codes "write")
