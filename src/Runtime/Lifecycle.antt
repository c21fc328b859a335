-- ===== src/Runtime/Lifecycle.antt =====
-- src/runtime/AgentLifecycle.ts and src/runtime/AgentContext.ts. The tracing service is given by its
-- operations, which may throw.
pub mod Closing
pub mod Heard
pub mod Outcome
pub mod Refusal
pub mod Timers
pub mod Tracing
use agent_diaries_core.Prelude.{
  ℕ, ◌+◌, ◌-◌, false, List, [], ◌∷◌, ◌++◌, Option, none, some, Text, codes, if◌then◌else◌,
}
use agent_diaries_core.JsMap
use agent_diaries_core.Shared.{
  Value, undefined, Error, message, agent_not_found, agent_invalid, TraceRecord, TraceStatus,
  SpanRecord, SpanStatus, DomainEvent, agent_started, agent_completed, agent_failed,
}
use agent_diaries_core.Shared.Effect.{M, Result, ok, err, return, throw, catch, ◌>>=◌, ◌>>◌}
use agent_diaries_core.Workflow.Domain.{Env, World, date_now, random_uuid, emit}
use agent_diaries_core.Tools.Registry.{Registry, scoped}
use agent_diaries_core.Agents.{Agent, Agents, AgentResult, Validation, Context}
use agent_diaries_core.Observability.Traces.{start_trace, start_span, finish_span, finish_trace}

-- `TracingService`: the spans of a run have no parent and no attributes.
pub record Tracer : Type 0 where
  pub start_trace : Text → Option Text → M World TraceRecord
  pub start_span : Text → Text → M World SpanRecord
  pub finish_span : Text → Text → SpanStatus → M World (Unit {0})
  pub finish_trace : Text → TraceStatus → M World (Unit {0})

abbrev pub tracing_service : Env → Tracer
tracing_service env = record {
  start_trace = λ name workflow_id. start_trace env name workflow_id;
  start_span = λ trace_id name. start_span env trace_id name none [];
  finish_span = λ trace_id id status. finish_span env trace_id id status;
  finish_trace = λ trace_id status. finish_trace env trace_id status;
}

-- What the lifecycle uses of `ExecutionEnvironment`.
pub record Services : Type 0 where
  pub tools : Registry
  pub agents : Agents
  pub tracing : Option Tracer

-- `AgentLifecycleOptions`, but for the two that `run` does not read.
pub record Options : Type 0 where
  pub timeout : Option ℕ
  pub workflow_id : Option Text
  pub metadata : Option (List (Text × Value))

-- The world, and how many of the runs' timers are set.
pub record State : Type 0 where
  pub world : World
  pub timers : ℕ

abbrev pub lift : {A : Type 0} → M World A → M State A
lift m s = let (w, r) = m s.world in (record s { world = w }, r)

abbrev pub set_timer : M State (Unit {0})
set_timer s = (record s { timers = s.timers + 1 }, ok tt)

abbrev pub clear_timer : M State (Unit {0})
clear_timer s = (record s { timers = s.timers - 1 }, ok tt)

-- `opts.timeout`, with its default
abbrev pub time_limit : Option ℕ → ℕ
time_limit none = 60000
time_limit (some n) = n

abbrev pub or_no_metadata : Option (List (Text × Value)) → List (Text × Value)
or_no_metadata none = []
or_no_metadata (some m) = m

-- An agent that declares no tools sees all of them.
unfoldable pub scoped_tools : Option (List Text) → Registry → Registry
unfolding scoped
scoped_tools none tools = tools
scoped_tools (some []) tools = tools
scoped_tools (some (t ∷ ts)) tools = scoped (t ∷ ts) tools

-- The trace and the span of a run; an error leaves what is open so far.
abbrev pub Opened : Type 0
Opened = Option Text × Option Text

unfoldable pub open_span : Tracer → Text → M State Opened
open_span t id =
    catch
      (lift (t.start_span id (codes "agent.execute")) >>= λ span.
        return (some id, some span.span_id))
      (λ e. return (some id, none))

unfoldable pub open_trace : Option Tracer → Text → Option Text → M State Opened
unfolding open_span
open_trace none agent_id workflow_id = return (none, none)
open_trace (some t) agent_id workflow_id =
    catch
      (lift (t.start_trace (codes "agent." ++ agent_id) workflow_id) >>= λ trace.
        open_span t trace.trace_id)
      (λ e. return (none, none))

-- `safeEmit`: an error of an emission is caught, and the bus reports none.
abbrev pub safe_emit : DomainEvent → M State (Unit {0})
safe_emit e = catch (lift (emit e)) (λ x. return tt)

abbrev pub finish_span_if : Tracer → Text → Option Text → SpanStatus → M State (Unit {0})
finish_span_if t id none status = return tt
finish_span_if t id (some []) status = return tt
finish_span_if t id (some (c ∷ cs)) status = lift (t.finish_span id (c ∷ cs) status)

abbrev pub trace_status : SpanStatus → TraceStatus
trace_status SpanStatus.ok = TraceStatus.completed
trace_status SpanStatus.error = TraceStatus.failed

unfoldable pub close_trace : Option Tracer → Opened → SpanStatus → M State (Unit {0})
close_trace none o status = return tt
close_trace (some t) (none, span) status = return tt
close_trace (some t) (some [], span) status = return tt
close_trace (some t) (some (c ∷ cs), span) status =
    catch
      (finish_span_if t (c ∷ cs) span status
        >> lift (t.finish_trace (c ∷ cs) (trace_status status)))
      (λ e. return tt)

-- What a run knows when it calls its agent.
pub record Call : Type 0 where
  pub agent_id : Text
  pub trace_id : Text
  pub workflow_id : Option Text
  pub start : ℕ
  pub opened : Opened

abbrev pub or_no_tools : Option (List Text) → List Text
or_no_tools none = []
or_no_tools (some ts) = ts

abbrev pub answer_with : DomainEvent → AgentResult → M State AgentResult
answer_with event result = safe_emit event >> return result

abbrev pub failure : Call → ℕ → Error → AgentResult
failure c duration_ms e = record {
  success = false;
  payload = undefined;
  error = some (message e);
  duration_ms = duration_ms;
  agent_id = c.agent_id;
  trace_id = some c.trace_id;
  tools_used = none;
  cost = undefined;
}

-- The rest of `run` after the agent has returned.
unfoldable pub conclude : Env → Option Tracer → Call → AgentResult → M State AgentResult
unfolding close_trace
conclude env tracing c raw = do
  clear_timer
  now ← lift (date_now env)
  let result : AgentResult = record raw { duration_ms = now - c.start; trace_id = some c.trace_id }
  close_trace tracing c.opened SpanStatus.ok
  answer_with
      (agent_completed c.agent_id c.trace_id c.workflow_id result.duration_ms
        (or_no_tools result.tools_used))
      result

-- ... and after it has thrown.
unfoldable pub give_up : Env → Option Tracer → Call → Error → M State AgentResult
unfolding close_trace
give_up env tracing c e = do
  clear_timer
  now ← lift (date_now env)
  close_trace tracing c.opened SpanStatus.error
  answer_with (agent_failed c.agent_id c.trace_id c.workflow_id (now - c.start) (message e))
      (failure c (now - c.start) e)

unfoldable pub call_agent :
    Env → Option Tracer → Agent → Value → Context → Call → M State AgentResult
unfolding conclude give_up
call_agent env tracing agent input ctx c =
    catch (lift (agent.execute input ctx) >>= conclude env tracing c) (give_up env tracing c)

abbrev pub call_of : Context → ℕ → Opened → Call
call_of ctx start opened = record {
  agent_id = ctx.agent_id;
  trace_id = ctx.trace_id;
  workflow_id = ctx.workflow_id;
  start = start;
  opened = opened;
}

unfoldable pub start_agent :
    Env → Option Tracer → Agent → Value → Context → ℕ → Opened → M State AgentResult
unfolding call_agent
start_agent env tracing agent input ctx start opened = do
  safe_emit (agent_started ctx.agent_id ctx.trace_id ctx.workflow_id)
  call_agent env tracing agent input ctx (call_of ctx start opened)

-- Steps 6 to 8.
unfoldable pub execute : Env → Option Tracer → Agent → Value → Context → ℕ → M State AgentResult
unfolding open_trace start_agent
execute env tracing agent input ctx start =
    open_trace tracing ctx.agent_id ctx.workflow_id
    >>= start_agent env tracing agent input ctx start

abbrev pub or_invalid : Option (List Text) → List Text
or_invalid none = codes "invalid input" ∷ []
or_invalid (some errors) = errors

-- Step 5.
unfoldable pub check_input :
    Env → Option Tracer → Agent → Value → Context → ℕ → Result Validation → M State AgentResult
unfolding execute
check_input env tracing agent input ctx start (err e) =
    clear_timer >> throw (agent_invalid ctx.agent_id (message e ∷ []))
check_input env tracing agent input ctx start (ok v) =
    if v.valid
    then execute env tracing agent input ctx start
    else clear_timer >> throw (agent_invalid ctx.agent_id (or_invalid v.errors))

abbrev pub context_of : Services → Text → Options → Agent → Text → Context
context_of services agent_id o agent trace_id = record {
  trace_id = trace_id;
  workflow_id = o.workflow_id;
  agent_id = agent_id;
  timeout = time_limit o.timeout;
  tools = scoped_tools agent.metadata.required_tools services.tools;
  metadata = or_no_metadata o.metadata;
}

-- Steps 2 to 5, once the agent is found.
unfoldable pub run_found :
    Env → Services → Text → Value → Options → ℕ → Option Agent → M State AgentResult
unfolding scoped_tools check_input
run_found env services agent_id input o start none = throw (agent_not_found agent_id)
run_found env services agent_id input o start (some agent) = do
  set_timer
  trace_id ← lift (random_uuid env)
  check_input env services.tracing agent input (context_of services agent_id o agent trace_id) start
      (agent.validate input)

unfoldable pub run : Env → Services → Text → Value → Options → M State AgentResult
unfolding run_found
run env services agent_id input o = do
  start ← lift (date_now env)
  run_found env services agent_id input o start (JsMap.get agent_id services.agents)
