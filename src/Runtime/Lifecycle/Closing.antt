-- ===== src/Runtime/Lifecycle/Closing.antt =====
-- What follows the end of an agent: the trace is closed and the event is emitted.
use agent_diaries_core.Prelude.{ℕ, ◌+◌, ◌-◌, ◌≡◌, refl, sym, ◌∙◌, ap, [], ◌∷◌, Option, none, some}
use agent_diaries_core.Shared.{
  Error, message, SpanStatus, DomainEvent, agent_completed, agent_failed,
}
use agent_diaries_core.Shared.Effect.{Result, ok, ◌>>◌, bind-ok, catch_quiet}
use agent_diaries_core.Workflow.Domain.{Env}
use agent_diaries_core.Agents.{AgentResult}
use agent_diaries_core.Runtime.Lifecycle.{
  Tracer, State, lift, Opened, finish_span_if, trace_status, close_trace, Call, or_no_tools,
  answer_with, failure, conclude, give_up,
}

-- Closing a trace never throws.
pub close_trace_lem :
    (tracing : Option Tracer) (o : Opened) (status : SpanStatus) (s : State)
    → close_trace tracing o status s ≡ ((close_trace tracing o status s).0, ok tt)
unfolding close_trace
close_trace_lem none o status s = refl
close_trace_lem (some t) (none, span) status s = refl
close_trace_lem (some t) (some [], span) status s = refl
close_trace_lem (some t) (some (c ∷ cs), span) status s =
    let m =
      finish_span_if t (c ∷ cs) span status
      >> lift (t.finish_trace (c ∷ cs) (trace_status status)) in
    let e = catch_quiet m s in e ∙ sym (ap (λ (p : State × Result (Unit {0})). (p.0, ok tt)) e)

-- A world that emits a last event.
abbrev pub ended : DomainEvent → State → State
ended e s = record s { world = record s.world { events = e ∷ s.world.events } }

-- The timer is cleared and the clock is read.
abbrev pub stopped : State → State
stopped s = record s { timers = s.timers - 1; world = record s.world { ticks = s.world.ticks + 1 } }

abbrev pub completed_event : Call → ℕ → AgentResult → DomainEvent
completed_event c ms raw =
    agent_completed c.agent_id c.trace_id c.workflow_id ms (or_no_tools raw.tools_used)

abbrev pub failed_event : Call → ℕ → Error → DomainEvent
failed_event c ms e = agent_failed c.agent_id c.trace_id c.workflow_id ms (message e)

pub conclude_lem :
    (env : Env) (tracing : Option Tracer) (c : Call) (raw : AgentResult) (s : State)
    → let ms = env.time s.world.ticks - c.start in
      conclude env tracing c raw s ≡ (
        ended (completed_event c ms raw) (close_trace tracing c.opened SpanStatus.ok (stopped s)).0,
        ok (record raw { duration_ms = ms; trace_id = some c.trace_id }),
      )
unfolding conclude
conclude_lem env tracing c raw s =
    let ms = env.time s.world.ticks - c.start in
    bind-ok (close_trace tracing c.opened SpanStatus.ok)
      (λ _.
        answer_with (completed_event c ms raw)
          (record raw { duration_ms = ms; trace_id = some c.trace_id }))
      (close_trace_lem tracing c.opened SpanStatus.ok (stopped s))

pub give_up_lem :
    (env : Env) (tracing : Option Tracer) (c : Call) (e : Error) (s : State)
    → let ms = env.time s.world.ticks - c.start in
      give_up env tracing c e s ≡ (
        ended (failed_event c ms e) (close_trace tracing c.opened SpanStatus.error (stopped s)).0,
        ok (failure c ms e),
      )
unfolding give_up
give_up_lem env tracing c e s =
    let ms = env.time s.world.ticks - c.start in
    bind-ok (close_trace tracing c.opened SpanStatus.error)
      (λ _. answer_with (failed_event c ms e) (failure c ms e))
      (close_trace_lem tracing c.opened SpanStatus.error (stopped s))
