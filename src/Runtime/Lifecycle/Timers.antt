-- ===== src/Runtime/Lifecycle/Timers.antt =====
-- No run of an agent leaves its timer behind, and a run that is refused changes nothing else either.
use agent_diaries_core.Prelude.{
  ℕ, ◌-◌, ◌≡◌, refl, sym, ◌∙◌, ap, [], ◌∷◌, ◌++◌, Option, none, some, arith, Text, codes,
  Option-cases, Bool-cases, inl, inr,
}
use agent_diaries_core.JsMap
use agent_diaries_core.Shared.{Value, SpanStatus}
use agent_diaries_core.Shared.Effect.{
  Result, ok, err, return, ◌>>=◌, ◌>>◌, bind-ok, bind-err, catch-ok, catch-err, Preserves,
  Preserves-bind, Preserves-catch,
}
use agent_diaries_core.Workflow.Domain.{Env, World}
use agent_diaries_core.Agents.{Agent, AgentResult, Validation, Context}
use agent_diaries_core.Runtime.Lifecycle.{
  Tracer, Services, Options, State, lift, Opened, open_span, open_trace, finish_span_if,
  trace_status, close_trace, Call, call_of, start_agent, conclude, give_up, call_agent, execute,
  check_input, run_found, run,
}
use agent_diaries_core.Runtime.Lifecycle.Outcome.{open_trace-total, run-checks, checking, context}
use agent_diaries_core.Runtime.Lifecycle.Closing.{conclude_lem, give_up_lem, stopped}

abbrev HasTimers : ℕ → State → Type 0
HasTimers n s = s.timers ≡ n

open_trace-HasTimers :
    (n : ℕ) (tracing : Option Tracer) (id : Text) (workflow_id : Option Text)
    → Preserves (HasTimers n) (open_trace tracing id workflow_id)
unfolding open_trace open_span
open_trace-HasTimers n none id workflow_id s h = h
open_trace-HasTimers n (some t) id workflow_id s h =
    Preserves-catch (HasTimers n)
      (lift (t.start_trace (codes "agent." ++ id) workflow_id) >>= λ trace.
        open_span t trace.trace_id)
      (λ e. return (none, none))
      (Preserves-bind (HasTimers n) (lift (t.start_trace (codes "agent." ++ id) workflow_id))
        (λ trace. open_span t trace.trace_id) (λ s h. h)
        (λ trace.
          Preserves-catch (HasTimers n)
            (lift (t.start_span trace.trace_id (codes "agent.execute")) >>= λ span.
              return (some trace.trace_id, some span.span_id))
            (λ e. return (some trace.trace_id, none))
            (Preserves-bind (HasTimers n)
              (lift (t.start_span trace.trace_id (codes "agent.execute")))
              (λ span. return (some trace.trace_id, some span.span_id)) (λ s h. h) (λ span s h. h))
            (λ e s h. h)))
      (λ e s h. h) s h

finish_span_if-HasTimers :
    (n : ℕ) (t : Tracer) (id : Text) (span : Option Text) (status : SpanStatus)
    → Preserves (HasTimers n) (finish_span_if t id span status)
finish_span_if-HasTimers n t id none status s h = h
finish_span_if-HasTimers n t id (some []) status s h = h
finish_span_if-HasTimers n t id (some (c ∷ cs)) status s h = h

close_trace-HasTimers :
    (n : ℕ) (tracing : Option Tracer) (o : Opened) (status : SpanStatus)
    → Preserves (HasTimers n) (close_trace tracing o status)
unfolding close_trace
close_trace-HasTimers n none o status s h = h
close_trace-HasTimers n (some t) (none, span) status s h = h
close_trace-HasTimers n (some t) (some [], span) status s h = h
close_trace-HasTimers n (some t) (some (c ∷ cs), span) status s h =
    Preserves-catch (HasTimers n)
      (finish_span_if t (c ∷ cs) span status
        >> lift (t.finish_trace (c ∷ cs) (trace_status status)))
      (λ e. return tt)
      (Preserves-bind (HasTimers n) (finish_span_if t (c ∷ cs) span status)
        (λ _. lift (t.finish_trace (c ∷ cs) (trace_status status)))
        (finish_span_if-HasTimers n t (c ∷ cs) span status) (λ _ s h. h))
      (λ e s h. h) s h

-- Calling the agent clears the timer, however the agent ends.
call_agent-timers :
    (env : Env) (tracing : Option Tracer) (agent : Agent) (input : Value) (ctx : Context) (c : Call)
    (s : State) (decided : World × Result AgentResult)
    → agent.execute input ctx s.world ≡ decided
    → (call_agent env tracing agent input ctx c s).0.timers ≡ s.timers - 1
unfolding call_agent
call_agent-timers env tracing agent input ctx c s (w, ok raw) e =
    let m = lift (agent.execute input ctx) in
    let u : State = record s { world = w } in
    ap (λ (p : State × Result AgentResult). p.0.timers)
      (catch-ok (m >>= conclude env tracing c) (give_up env tracing c) (
        bind-ok m (conclude env tracing c)
          (ap (λ (p : World × Result AgentResult). (record s { world = p.0 }, p.1)) e)
        ∙ conclude_lem env tracing c raw u))
    ∙ close_trace-HasTimers (s.timers - 1) tracing c.opened SpanStatus.ok (stopped u) refl
call_agent-timers env tracing agent input ctx c s (w, err x) e =
    let m = lift (agent.execute input ctx) in
    let u : State = record s { world = w } in
    ap (λ (p : State × Result AgentResult). p.0.timers)
      (catch-err (m >>= conclude env tracing c) (give_up env tracing c) (
          bind-err m (conclude env tracing c)
            (ap (λ (p : World × Result AgentResult). (record s { world = p.0 }, p.1)) e))
        ∙ give_up_lem env tracing c x u)
    ∙ close_trace-HasTimers (s.timers - 1) tracing c.opened SpanStatus.error (stopped u) refl

execute-timers :
    (env : Env) (tracing : Option Tracer) (agent : Agent) (input : Value) (ctx : Context)
    (start : ℕ) (s : State)
    → (execute env tracing agent input ctx start s).0.timers ≡ s.timers - 1
unfolding execute start_agent
execute-timers env tracing agent input ctx start s =
    let (o, t, e) = open_trace-total tracing ctx.agent_id ctx.workflow_id s in
    let kept = open_trace-HasTimers s.timers tracing ctx.agent_id ctx.workflow_id s refl in
    let same : t.timers ≡ s.timers =
      ap (λ (p : State × Result Opened). p.0.timers) (sym e) ∙ kept in
    ap (λ (p : State × Result AgentResult). p.0.timers)
      (bind-ok (open_trace tracing ctx.agent_id ctx.workflow_id)
        (start_agent env tracing agent input ctx start) e)
    ∙ call_agent-timers env tracing agent input ctx (call_of ctx start o) _ _ refl
    ∙ ap (λ n. n - 1) same

check_input-timers :
    (env : Env) (tracing : Option Tracer) (agent : Agent) (input : Value) (ctx : Context)
    (start : ℕ) (v : Result Validation) (s : State)
    → (check_input env tracing agent input ctx start v s).0.timers ≡ s.timers - 1
unfolding check_input
check_input-timers env tracing agent input ctx start (err e) s = refl
check_input-timers env tracing agent input ctx start (ok v) s = elim (Bool-cases v.valid) [
  | inl e ↦ rw e (execute-timers env tracing agent input ctx start s)
  | inr e ↦ rw e refl
]

-- Whether the agent is missing, refuses the input, returns or throws, and whatever the tracing
-- service does, a run leaves as many timers set as there were.
pub run-timers :
    (env : Env) (services : Services) (id : Text) (input : Value) (o : Options) (s : State)
    → (run env services id input o s).0.timers ≡ s.timers
unfolding run run_found
run-timers env services id input o s = elim (Option-cases (JsMap.get id services.agents)) [
  | inl e ↦ rw e refl
  | inr (agent, e) ↦
      ap (λ (p : State × Result AgentResult). p.0.timers)
        (run-checks env services id input o s agent e)
      ∙ check_input-timers env services.tracing agent input
          (context env services id input o s agent e) (env.time s.world.ticks)
          (agent.validate input) (checking env services id input o s agent e)
      ∙ omega arith
]
