-- ===== src/Runtime/Lifecycle/Outcome.antt =====
-- How a run of an agent ends.
use agent_diaries_core.Prelude.{
  ℕ, ◌+◌, ◌-◌, ◌≡◌, refl, sym, ◌∙◌, ap, true, ◌∷◌, ◌++◌, Option, none, some, Text, codes, subst,
}
use agent_diaries_core.JsMap
use agent_diaries_core.Shared.{Value, DomainEvent, SpanStatus, agent_started}
use agent_diaries_core.Shared.Effect.{
  Result, ok, err, ◌>>=◌, bind-ok, bind-err, catch-ok, catch-err, catch_total,
}
use agent_diaries_core.Workflow.Domain.{Env, World}
use agent_diaries_core.Agents.{Agent, AgentResult, Validation, Context}
use agent_diaries_core.Runtime.Lifecycle.{
  Tracer, Services, Options, State, lift, Opened, open_span, open_trace, Call, call_of, start_agent,
  context_of, failure, conclude, give_up, call_agent, execute, check_input, run_found, run,
}
use agent_diaries_core.Runtime.Lifecycle.Heard.{
  agent_log, IsSilentIf, open_trace-Heard, close_trace-Heard,
}
use agent_diaries_core.Runtime.Lifecycle.Closing.{
  ended, completed_event, failed_event, conclude_lem, give_up_lem, stopped,
}

-- What the agent decides: the answer and the last event.
unfoldable pub Settled : Call → World × Result AgentResult → AgentResult → DomainEvent → Type 0
Settled c (w, ok raw) r e =
    (r ≡ record raw { duration_ms = r.duration_ms; trace_id = some c.trace_id })
    × (e ≡ completed_event c r.duration_ms raw)
Settled c (w, err x) r e = (r ≡ failure c r.duration_ms x) × (e ≡ failed_event c r.duration_ms x)

-- A run that has an answer, and that has added one event to those up to the end of its agent.
unfoldable pub Answers : Call → World × Result AgentResult → State × Result AgentResult → Type 0
Answers c decided p =
    (r : AgentResult) × (e : DomainEvent) × (p.1 ≡ ok r)
    × Settled c decided r e
    × (agent_log p.0.world.events ≡ e ∷ agent_log decided.0.events)

call_agent-Answers :
    (env : Env) (tracing : Option Tracer) (agent : Agent) (input : Value) (ctx : Context) (c : Call)
    (s : State) (decided : World × Result AgentResult)
    → IsSilentIf tracing
    → agent.execute input ctx s.world ≡ decided
    → Answers c decided (call_agent env tracing agent input ctx c s)
unfolding call_agent Answers Settled
call_agent-Answers env tracing agent input ctx c s (w, ok raw) q e =
    let m = lift (agent.execute input ctx) in
    let u : State = record s { world = w } in
    let ms = env.time w.ticks - c.start in
    let whole = catch-ok (m >>= conclude env tracing c) (give_up env tracing c) (
      bind-ok m (conclude env tracing c)
        (ap (λ (p : World × Result AgentResult). (record s { world = p.0 }, p.1)) e)
      ∙ conclude_lem env tracing c raw u) in
    (
      record raw { duration_ms = ms; trace_id = some c.trace_id },
      completed_event c ms raw,
      ap (λ (p : State × Result AgentResult). p.1) whole,
      (refl, refl),
      ap (λ (p : State × Result AgentResult). agent_log p.0.world.events) whole
          ∙ ap (◌∷◌ (completed_event c ms raw)) (
              close_trace-Heard (agent_log w.events) tracing c.opened SpanStatus.ok q (stopped u)
                refl),
    )
call_agent-Answers env tracing agent input ctx c s (w, err x) q e =
    let m = lift (agent.execute input ctx) in
    let u : State = record s { world = w } in
    let ms = env.time w.ticks - c.start in
    let whole =
      catch-err (m >>= conclude env tracing c) (give_up env tracing c) (
        bind-err m (conclude env tracing c)
          (ap (λ (p : World × Result AgentResult). (record s { world = p.0 }, p.1)) e))
      ∙ give_up_lem env tracing c x u in
    (
      failure c ms x,
      failed_event c ms x,
      ap (λ (p : State × Result AgentResult). p.1) whole,
      (refl, refl),
      ap (λ (p : State × Result AgentResult). agent_log p.0.world.events) whole
          ∙ ap (◌∷◌ (failed_event c ms x)) (
              close_trace-Heard (agent_log w.events) tracing c.opened SpanStatus.error q (stopped u)
                refl),
    )

pub open_trace-total :
    (tracing : Option Tracer) (id : Text) (workflow_id : Option Text) (s : State)
    → (o : Opened) × (t : State) × (open_trace tracing id workflow_id s ≡ (t, ok o))
unfolding open_trace
open_trace-total none id workflow_id s = ((none, none), s, refl)
open_trace-total (some t) id workflow_id s =
    let m = lift (t.start_trace (codes "agent." ++ id) workflow_id) >>= λ trace.
    open_span t trace.trace_id in
    let (o, e) = catch_total m (λ x. (none, none)) s in (o, (m s).0, e)

-- The agent of a call sees the world in which `AgentStarted` is the last event.
execute-Answers :
    (env : Env) (tracing : Option Tracer) (agent : Agent) (input : Value) (ctx : Context)
    (start : ℕ) (s : State)
    → IsSilentIf tracing
    → (w : World) × (c : Call) × (agent_log w.events
        ≡ agent_started ctx.agent_id ctx.trace_id ctx.workflow_id ∷ agent_log s.world.events)
      × (c.agent_id ≡ ctx.agent_id)
      × (c.trace_id ≡ ctx.trace_id)
      × (c.start ≡ start)
      × Answers c (agent.execute input ctx w) (execute env tracing agent input ctx start s)
unfolding execute start_agent
execute-Answers env tracing agent input ctx start s q =
    let (o, t, e) = open_trace-total tracing ctx.agent_id ctx.workflow_id s in
    let c = call_of ctx start o in
    let first = agent_started ctx.agent_id ctx.trace_id ctx.workflow_id in
    let u = ended first t in
    let whole =
      bind-ok (open_trace tracing ctx.agent_id ctx.workflow_id)
        (start_agent env tracing agent input ctx start) e in
    let heard =
      open_trace-Heard (agent_log s.world.events) tracing ctx.agent_id ctx.workflow_id q s refl in
    (
      u.world,
      c,
      ap (◌∷◌ first)
          (ap (λ (p : State × Result Opened). agent_log p.0.world.events) (sym e) ∙ heard),
      refl,
      refl,
      refl,
      subst (Answers c (agent.execute input ctx u.world)) (sym whole)
          (call_agent-Answers env tracing agent input ctx c u _ q refl),
    )

-- A registered agent, called with an input that it accepts.
module _ (env : Env) (services : Services) (id : Text) (input : Value) (o : Options) (s : State)
    (agent : Agent) (found : JsMap.get id services.agents ≡ some agent) where
  -- The state in which the input is checked.
  abbrev pub checking : State
  checking = record s {
    timers = s.timers + 1;
    world = record s.world { ticks = s.world.ticks + 1; ids = s.world.ids + 1 };
  }

  abbrev pub context : Context
  context = context_of services id o agent (env.uuid s.world.ids)

  pub run-checks :
      run env services id input o s
      ≡ check_input env services.tracing agent input context
          (env.time s.world.ticks)
          (agent.validate input)
          checking
  unfolding run run_found
  run-checks =
      ap
        (λ a.
          run_found env services id input o (env.time s.world.ticks) a
            (record s { world = record s.world { ticks = s.world.ticks + 1 } }))
        found

  -- A run with an input that its agent accepts never throws, if the tracing service emits no
  -- events of agents. Its events of agents are, on top of the earlier ones: one `AgentStarted`, with
  -- which the agent is called in the context of the run, then what the agent emits itself, then one
  -- last event. How the agent ends decides the answer, and whether the last event is
  -- `AgentCompleted` or `AgentFailed`; both have the duration of the answer.
  pub run-Answers :
      (v : Validation)
      → agent.validate input ≡ ok v
      → v.valid ≡ true
      → IsSilentIf services.tracing
      → (w : World) × (c : Call) × (agent_log w.events
          ≡ agent_started id (env.uuid s.world.ids) o.workflow_id ∷ agent_log s.world.events)
        × (c.agent_id ≡ id)
        × (c.trace_id ≡ env.uuid s.world.ids)
        × (c.start ≡ env.time s.world.ticks)
        × Answers c (agent.execute input context w) (run env services id input o s)
  unfolding check_input
  run-Answers v e valid q =
      let start = env.time s.world.ticks in
      let (w, c, a, b, d, f, g) =
        execute-Answers env services.tracing agent input context start checking q in
      let accepted : check_input env services.tracing agent input context start (ok v) checking
          ≡ execute env services.tracing agent input context start checking =
        rw valid refl in
      (
        w,
        c,
        a,
        b,
        d,
        f,
        subst (Answers c (agent.execute input context w))
            (sym (
              run-checks
              ∙ ap (λ r. check_input env services.tracing agent input context start r checking) e
              ∙ accepted))
            g,
      )
