-- ===== src/Runtime/Lifecycle/Tracing/Runs.antt =====
-- How the trace of a run ends.
use agent_diaries_core.Prelude.{
  ℕ, ◌+◌, ◌-◌, ◌≡◌, refl, sym, ◌∙◌, ap, true, ◌∷◌, Option, some, Text, subst,
}
use agent_diaries_core.JsMap
use agent_diaries_core.Shared.{
  Value, SpanStatus, TraceStatus, TraceRecord, DomainEvent, agent_started,
}
use agent_diaries_core.Shared.Effect.{
  Result, ok, err, ◌>>=◌, bind-ok, bind-err, catch-ok, catch-err,
}
use agent_diaries_core.Workflow.Domain.{Env, World}
use agent_diaries_core.Agents.{Agent, AgentResult, Validation, Context}
use agent_diaries_core.Runtime.Lifecycle.{
  tracing_service, Services, Options, State, lift, open_trace, close_trace, Call, call_of,
  start_agent, conclude, give_up, call_agent, execute, check_input, run,
}
use agent_diaries_core.Runtime.Lifecycle.Closing.{
  ended, stopped, completed_event, failed_event, conclude_lem, give_up_lem,
}
use agent_diaries_core.Runtime.Lifecycle.Outcome.{checking, context, run-checks}
use agent_diaries_core.Runtime.Lifecycle.Tracing.{
  Traced, traced, Any, IsOver, close_trace-Traced, open_trace-Traced,
}

abbrev pub status_of : Result AgentResult → TraceStatus
status_of (ok r) = TraceStatus.completed
status_of (err e) = TraceStatus.failed

-- The agent, and what it calls, leave the trace in the storage.
abbrev pub KeepsTrace : Text → Agent → Value → Context → Type 0
KeepsTrace id agent input ctx =
    (w : World) → Traced id Any w → Traced id Any (agent.execute input ctx w).0

ended-Traced :
    (id : Text) (P : TraceRecord → Type 0) (e : DomainEvent) (s : State)
    → Traced id P s.world
    → Traced id P (ended e s).world
ended-Traced id P e s (traced t f i p) = traced t f i p

stopped-Traced :
    (id : Text) (P : TraceRecord → Type 0) (s : State)
    → Traced id P s.world
    → Traced id P (stopped s).world
stopped-Traced id P s (traced t f i p) = traced t f i p

module _ (env : Env) (agent : Agent) (input : Value) (ctx : Context) (c : ℕ) (cs : Text)
    (span : Option Text) (start : ℕ) where
  -- The call, with the trace that was opened.
  abbrev k : Call
  k = call_of ctx start (some (c ∷ cs), span)

  call_agent-Traced :
      (s : State) (decided : World × Result AgentResult)
      → agent.execute input ctx s.world ≡ decided
      → Traced (c ∷ cs) Any decided.0
      → Traced
          (c ∷ cs)
          (IsOver (status_of decided.1))
          (call_agent env (some (tracing_service env)) agent input ctx k s).0.world
  unfolding call_agent
  call_agent-Traced s (w, ok raw) e t =
      let tracing = some (tracing_service env) in
      let m = lift (agent.execute input ctx) in
      let u : State = record s { world = w } in
      let ms = env.time w.ticks - start in
      let whole = catch-ok (m >>= conclude env tracing k) (give_up env tracing k) (
        bind-ok m (conclude env tracing k)
          (ap (λ (p : World × Result AgentResult). (record s { world = p.0 }, p.1)) e)
        ∙ conclude_lem env tracing k raw u) in
      subst
        (λ (p : State × Result AgentResult).
          Traced (c ∷ cs) (IsOver TraceStatus.completed) p.0.world)
        (sym whole)
        (ended-Traced (c ∷ cs) (IsOver TraceStatus.completed) (completed_event k ms raw)
          (close_trace tracing k.opened SpanStatus.ok (stopped u)).0
          (close_trace-Traced env c cs span SpanStatus.ok (stopped u)
            (stopped-Traced (c ∷ cs) Any u t)))
  call_agent-Traced s (w, err x) e t =
      let tracing = some (tracing_service env) in
      let m = lift (agent.execute input ctx) in
      let u : State = record s { world = w } in
      let ms = env.time w.ticks - start in
      let whole =
        catch-err (m >>= conclude env tracing k) (give_up env tracing k) (
          bind-err m (conclude env tracing k)
            (ap (λ (p : World × Result AgentResult). (record s { world = p.0 }, p.1)) e))
        ∙ give_up_lem env tracing k x u in
      subst
        (λ (p : State × Result AgentResult). Traced (c ∷ cs) (IsOver TraceStatus.failed) p.0.world)
        (sym whole)
        (ended-Traced (c ∷ cs) (IsOver TraceStatus.failed) (failed_event k ms x)
          (close_trace tracing k.opened SpanStatus.error (stopped u)).0
          (close_trace-Traced env c cs span SpanStatus.error (stopped u)
            (stopped-Traced (c ∷ cs) Any u t)))

execute-Traced :
    (env : Env) (agent : Agent) (input : Value) (ctx : Context) (start c : ℕ) (cs : Text)
    (s : State)
    → env.uuid s.world.ids ≡ c ∷ cs
    → KeepsTrace (c ∷ cs) agent input ctx
    → (w : World) × Traced
        (c ∷ cs)
        (IsOver (status_of (agent.execute input ctx w).1))
        (execute env (some (tracing_service env)) agent input ctx start s).0.world
unfolding execute start_agent
execute-Traced env agent input ctx start c cs s i keeps =
    let tracing = some (tracing_service env) in
    let (span, opened, there) =
      subst
        (λ id.
          let p = open_trace tracing ctx.agent_id ctx.workflow_id s in
          (o : Option Text) × (p ≡ (p.0, ok (some id, o))) × Traced id Any p.0.world)
        i (open_trace-Traced env ctx.agent_id ctx.workflow_id s) in
    let t = (open_trace tracing ctx.agent_id ctx.workflow_id s).0 in
    let u = ended (agent_started ctx.agent_id ctx.trace_id ctx.workflow_id) t in
    let whole =
      bind-ok (open_trace tracing ctx.agent_id ctx.workflow_id)
        (start_agent env tracing agent input ctx start) opened in
    (
      u.world,
      subst
          (λ (p : State × Result AgentResult).
            Traced (c ∷ cs) (IsOver (status_of (agent.execute input ctx u.world).1)) p.0.world)
          (sym whole)
          (call_agent-Traced env agent input ctx c cs span start u _ refl
            (keeps u.world (ended-Traced (c ∷ cs) Any _ t there))),
    )

-- With the tracing service, a run with an input that its agent accepts ends the trace that it has
-- opened: as completed if the agent returned, and as failed if it threw, with its end time. The
-- identifier of the trace is not empty, and the agent leaves the trace in the storage.
pub run-Traced :
    (env : Env) (services : Services) (id : Text) (input : Value) (o : Options) (s : State)
    (agent : Agent) (found : JsMap.get id services.agents ≡ some agent) (v : Validation) (c : ℕ)
    (cs : Text)
    → services.tracing ≡ some (tracing_service env)
    → agent.validate input ≡ ok v
    → v.valid ≡ true
    → env.uuid (s.world.ids + 1) ≡ c ∷ cs
    → KeepsTrace (c ∷ cs) agent input (context env services id input o s agent found)
    → (w : World) × Traced
        (c ∷ cs)
        (IsOver
          (status_of (agent.execute input (context env services id input o s agent found) w).1))
        (run env services id input o s).0.world
unfolding check_input
run-Traced env services id input o s agent found v c cs is e valid i keeps =
    let start = env.time s.world.ticks in
    let ctx = context env services id input o s agent found in
    let at = checking env services id input o s agent found in
    let (w, t) = execute-Traced env agent input ctx start c cs at i keeps in
    let tracing = some (tracing_service env) in
    let accepted : check_input env tracing agent input ctx start (ok v) at
        ≡ execute env tracing agent input ctx start at =
      rw valid refl in
    let whole : run env services id input o s ≡ execute env tracing agent input ctx start at =
      run-checks env services id input o s agent found
      ∙ ap (λ x. check_input env x agent input ctx start (agent.validate input) at) is
      ∙ ap (λ r. check_input env tracing agent input ctx start r at) e
      ∙ accepted in
    (
      w,
      subst
          (λ (p : State × Result AgentResult).
            Traced (c ∷ cs) (IsOver (status_of (agent.execute input ctx w).1)) p.0.world)
          (sym whole) t,
    )
