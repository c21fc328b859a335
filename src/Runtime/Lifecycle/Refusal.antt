-- ===== src/Runtime/Lifecycle/Refusal.antt =====
-- Runs that are refused before the agent is called.
use agent_diaries_core.Prelude.{
  ℕ, ◌+◌, ◌-◌, ◌≡◌, refl, ◌∙◌, ap, Bool, true, false, [], ◌∷◌, Option, none, some, arith, Text,
  if◌then◌else◌,
}
use agent_diaries_core.JsMap
use agent_diaries_core.Shared.{Value, Error, message, agent_not_found, agent_invalid}
use agent_diaries_core.Shared.Effect.{M, Result, ok, err, throw, ◌>>◌}
use agent_diaries_core.Workflow.Domain.{Env}
use agent_diaries_core.Agents.{Agent, AgentResult, Validation, Context}
use agent_diaries_core.Runtime.Lifecycle.{
  Tracer, Services, Options, State, execute, or_invalid, clear_timer, context_of, check_input,
  run_found, run,
}

-- The error of a run whose agent does not take the input.
abbrev pub refusal_by : Text → Result Validation → Option Error
refusal_by id (err e) = some (agent_invalid id (message e ∷ []))
refusal_by id (ok v) = if v.valid then none else some (agent_invalid id (or_invalid v.errors))

abbrev pub refusal_of : Text → Value → Option Agent → Option Error
refusal_of id input none = some (agent_not_found id)
refusal_of id input (some agent) = refusal_by id (agent.validate input)

abbrev pub IsQuiet : State → State → Type 0
IsQuiet s t = (t.world.events ≡ s.world.events) × (t.world.db ≡ s.world.db) × (t.timers ≡ s.timers)

pub refused_by_test :
    (b : Bool) (x e : Error) (m : M State AgentResult) (s : State)
    → (if b then none else some x) ≡ some e
    → let p = (if b then m else (clear_timer >> throw x)) s in
      (p.1 ≡ err e) × (p.0 ≡ record s { timers = s.timers - 1 })
refused_by_test true x e m s h = cc
refused_by_test false x e m s h = (cc, refl)

pub check_input-refused :
    (env : Env) (tracing : Option Tracer) (agent : Agent) (input : Value) (ctx : Context)
    (start : ℕ) (v : Result Validation) (s : State) (e : Error)
    → refusal_by ctx.agent_id v ≡ some e
    → let p = check_input env tracing agent input ctx start v s in
      (p.1 ≡ err e) × (p.0 ≡ record s { timers = s.timers - 1 })
unfolding check_input
check_input-refused env tracing agent input ctx start (err x) s e h = (cc, refl)
check_input-refused env tracing agent input ctx start (ok v) s e h =
    refused_by_test v.valid (agent_invalid ctx.agent_id (or_invalid v.errors)) e
      (execute env tracing agent input ctx start) s h

pub run_found-refused :
    (env : Env) (services : Services) (id : Text) (input : Value) (o : Options) (start : ℕ)
    (a : Option Agent) (s : State) (e : Error)
    → refusal_of id input a ≡ some e
    → let p = run_found env services id input o start a s in (p.1 ≡ err e) × IsQuiet s p.0
unfolding run_found
run_found-refused env services id input o start none s e h = (cc, (refl, refl, refl))
run_found-refused env services id input o start (some agent) s e h =
    let checked : State = record s {
      timers = s.timers + 1;
      world = record s.world { ids = s.world.ids + 1 };
    } in
    let (a, b) =
      check_input-refused env services.tracing agent input
        (context_of services id o agent (env.uuid s.world.ids)) start (agent.validate input) checked
        e h in
    (
      a,
      (
        ap (λ (t : State). t.world.events) b,
        ap (λ (t : State). t.world.db) b,
        ap (λ (t : State). t.timers) b ∙ omega arith,
      ),
    )

-- A run whose agent is missing, or whose validation throws or says that the input is not valid,
-- throws the error of that, emits no event, writes nothing and leaves no timer.
pub run-refused :
    (env : Env) (services : Services) (id : Text) (input : Value) (o : Options) (s : State)
    (e : Error)
    → refusal_of id input (JsMap.get id services.agents) ≡ some e
    → ((run env services id input o s).1 ≡ err e) × IsQuiet s (run env services id input o s).0
unfolding run
run-refused env services id input o s e h =
    run_found-refused env services id input o (env.time s.world.ticks)
      (JsMap.get id services.agents)
      (record s { world = record s.world { ticks = s.world.ticks + 1 } }) e h
