-- ===== src/Runtime/Lifecycle/Heard.antt =====
-- The events of agents among those of a run, which a quiet tracing service adds none to.
use agent_diaries_core.Prelude.{
  ◌+◌, ◌≡◌, Bool, true, false, List, [], ◌∷◌, ◌++◌, Option, none, some, Text, codes, filter,
  Bool-cases, Option-cases, inl, inr,
}
use agent_diaries_core.Shared.{
  SpanRecord, SpanStatus, TraceStatus, DomainEvent, agent_started, agent_completed, agent_failed,
}
use agent_diaries_core.Shared.Effect.{
  Preserves, Preserves-bind, Preserves-catch, kept-bind, return, ◌>>=◌, ◌>>◌,
}
use agent_diaries_core.Workflow.Domain.{Env, World}
use agent_diaries_core.Memory.Persistence.{get_trace}
use agent_diaries_core.Observability.Traces.{
  start_trace, start_span, record_trace, record_span, add_span, load_trace, has_span,
  end_found_span, finish_span_of, finish_span, finish_trace_of, finish_trace,
}
use agent_diaries_core.Runtime.Lifecycle.{
  Tracer, tracing_service, State, lift, Opened, open_span, open_trace, finish_span_if, trace_status,
  close_trace,
}

abbrev pub is_agent_event : DomainEvent → Bool
is_agent_event (agent_started id trace workflow) = true
is_agent_event (agent_completed id trace workflow ms tools) = true
is_agent_event (agent_failed id trace workflow ms error) = true
is_agent_event _ = false

-- The events of agents, the newest first.
abbrev pub agent_log : List DomainEvent → List DomainEvent
agent_log es = filter is_agent_event es

abbrev pub Heard : List DomainEvent → World → Type 0
Heard log w = agent_log w.events ≡ log

-- A tracing service that emits no event of an agent, whatever else it does.
pub record IsSilent (t : Tracer) : Type 0 where
  pub start_trace :
      (log : List DomainEvent) (name : Text) (workflow_id : Option Text)
      → Preserves (Heard log) (t.start_trace name workflow_id)
  pub start_span :
      (log : List DomainEvent) (id name : Text) → Preserves (Heard log) (t.start_span id name)
  pub finish_span :
      (log : List DomainEvent) (id span : Text) (status : SpanStatus)
      → Preserves (Heard log) (t.finish_span id span status)
  pub finish_trace :
      (log : List DomainEvent) (id : Text) (status : TraceStatus)
      → Preserves (Heard log) (t.finish_trace id status)

abbrev pub IsSilentIf : Option Tracer → Type 0
IsSilentIf none = Unit {0}
IsSilentIf (some t) = IsSilent t

module _ (log : List DomainEvent) where
  abbrev HeardBy : State → Type 0
  HeardBy s = Heard log s.world

  open_span-Heard : (t : Tracer) (id : Text) → IsSilent t → Preserves HeardBy (open_span t id)
  unfolding open_span
  open_span-Heard t id q =
      let m = lift (t.start_span id (codes "agent.execute")) in
      Preserves-catch HeardBy (m >>= λ span. return (some id, some span.span_id))
        (λ e. return (some id, none))
        (Preserves-bind HeardBy m (λ span. return (some id, some span.span_id))
          (λ s h. q.start_span log id (codes "agent.execute") s.world h) (λ span s h. h))
        (λ e s h. h)

  pub open_trace-Heard :
      (tracing : Option Tracer) (id : Text) (workflow_id : Option Text)
      → IsSilentIf tracing
      → Preserves HeardBy (open_trace tracing id workflow_id)
  unfolding open_trace
  open_trace-Heard none id workflow_id q s h = h
  open_trace-Heard (some t) id workflow_id q s h =
      let m = lift (t.start_trace (codes "agent." ++ id) workflow_id) in
      Preserves-catch HeardBy (m >>= λ trace. open_span t trace.trace_id) (λ e. return (none, none))
        (Preserves-bind HeardBy m (λ trace. open_span t trace.trace_id)
          (λ s h. q.start_trace log (codes "agent." ++ id) workflow_id s.world h)
          (λ trace. open_span-Heard t trace.trace_id q))
        (λ e s h. h) s h

  finish_span_if-Heard :
      (t : Tracer) (id : Text) (span : Option Text) (status : SpanStatus)
      → IsSilent t
      → Preserves HeardBy (finish_span_if t id span status)
  finish_span_if-Heard t id none status q s h = h
  finish_span_if-Heard t id (some []) status q s h = h
  finish_span_if-Heard t id (some (c ∷ cs)) status q s h =
      q.finish_span log id (c ∷ cs) status s.world h

  pub close_trace-Heard :
      (tracing : Option Tracer) (o : Opened) (status : SpanStatus)
      → IsSilentIf tracing
      → Preserves HeardBy (close_trace tracing o status)
  unfolding close_trace
  close_trace-Heard none o status q s h = h
  close_trace-Heard (some t) (none, span) status q s h = h
  close_trace-Heard (some t) (some [], span) status q s h = h
  close_trace-Heard (some t) (some (c ∷ cs), span) status q s h =
      let m = finish_span_if t (c ∷ cs) span status in
      let n = lift (t.finish_trace (c ∷ cs) (trace_status status)) in
      Preserves-catch HeardBy (m >> n) (λ e. return tt)
        (Preserves-bind HeardBy m (λ _. n) (finish_span_if-Heard t (c ∷ cs) span status q)
          (λ _ s h. q.finish_trace log (c ∷ cs) (trace_status status) s.world h))
        (λ e s h. h) s h

record_span-Heard :
    (log : List DomainEvent) (id : Text) (span : SpanRecord)
    → Preserves (Heard log) (record_span id span)
unfolding record_span add_span record_trace
record_span-Heard log id span w h = elim (Option-cases (get_trace id w.db)) [
  | inl e ↦ rw e h
  | inr (t, e) ↦ rw e h
]

-- The package's own service reports traces only.
pub tracing_service-IsSilent : (env : Env) → IsSilent (tracing_service env)
unfolding start_trace start_span finish_span finish_trace load_trace record_trace record_span
    add_span finish_span_of end_found_span finish_trace_of
tracing_service-IsSilent env = record {
  start_trace = λ log name workflow_id w h. h;
  start_span = λ log id name w h.
      let v : World = record w { ticks = w.ticks + 1; ids = w.ids + 1 } in
      kept-bind (Heard log) (record_span id _) (λ _. return _) v (record_span-Heard log id _ v h)
        (λ _ u k. k);
  finish_span = λ log id span status w h. elim (Option-cases (get_trace id w.db)) [
    | inl e ↦ rw e h
    | inr (t, e) ↦ elim (Bool-cases (has_span span t.spans)) [
      | inl f ↦ rw (e, f) h
      | inr f ↦ rw (e, f) h
    ]
  ];
  finish_trace = λ log id status w h. elim (Option-cases (get_trace id w.db)) [
    | inl e ↦ rw e h
    | inr (t, e) ↦ rw e h
  ];
}
