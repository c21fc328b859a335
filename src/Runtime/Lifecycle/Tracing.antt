-- ===== src/Runtime/Lifecycle/Tracing.antt =====
-- The trace that the tracing service keeps of a run.
pub mod Runs
use agent_diaries_core.Prelude.{
  ℕ, ◌+◌, ◌-◌, ◌≡◌, refl, sym, ◌∙◌, ap, [], ◌∷◌, ◌++◌, Option, none, some, Text, codes, subst, Bool,
  Bool-cases, inl, inr,
}
use agent_diaries_core.JsMap
use agent_diaries_core.Shared.{Error, SpanStatus, SpanRecord, TraceStatus, TraceRecord}
use agent_diaries_core.Shared.Effect.{
  M, Result, ok, return, ◌>>=◌, ◌>>◌, bind-ok, catch-ok, catch_quiet,
}
use agent_diaries_core.Memory.Persistence.{get_trace, save_trace}
use agent_diaries_core.Workflow.Domain.{Env, World}
use agent_diaries_core.Observability.Traces.{
  start_trace, start_span, record_trace, record_span, add_span, load_trace, has_span,
  end_found_span, finish_span_of, finish_span, finish_trace_of, finish_trace,
}
use agent_diaries_core.Runtime.Lifecycle.{
  tracing_service, State, lift, Opened, open_span, open_trace, finish_span_if, trace_status,
  close_trace, execute,
}

-- A trace is stored under its identifier, and it is as the predicate says.
pub data Traced (id : Text) (P : TraceRecord → Type 0) (w : World) : Type 0 where
  traced : (t : TraceRecord) → get_trace id w.db ≡ some t → t.trace_id ≡ id → P t → Traced id P w

abbrev pub Any : TraceRecord → Type 0
Any t = Unit {0}

abbrev pub IsOver : TraceStatus → TraceRecord → Type 0
IsOver status t = (t.status ≡ status) × ((n : ℕ) × (t.end_time ≡ some n))

record_trace-Traced :
    (id : Text) (P : TraceRecord → Type 0) (t : TraceRecord) (w : World)
    → t.trace_id ≡ id
    → P t
    → Traced id P (record_trace t w).0
unfolding record_trace get_trace save_trace
record_trace-Traced id P t w e p =
    traced t
      (ap (λ i. JsMap.get i (JsMap.set t.trace_id t w.db.traces)) (sym e)
        ∙ JsMap.get-set_self t.trace_id t w.db.traces)
      e p

module _ (env : Env) where
  finish_trace-Traced :
      (id : Text) (status : TraceStatus) (w : World)
      → Traced id Any w
      → (finish_trace env id status w).1 ≡ ok tt
        × Traced id (IsOver status) (finish_trace env id status w).0
  unfolding finish_trace load_trace finish_trace_of
  finish_trace-Traced id status w (traced t found e p) =
      rw found (refl, record_trace-Traced id (IsOver status) _ _ e (refl, (_, refl)))

  finish_span-Traced :
      (id span : Text) (status : SpanStatus) (w : World)
      → Traced id Any w
      → (finish_span env id span status w).1 ≡ ok tt
        × Traced id Any (finish_span env id span status w).0
  unfolding finish_span load_trace finish_span_of end_found_span
  finish_span-Traced id span status w (traced t found e p) =
      elim (Bool-cases (has_span span t.spans)) [
        | inl h ↦ rw (found, h) (refl, record_trace-Traced id Any _ _ e tt)
        | inr h ↦ rw (found, h) (refl, traced t found e tt)
      ]

  -- The service ends a trace that is there, with the status of the run.
  close_trace-Traced :
      (c : ℕ) (cs : Text) (span : Option Text) (status : SpanStatus) (s : State)
      → Traced (c ∷ cs) Any s.world
      → Traced
          (c ∷ cs)
          (IsOver (trace_status status))
          (close_trace (some (tracing_service env)) (some (c ∷ cs), span) status s).0.world
  unfolding close_trace
  close_trace-Traced c cs span status s t =
      let service = tracing_service env in
      let m =
        finish_span_if service (c ∷ cs) span status
        >> lift (service.finish_trace (c ∷ cs) (trace_status status)) in
      subst
        (λ (p : State × Result (Unit {0})).
          Traced (c ∷ cs) (IsOver (trace_status status)) p.0.world)
        (sym (catch_quiet m s)) (both_finish c cs span status s t)
    where
      both_finish :
          (d : ℕ) (ds : Text) (o : Option Text) (st : SpanStatus) (u : State)
          → Traced (d ∷ ds) Any u.world
          → Traced
              (d ∷ ds)
              (IsOver (trace_status st))
              ((finish_span_if (tracing_service env) (d ∷ ds) o st
                  >> lift (finish_trace env (d ∷ ds) (trace_status st)))
                u).0.world
      both_finish d ds none st u v = (finish_trace-Traced (d ∷ ds) (trace_status st) u.world v).1
      both_finish d ds (some []) st u v =
          (finish_trace-Traced (d ∷ ds) (trace_status st) u.world v).1
      both_finish d ds (some (x ∷ xs)) st u v =
          let (ends, kept) = finish_span-Traced (d ∷ ds) (x ∷ xs) st u.world v in
          let w = (finish_span env (d ∷ ds) (x ∷ xs) st u.world).0 in
          let mid : State = record u { world = w } in
          let joined =
            bind-ok (lift (finish_span env (d ∷ ds) (x ∷ xs) st))
              (λ _. lift (finish_trace env (d ∷ ds) (trace_status st))) (ap (λ r. (mid, r)) ends) in
          subst
            (λ (p : State × Result (Unit {0})).
              Traced (d ∷ ds) (IsOver (trace_status st)) p.0.world)
            (sym joined) (finish_trace-Traced (d ∷ ds) (trace_status st) w kept).1

  start_trace-Traced :
      (name : Text) (workflow_id : Option Text) (w : World)
      → (t : TraceRecord) × ((start_trace env name workflow_id w).1 ≡ ok t)
        × (t.trace_id ≡ env.uuid w.ids)
        × Traced (env.uuid w.ids) Any (start_trace env name workflow_id w).0
  unfolding start_trace
  start_trace-Traced name workflow_id w =
      (_, refl, refl, record_trace-Traced (env.uuid w.ids) Any _ _ refl tt)

  record_span-Traced :
      (id : Text) (x : SpanRecord) (w : World)
      → Traced id Any w
      → ((record_span id x w).1 ≡ ok tt) × Traced id Any (record_span id x w).0
  unfolding record_span add_span
  record_span-Traced id x w (traced t found e p) =
      rw found (refl, record_trace-Traced id Any _ _ e tt)

  start_span-Traced :
      (id name : Text) (w : World)
      → Traced id Any w
      → (x : SpanRecord) × ((start_span env id name none [] w).1 ≡ ok x)
        × Traced id Any (start_span env id name none [] w).0
  unfolding start_span get_trace
  start_span-Traced id name w (traced t found e p) =
      let x : SpanRecord = record {
        span_id = env.uuid w.ids;
        trace_id = id;
        parent_span_id = none;
        name = name;
        start_time = env.time w.ticks;
        end_time = none;
        status = SpanStatus.ok;
        attributes = [];
      } in
      let v : World = record w { ticks = w.ticks + 1; ids = w.ids + 1 } in
      let (ends, kept) = record_span-Traced id x v (traced t found e tt) in
      let u = (record_span id x v).0 in
      let f : Unit {0} → M World SpanRecord = λ y. return x in
      let whole = bind-ok (record_span id x) f (ap (λ r. (u, r)) ends) in
      (
        x,
        ap (λ (q : World × Result SpanRecord). q.1) whole,
        subst (λ (q : World × Result SpanRecord). Traced id Any q.0) (sym whole) kept,
      )

  open_span-Traced :
      (id : Text) (s : State)
      → Traced id Any s.world
      → (span : Option Text) × ((open_span (tracing_service env) id s).1 ≡ ok (some id, span))
        × Traced id Any (open_span (tracing_service env) id s).0.world
  unfolding open_span
  open_span-Traced id s t =
      let (x, started, kept) = start_span-Traced id (codes "agent.execute") s.world t in
      let w = (start_span env id (codes "agent.execute") none [] s.world).0 in
      let m = lift (start_span env id (codes "agent.execute") none []) in
      let f : SpanRecord → M State Opened = λ span. return (some id, some span.span_id) in
      let h : Error → M State Opened = λ e. return (some id, none) in
      let u : State = record s { world = w } in
      let whole = catch-ok (m >>= f) h (bind-ok m f (ap (λ r. (u, r)) started)) in
      (
        some x.span_id,
        ap (λ (p : State × Result Opened). p.1) whole,
        subst (λ (p : State × Result Opened). Traced id Any p.0.world) (sym whole) kept,
      )

  -- The service opens a trace and a span.
  open_trace-Traced :
      (agent_id : Text) (workflow_id : Option Text) (s : State)
      → let id = env.uuid s.world.ids in
        let p = open_trace (some (tracing_service env)) agent_id workflow_id s in
        (span : Option Text) × (p ≡ (p.0, ok (some id, span))) × Traced id Any p.0.world
  unfolding open_trace
  open_trace-Traced agent_id workflow_id s =
      let name = codes "agent." ++ agent_id in
      let (t, started, is, kept) = start_trace-Traced name workflow_id s.world in
      let m = lift (start_trace env name workflow_id) in
      let f : TraceRecord → M State Opened = λ x. open_span (tracing_service env) x.trace_id in
      let h : Error → M State Opened = λ e. return (none, none) in
      let u : State = record s { world = (start_trace env name workflow_id s.world).0 } in
      let (span, opened, kept') =
        open_span-Traced t.trace_id u (subst (λ i. Traced i Any u.world) (sym is) kept) in
      let v = (open_span (tracing_service env) t.trace_id u).0 in
      let whole =
        catch-ok (m >>= f) h (bind-ok m f (ap (λ r. (u, r)) started) ∙ ap (λ r. (v, r)) opened) in
      let p = open_trace (some (tracing_service env)) agent_id workflow_id s in
      let there : Traced t.trace_id Any p.0.world =
        subst (λ (q : State × Result Opened). Traced t.trace_id Any q.0.world) (sym whole) kept' in
      let answered : p.1 ≡ ok (some t.trace_id, span) =
        ap (λ (q : State × Result Opened). q.1) whole in
      subst (λ i. (o : Option Text) × (p ≡ (p.0, ok (some i, o))) × Traced i Any p.0.world) is
        (span, ap (λ r. (p.0, r)) answered, there)
