-- ===== src/Observability/Traces/Spans.antt =====
-- A span from its start to its end.
use agent_diaries_core.Prelude.{
  ℕ, ◌+◌, ◌≡◌, refl, ◌∙◌, ap, if_pos, if_neg, true, false, List, [], ◌∷◌, ◌++◌, Option, none, some,
  arith, Text, Text-discrete,
}
use agent_diaries_core.JsMap
use agent_diaries_core.Shared.{Value, trace_recorded, TraceRecord, SpanRecord, SpanStatus}
use agent_diaries_core.Shared.Effect.{bind-ok, ok, return}
use agent_diaries_core.Memory.Persistence.{get_trace, save_trace}
use agent_diaries_core.Workflow.Domain.{Env, World}
use agent_diaries_core.Observability.Traces.{
  record_trace, add_span, record_span, load_trace, start_span, has_span, end_span, end_found_span,
  finish_span_of, finish_span,
}

-- The span that `startSpan` makes in this world.
abbrev pub started_span : Env → World → Text → Text → Option Text → List (Text × Value) → SpanRecord
started_span env w trace_id name parent attributes = record {
  span_id = env.uuid w.ids;
  trace_id = trace_id;
  parent_span_id = parent;
  name = name;
  start_time = env.time w.ticks;
  end_time = none;
  status = SpanStatus.ok;
  attributes = attributes;
}

has_span-append :
    (id : Text) (ss : List SpanRecord) (s : SpanRecord)
    → s.span_id ≡ id
    → has_span id (ss ++ s ∷ []) ≡ true
unfolding has_span
has_span-append id [] s e = if_pos (Text-discrete s.span_id id) e true false
has_span-append id (t ∷ ss) s e = ground (arith, has_span-append id ss s)

end_span-append :
    (id : Text) (status : SpanStatus) (now : ℕ) (ss : List SpanRecord) (s : SpanRecord)
    → has_span id ss ≡ false
    → s.span_id ≡ id
    → end_span id status now (ss ++ s ∷ [])
      ≡ ss ++ record s { end_time = some now; status = status } ∷ []
unfolding has_span end_span
end_span-append id status now [] s h e = if_pos (Text-discrete s.span_id id) e _ _
end_span-append id status now (t ∷ ss) s h e = elim (Text-discrete t.span_id id) [
  | yes p ↦ let k = rw (if_pos (Text-discrete t.span_id id) p) at h in absurd cc
  | no p ↦ rw (if_neg (Text-discrete t.span_id id) p) (
      ap (◌∷◌ t)
        (end_span-append id status now ss s (rw (if_neg (Text-discrete t.span_id id) p) at h) e))
]

get_trace-save_trace :
    (t : TraceRecord) (w : World) {id : Text}
    → t.trace_id ≡ id
    → get_trace id (save_trace t w.db) ≡ some t
unfolding get_trace save_trace
get_trace-save_trace t w {id} e =
    JsMap.get-set id t.trace_id t w.db.traces ∙ if_pos (Text-discrete t.trace_id id) e _ _

with_span : TraceRecord → SpanRecord → TraceRecord
with_span trace span = record trace { spans = trace.spans ++ span ∷ [] }

with_recorded : TraceRecord → World → World
with_recorded trace w = record w {
  db = save_trace trace w.db;
  events = trace_recorded trace ∷ w.events;
}

record_span-ok :
    (trace : TraceRecord) (span : SpanRecord) (w : World)
    → get_trace trace.trace_id w.db ≡ some trace
    → record_span trace.trace_id span w ≡ (with_recorded (with_span trace span) w, ok tt)
unfolding record_span add_span record_trace with_span with_recorded
record_span-ok trace span w e = rw (e, add_span) refl

get_trace-start_span :
    (env : Env) (trace : TraceRecord) (name : Text) (parent : Option Text)
    (attributes : List (Text × Value)) (w : World)
    → get_trace trace.trace_id w.db ≡ some trace
    → get_trace trace.trace_id (start_span env trace.trace_id name parent attributes w).0.db
      ≡ some (with_span trace (started_span env w trace.trace_id name parent attributes))
unfolding start_span with_recorded with_span
get_trace-start_span env trace name parent attributes w e =
    let s = started_span env w trace.trace_id name parent attributes in
    let v : World = record w { ids = w.ids + 1; ticks = w.ticks + 1 } in
    let ends =
      bind-ok (record_span trace.trace_id s) (λ _. return s) (record_span-ok trace s v e) in
    ap (λ p. get_trace trace.trace_id p.0.db) ends ∙ get_trace-save_trace (with_span trace s) v refl

ticks-start_span :
    (env : Env) (trace : TraceRecord) (name : Text) (parent : Option Text)
    (attributes : List (Text × Value)) (w : World)
    → get_trace trace.trace_id w.db ≡ some trace
    → (start_span env trace.trace_id name parent attributes w).0.ticks ≡ w.ticks + 1
unfolding start_span with_recorded with_span
ticks-start_span env trace name parent attributes w e =
    let s = started_span env w trace.trace_id name parent attributes in
    let v : World = record w { ids = w.ids + 1; ticks = w.ticks + 1 } in
    let ends =
      bind-ok (record_span trace.trace_id s) (λ _. return s) (record_span-ok trace s v e) in
    ap (λ p. p.0.ticks) ends

get_trace-finish_span :
    (env : Env) (trace : TraceRecord) (id : Text) (status : SpanStatus) (w : World)
    → get_trace trace.trace_id w.db ≡ some trace
    → has_span id trace.spans ≡ true
    → get_trace trace.trace_id (finish_span env trace.trace_id id status w).0.db
      ≡ some (record trace { spans = end_span id status (env.time w.ticks) trace.spans })
unfolding finish_span load_trace finish_span_of end_found_span record_trace
get_trace-finish_span env trace id status w e h =
    rw (e, h)
      (get_trace-save_trace
        (record trace { spans = end_span id status (env.time w.ticks) trace.spans }) w refl)

-- A span that is started in a stored trace, under an identifier that the trace does not have, and
-- then finished, stands behind the trace's earlier spans with its end and its status; the earlier
-- spans stay as they are.
pub finish_span-start_span :
    (env : Env) (trace : TraceRecord) (name : Text) (parent : Option Text)
    (attributes : List (Text × Value)) (status : SpanStatus) (w : World)
    → get_trace trace.trace_id w.db ≡ some trace
    → has_span (env.uuid w.ids) trace.spans ≡ false
    → let v = (start_span env trace.trace_id name parent attributes w).0 in
      let s = started_span env w trace.trace_id name parent attributes in
      get_trace trace.trace_id (finish_span env trace.trace_id (env.uuid w.ids) status v).0.db
      ≡ some (record trace {
        spans =
            trace.spans
            ++ record s { end_time = some (env.time (w.ticks + 1)); status = status } ∷ [];
      })
unfolding with_span
finish_span-start_span env trace name parent attributes status w e h =
    let v = (start_span env trace.trace_id name parent attributes w).0 in
    let s = started_span env w trace.trace_id name parent attributes in
    get_trace-finish_span env (with_span trace s) (env.uuid w.ids) status v
      (get_trace-start_span env trace name parent attributes w e)
      (has_span-append (env.uuid w.ids) trace.spans s refl)
    ∙ ap (λ ss. some (record trace { spans = ss }))
        (ap (λ n. end_span (env.uuid w.ids) status (env.time n) (trace.spans ++ s ∷ []))
            (ticks-start_span env trace name parent attributes w e)
          ∙ end_span-append (env.uuid w.ids) status (env.time (w.ticks + 1)) trace.spans s h refl)
