-- ===== src/Observability/Traces.antt =====
-- src/core/repositories/index.ts, the class `TraceRepository`, and src/core/tracing/TracingService.ts.
pub mod Spans
use agent_diaries_core.Prelude.{
  ℕ, ite, Bool, true, false, List, [], ◌∷◌, ◌++◌, Option, none, some, Text, Text-discrete, codes,
}
use agent_diaries_core.Shared.{
  Value, TraceRecord, TraceStatus, SpanRecord, SpanStatus, trace_recorded, DomainEvent,
  workflow_started,
}
use agent_diaries_core.Shared.Effect.{M, return, gets, ◌>>=◌, ◌>>◌}
use agent_diaries_core.Memory.Persistence.{save_trace, get_trace}
use agent_diaries_core.Workflow.Domain.{Env, World, date_now, random_uuid, emit, update_db}

unfoldable pub record_trace : TraceRecord → M World (Unit {0})
unfolding save_trace
record_trace trace = update_db (save_trace trace) >> emit (trace_recorded trace)

unfoldable pub add_span : SpanRecord → Option TraceRecord → M World (Unit {0})
unfolding record_trace
add_span span none = return tt
add_span span (some trace) = record_trace (record trace { spans = trace.spans ++ span ∷ [] })

unfoldable pub record_span : Text → SpanRecord → M World (Unit {0})
unfolding add_span get_trace
record_span trace_id span = gets (λ w. get_trace trace_id w.db) >>= add_span span

unfoldable pub load_trace : Text → M World (Option TraceRecord)
unfolding get_trace
load_trace trace_id = gets λ w. get_trace trace_id w.db

unfoldable pub start_trace : Env → Text → Option Text → M World TraceRecord
unfolding record_trace
start_trace env name workflow_id = do
  id ← random_uuid env
  now ← date_now env
  let trace : TraceRecord = record {
    trace_id = id;
    workflow_id = workflow_id;
    name = name;
    start_time = now;
    end_time = none;
    spans = [];
    status = TraceStatus.active;
  }
  record_trace trace
  return trace

unfoldable pub start_span :
    Env → Text → Text → Option Text → List (Text × Value) → M World SpanRecord
unfolding record_span
start_span env trace_id name parent attributes = do
  id ← random_uuid env
  now ← date_now env
  let span : SpanRecord = record {
    span_id = id;
    trace_id = trace_id;
    parent_span_id = parent;
    name = name;
    start_time = now;
    end_time = none;
    status = SpanStatus.ok;
    attributes = attributes;
  }
  record_span trace_id span
  return span

-- `trace.spans.find` and the writes to the span that it finds.
unfoldable pub has_span : Text → List SpanRecord → Bool
has_span id [] = false
has_span id (s ∷ ss) = ite (Text-discrete s.span_id id) true (has_span id ss)

unfoldable pub end_span : Text → SpanStatus → ℕ → List SpanRecord → List SpanRecord
end_span id status now [] = []
end_span id status now (s ∷ ss) =
    ite (Text-discrete s.span_id id) (record s { end_time = some now; status = status } ∷ ss)
      (s ∷ end_span id status now ss)

unfoldable pub end_found_span : Env → Text → SpanStatus → TraceRecord → Bool → M World (Unit {0})
unfolding end_span record_trace
end_found_span env id status trace false = return tt
end_found_span env id status trace true = do
  now ← date_now env
  record_trace (record trace { spans = end_span id status now trace.spans })

unfoldable pub finish_span_of : Env → Text → SpanStatus → Option TraceRecord → M World (Unit {0})
unfolding end_found_span has_span
finish_span_of env id status none = return tt
finish_span_of env id status (some trace) =
    end_found_span env id status trace (has_span id trace.spans)

unfoldable pub finish_span : Env → Text → Text → SpanStatus → M World (Unit {0})
unfolding load_trace finish_span_of
finish_span env trace_id id status = load_trace trace_id >>= finish_span_of env id status

unfoldable pub finish_trace_of : Env → TraceStatus → Option TraceRecord → M World (Unit {0})
unfolding record_trace
finish_trace_of env status none = return tt
finish_trace_of env status (some trace) = do
  now ← date_now env
  record_trace (record trace { end_time = some now; status = status })

unfoldable pub finish_trace : Env → Text → TraceStatus → M World (Unit {0})
unfolding load_trace finish_trace_of
finish_trace env trace_id status = load_trace trace_id >>= finish_trace_of env status

-- The subscription of the service.
unfoldable pub on_event : Env → DomainEvent → M World (Unit {0})
unfolding start_trace
on_event env (workflow_started id) =
    start_trace env (codes "workflow-" ++ id) (some id) >> return tt
on_event env _ = return tt
