-- ===== src/Memory/Persistence.antt =====
-- src/memory/MemoryProviders.ts, the class `MemoryPersistenceProvider`. Records are values here, so
-- the copies that the class makes are not seen.
use agent_diaries_core.Prelude.{
  ite, Bool, true, false, List, [], ◌∷◌, ◌++◌, Option, none, some, Text, Text-discrete, filter, all,
}
use agent_diaries_core.JsMap.{JsMap}
use agent_diaries_core.JsMap
use agent_diaries_core.Shared.{
  Value, WorkflowState, WorkflowState-discrete, WorkflowRecord, TraceRecord, TimelineEvent,
  MetricRecord,
}

pub record Persistence : Type 0 where
  pub workflows : JsMap WorkflowRecord
  pub traces : JsMap TraceRecord
  pub timeline : List TimelineEvent
  pub metrics : List MetricRecord
  pub reports : JsMap Value

abbrev pub same_text : Text → Text → Bool
same_text a b = ite (Text-discrete a b) true false

abbrev pub same_option : Option Text → Option Text → Bool
same_option none none = true
same_option none (some b) = false
same_option (some a) none = false
same_option (some a) (some b) = same_text a b

-- The entries of a `Partial<WorkflowRecord>` that callers pass as a filter.
pub data Criterion : Type 0 where
  has_id has_name : Text → Criterion
  has_state : WorkflowState → Criterion
  has_signature has_worker : Option Text → Criterion

unfoldable pub meets : WorkflowRecord → Criterion → Bool
unfolding WorkflowState-discrete
meets wf (has_id i) = same_text wf.id i
meets wf (has_name n) = same_text wf.name n
meets wf (has_state s) = ite (WorkflowState-discrete wf.state s) true false
meets wf (has_signature s) = same_option wf.signature s
meets wf (has_worker w) = same_option wf.worker_id w

unfoldable pub save_workflow : WorkflowRecord → Persistence → Persistence
save_workflow wf p = record p { workflows = JsMap.set wf.id wf p.workflows }

unfoldable pub get_workflow : Text → Persistence → Option WorkflowRecord
get_workflow id p = JsMap.get id p.workflows

-- No filter is the empty one: it lets every record through.
unfoldable pub list_workflows : List Criterion → Persistence → List WorkflowRecord
list_workflows criteria p = filter (λ wf. all (meets wf) criteria) (JsMap.values p.workflows)

unfoldable pub delete_workflow : Text → Persistence → Persistence × Bool
delete_workflow id p =
    (record p { workflows = JsMap.delete id p.workflows }, JsMap.has id p.workflows)

unfoldable pub save_trace : TraceRecord → Persistence → Persistence
save_trace t p = record p { traces = JsMap.set t.trace_id t p.traces }

unfoldable pub get_trace : Text → Persistence → Option TraceRecord
get_trace id p = JsMap.get id p.traces

unfoldable pub load_workflow_trace : Text → Persistence → List TraceRecord
load_workflow_trace id p = filter (λ t. same_option t.workflow_id (some id)) (JsMap.values p.traces)

unfoldable pub save_timeline_event : TimelineEvent → Persistence → Persistence
save_timeline_event e p = record p { timeline = p.timeline ++ e ∷ [] }

-- `if (!workflowId)`: the empty text asks for all events, too.
unfoldable pub get_timeline : Option Text → Persistence → List TimelineEvent
get_timeline none p = p.timeline
get_timeline (some []) p = p.timeline
get_timeline (some (c ∷ cs)) p = filter (λ e. same_option e.workflow_id (some (c ∷ cs))) p.timeline

unfoldable pub save_metric : MetricRecord → Persistence → Persistence
save_metric m p = record p { metrics = p.metrics ++ m ∷ [] }

unfoldable pub get_metrics : Persistence → List MetricRecord
get_metrics p = p.metrics

unfoldable pub save_report : Text → Value → Persistence → Persistence
save_report name report p = record p { reports = JsMap.set name report p.reports }

unfoldable pub get_benchmark_history : Persistence → List Value
get_benchmark_history p = JsMap.values p.reports
