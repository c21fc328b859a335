-- ===== src/Storage/Bridge.antt =====
-- src/core/storage/StorageManager.ts, the class `StorageAdapterBridge`, over the in-memory adapter.
pub mod Refinement
use agent_diaries_core.Prelude.{
  Bool, true, false, List, [], ◌∷◌, ◌++◌, Option, none, some, Text, codes, filter,
}
use agent_diaries_core.JsMap.{JsMap}
use agent_diaries_core.Shared.{Value, WorkflowRecord, TraceRecord, TimelineEvent, MetricRecord}
use agent_diaries_core.Memory.Persistence.{same_option}
use agent_diaries_core.Storage.Adapter
use agent_diaries_core.Storage.Adapter.{Json}

-- What the bridge keeps behind its keys.
pub data Document : Type 0 where
  value : Value → Document
  workflow : WorkflowRecord → Document
  trace : TraceRecord → Document
  events : List TimelineEvent → Document
  metrics : List MetricRecord → Document

-- A key holds documents of one kind.
abbrev pub as_workflow : Option Document → Option WorkflowRecord
as_workflow (some (workflow wf)) = some wf
as_workflow _ = none

abbrev pub as_trace : Option Document → Option TraceRecord
as_trace (some (trace t)) = some t
as_trace _ = none

-- `(await this.get(...)) || []`
abbrev pub as_events : Option Document → List TimelineEvent
as_events (some (events es)) = es
as_events _ = []

abbrev pub as_metrics : Option Document → List MetricRecord
as_metrics (some (metrics ms)) = ms
as_metrics _ = []

module _ (json : Json Document) where
  unfoldable pub get : Text → JsMap json.Source → Option Document
  unfolding Adapter.get
  get key store = Adapter.get json key store

  unfoldable pub set : Text → Document → JsMap json.Source → JsMap json.Source
  unfolding Adapter.set
  set key d store = Adapter.set json key (some d) store

  unfoldable pub delete_found :
      Text → JsMap json.Source → Option Document → JsMap json.Source × Bool
  unfolding Adapter.set
  delete_found key store none = (store, false)
  delete_found key store (some d) = (Adapter.set json key none store, true)

  unfoldable pub delete : Text → JsMap json.Source → JsMap json.Source × Bool
  unfolding delete_found get
  delete key store = delete_found key store (get key store)

  unfoldable pub search_keys : (Text → Bool) → JsMap json.Source → List Text
  search_keys pattern store = []

  -- No lock is taken: the token is made of the key.
  unfoldable pub acquire_lock : Text → Option Text
  acquire_lock key = some (codes "legacy-lock:" ++ key)

  unfoldable pub release_lock : Text → Text → Bool
  release_lock key token = true

  unfoldable pub save_workflow : WorkflowRecord → JsMap json.Source → JsMap json.Source
  unfolding set
  save_workflow wf store = set (codes "workflow_" ++ wf.id) (workflow wf) store

  unfoldable pub get_workflow : Text → JsMap json.Source → Option WorkflowRecord
  unfolding get
  get_workflow id store = as_workflow (get (codes "workflow_" ++ id) store)

  unfoldable pub list_workflows : JsMap json.Source → List WorkflowRecord
  list_workflows store = []

  unfoldable pub save_trace : TraceRecord → JsMap json.Source → JsMap json.Source
  unfolding set
  save_trace t store = set (codes "trace_" ++ t.trace_id) (trace t) store

  unfoldable pub get_trace : Text → JsMap json.Source → Option TraceRecord
  unfolding get
  get_trace id store = as_trace (get (codes "trace_" ++ id) store)

  unfoldable pub save_timeline_event : TimelineEvent → JsMap json.Source → JsMap json.Source
  unfolding set get
  save_timeline_event e store =
      set (codes "timeline_events")
        (events (as_events (get (codes "timeline_events") store) ++ e ∷ [])) store

  unfoldable pub get_timeline : Option Text → JsMap json.Source → List TimelineEvent
  unfolding get
  get_timeline none store = as_events (get (codes "timeline_events") store)
  get_timeline (some []) store = as_events (get (codes "timeline_events") store)
  get_timeline (some (c ∷ cs)) store =
      filter (λ e. same_option e.workflow_id (some (c ∷ cs)))
        (as_events (get (codes "timeline_events") store))

  unfoldable pub save_metric : MetricRecord → JsMap json.Source → JsMap json.Source
  unfolding set get
  save_metric m store =
      set (codes "metrics_history")
        (metrics (as_metrics (get (codes "metrics_history") store) ++ m ∷ [])) store

  unfoldable pub get_metrics : JsMap json.Source → List MetricRecord
  unfolding get
  get_metrics store = as_metrics (get (codes "metrics_history") store)
