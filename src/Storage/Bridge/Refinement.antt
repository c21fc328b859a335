-- ===== src/Storage/Bridge/Refinement.antt =====
-- What a bridge saves is read as from the in-memory persistence provider.
use agent_diaries_core.Prelude.{ℕ, zero, ◌≡◌, List, [], ◌∷◌, none, Text}
use agent_diaries_core.JsMap.{JsMap}
use agent_diaries_core.JsMap
use agent_diaries_core.Shared.{WorkflowRecord, TraceRecord, TimelineEvent, MetricRecord}
use agent_diaries_core.Memory.Persistence
use agent_diaries_core.Memory.Persistence.{Persistence}
use agent_diaries_core.Storage.Adapter
use agent_diaries_core.Storage.Adapter.{Json}
use agent_diaries_core.Storage.Bridge
use agent_diaries_core.Storage.Bridge.{Document, metrics}

pub data Save : Type 0 where
  saves_workflow : WorkflowRecord → Save
  saves_trace : TraceRecord → Save
  saves_event : TimelineEvent → Save
  saves_metric : MetricRecord → Save

unfoldable pub save_in_memory : Save → Persistence → Persistence
unfolding Persistence.save_workflow Persistence.save_trace Persistence.save_timeline_event
    Persistence.save_metric
save_in_memory (saves_workflow wf) db = Persistence.save_workflow wf db
save_in_memory (saves_trace t) db = Persistence.save_trace t db
save_in_memory (saves_event e) db = Persistence.save_timeline_event e db
save_in_memory (saves_metric m) db = Persistence.save_metric m db

unfoldable pub save_all_in_memory : List Save → Persistence → Persistence
unfolding save_in_memory
save_all_in_memory [] db = db
save_all_in_memory (s ∷ ss) db = save_all_in_memory ss (save_in_memory s db)

-- The keys of the four kinds differ in their second letters.
abbrev second : Text → ℕ
second [] = zero
second (c ∷ []) = zero
second (b ∷ c ∷ cs) = c

abbrev rest : Text → Text
rest [] = []
rest (c ∷ cs) = cs

module _ (json : Json Document) where
  unfoldable pub save : Save → JsMap json.Source → JsMap json.Source
  unfolding Bridge.save_workflow Bridge.save_trace Bridge.save_timeline_event Bridge.save_metric
  save (saves_workflow wf) store = Bridge.save_workflow json wf store
  save (saves_trace t) store = Bridge.save_trace json t store
  save (saves_event e) store = Bridge.save_timeline_event json e store
  save (saves_metric m) store = Bridge.save_metric json m store

  unfoldable pub save_all : List Save → JsMap json.Source → JsMap json.Source
  unfolding save
  save_all [] store = store
  save_all (s ∷ ss) store = save_all ss (save s store)

  -- All that is read of the one is read of the other.
  pub record Represents (store : JsMap json.Source) (db : Persistence) : Type 0 where
    pub workflows : (id : Text) → Bridge.get_workflow json id store ≡ Persistence.get_workflow id db
    pub traces : (id : Text) → Bridge.get_trace json id store ≡ Persistence.get_trace id db
    pub timeline : Bridge.get_timeline json none store ≡ db.timeline
    pub measured : Bridge.get_metrics json store ≡ db.metrics
