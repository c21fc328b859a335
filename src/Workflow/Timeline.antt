-- ===== src/Workflow/Timeline.antt =====
-- src/core/timeline/TimelineService.ts: the subscriptions of the service, as a function of the event
-- that the bus delivers.
pub mod Notes
use agent_diaries_core.Prelude.{ap, List, [], ◌∷◌, ◌++◌, map, Option, none, some, Text, codes}
use agent_diaries_core.Shared.{
  Value, undefined, TimelineEvent, DomainEvent, workflow_created, workflow_started,
  workflow_completed, workflow_failed,
}
use agent_diaries_core.Shared.Effect.{M, return, ◌>>◌}
use agent_diaries_core.Memory.Persistence.{Persistence}
use agent_diaries_core.Memory.Persistence
use agent_diaries_core.Workflow.Domain.{Env, World, append_event}

-- The objects `{ name }`, `{ result }` and `{ reason }`.
pub record Payloads : Type 0 where
  pub name : Text → Value
  pub result : Value → Value
  pub reason : Option Text → Value

module _ (env : Env) (payloads : Payloads) where
  unfoldable pub append : Text → Option Text → Value → M World TimelineEvent
  unfolding append_event
  append type workflow_id payload = append_event env (record {
    id = none;
    timestamp = none;
    type = type;
    workflow_id = workflow_id;
    payload = payload;
  })

  unfoldable pub on_event : DomainEvent → M World (Unit {0})
  unfolding append
  on_event (workflow_created wf) =
      append (codes "WORKFLOW_CREATED") (some wf.id) (payloads.name wf.name) >> return tt
  on_event (workflow_started id) =
      append (codes "WORKFLOW_STARTED") (some id) undefined >> return tt
  on_event (workflow_completed id result) =
      append (codes "WORKFLOW_COMPLETED") (some id) (payloads.result result) >> return tt
  on_event (workflow_failed id reason) =
      append (codes "WORKFLOW_FAILED") (some id) (payloads.reason reason) >> return tt
  on_event _ = return tt

  unfoldable pub get_timeline : Option Text → World → List TimelineEvent
  unfolding Persistence.get_timeline
  get_timeline workflow_id w = Persistence.get_timeline workflow_id w.db

  unfoldable pub on_events : List DomainEvent → M World (Unit {0})
  unfolding on_event
  on_events [] = return tt
  on_events (e ∷ es) = on_event e >> on_events es

  -- What the service is to note of an event.
  abbrev pub note_of : DomainEvent → List (Text × Option Text × Value)
  note_of (workflow_created wf) = (codes "WORKFLOW_CREATED", some wf.id, payloads.name wf.name) ∷ []
  note_of (workflow_started id) = (codes "WORKFLOW_STARTED", some id, undefined) ∷ []
  note_of (workflow_completed id result) =
      (codes "WORKFLOW_COMPLETED", some id, payloads.result result) ∷ []
  note_of (workflow_failed id reason) =
      (codes "WORKFLOW_FAILED", some id, payloads.reason reason) ∷ []
  note_of _ = []

  abbrev pub notes_of : List DomainEvent → List (Text × Option Text × Value)
  notes_of [] = []
  notes_of (e ∷ es) = note_of e ++ notes_of es

  abbrev pub noted : List TimelineEvent → List (Text × Option Text × Value)
  noted = map λ e. (e.type, e.workflow_id, e.payload)
