-- ===== src/Tests/Workflows/Timeline.antt =====
-- A timeline service beside a coordinator.
use agent_diaries_core.Prelude.{◌≡◌, refl, map, [], ◌∷◌, codes}
use agent_diaries_core.JsMap
use agent_diaries_core.Shared.{
  undefined, string, workflow_claimed, workflow_started, workflow_completed,
}
use agent_diaries_core.Shared.Effect.{return}
use agent_diaries_core.Workflow.Domain.{World, append_event}
use agent_diaries_core.Workflow.Coordinator
use agent_diaries_core.Workflow.Timeline.{Payloads, on_events, on_event, append}
use agent_diaries_core.Tests.Workflows.{host, payloads, key, waits, with_workflow, program}

abbrev notes : Payloads
notes = record { name = λ n. string n; result = λ v. v; reason = λ r. undefined }

abbrev executed : World
executed =
    (Coordinator.execute_workflow host payloads key (codes "w1") (return undefined)
      (with_workflow waits)).0

emitted :
    executed.events
    ≡ workflow_completed key undefined
      ∷ workflow_started key
      ∷ workflow_claimed key (codes "w1")
      ∷ []
unfolding program JsMap.set
emitted = refl

-- The coordinator has noted the start and the end itself, so the service notes them again.
noted_twice :
    map
      (λ e. e.type)
      (on_events host notes
        (workflow_started key ∷ workflow_completed key undefined ∷ [])
        executed).0.db.timeline
    ≡ codes "WORKFLOW_CLAIMED"
      ∷ codes "WORKFLOW_STARTED"
      ∷ codes "WORKFLOW_COMPLETED"
      ∷ codes "WORKFLOW_STARTED"
      ∷ codes "WORKFLOW_COMPLETED"
      ∷ []
unfolding program on_events on_event append append_event JsMap.set
noted_twice = refl
