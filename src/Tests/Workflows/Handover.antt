-- ===== src/Tests/Workflows/Handover.antt =====
-- A workflow that is handed on and one that is reused.
use agent_diaries_core.Prelude.{◌≡◌, refl, true, none, some, codes, Memᴰ}
use agent_diaries_core.Shared.{undefined, queued, failed}
use agent_diaries_core.Shared.Effect.{ok}
use agent_diaries_core.Workflow.Machine.{can_transition, is_terminal}
use agent_diaries_core.Workflow.Repository.{Options, claim_workflow, find_reusable_workflow}
use agent_diaries_core.Workflow.Coordinator
use agent_diaries_core.Workflow.Execution.{Stored, IsHeldBy}
use agent_diaries_core.Workflow.Execution.Handover.{claim_workflow-takes_over}
use agent_diaries_core.Workflow.Reuse.{Reuse, find_reusable_workflow-Reuse}
use agent_diaries_core.Workflow.Reuse.Submission.{IsReuse, submit_workflow-reuses}
use agent_diaries_core.Tests.Workflows.{
  host, payloads, key, waits, with_workflow, stores, is_done, may_be_claimed,
}

failed_is_terminal : is_terminal failed ≡ true
unfolding is_terminal
failed_is_terminal = refl

failed_to_queued : can_transition failed queued ≡ true
unfolding can_transition
failed_to_queued = refl

find_reusable_workflow-Reuse_example :
    Reuse
      (codes "sync")
      (with_workflow is_done)
      (find_reusable_workflow (codes "sync") (with_workflow is_done))
find_reusable_workflow-Reuse_example =
    find_reusable_workflow-Reuse (codes "sync") (with_workflow is_done)

abbrev sync : Options
sync = record { signature = some (codes "sync"); ttl_ms = none }

submit_workflow-reuses_example : IsReuse (codes "sync") is_done (with_workflow is_done) (
    Coordinator.submit_workflow host payloads
      (codes "Again")
      undefined
      sync
      (with_workflow is_done))
submit_workflow-reuses_example =
    submit_workflow-reuses host payloads (codes "Again") undefined sync 115 (codes "ync") is_done
      (with_workflow is_done) refl (Memᴰ.head refl) (refl, refl)

claim_workflow-takes_over_example :
    let v = (claim_workflow host key (codes "w1") (with_workflow waits)).0 in
    ((claim_workflow host key (codes "w1") (with_workflow waits)).1 ≡ ok true)
    × ((claim_workflow host key (codes "w2") v).1 ≡ ok true)
    × Stored key (IsHeldBy key (codes "w2")) (claim_workflow host key (codes "w2") v).0
claim_workflow-takes_over_example =
    claim_workflow-takes_over host key (codes "w1") (codes "w2") waits (with_workflow waits)
      (stores waits) refl may_be_claimed
