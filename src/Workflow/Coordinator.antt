-- ===== src/Workflow/Coordinator.antt =====
-- src/core/coordinator/WorkflowCoordinator.ts
use agent_diaries_core.Prelude.{
  ℕ, ◌+◌, ◌-◌, if◌then◌else◌, Bool, true, false, List, [], ◌∷◌, Option, none, some, Text, codes,
}
use agent_diaries_core.Shared.{
  Value, WorkflowRecord, workflow_started, Error, claim_refused, message,
}
use agent_diaries_core.Shared.Effect.{M, ok, return, throw, catch, ◌>>=◌, ◌>>◌}
use agent_diaries_core.Memory.Persistence.{has_id}
use agent_diaries_core.Workers.{or_text}
use agent_diaries_core.Workers
use agent_diaries_core.Workflow.Domain.{
  Env, World, date_now, emit, event_of, append_event, record_metric,
}
use agent_diaries_core.Workflow.Repository.{Options}
use agent_diaries_core.Workflow.Repository

-- The payloads of timeline events are objects of the named fields.
pub record Payloads : Type 0 where
  pub reused : Text → Value
  pub created : Text → Options → Value
  pub worker : Text → Value
  pub duration : ℕ → Value
  pub error : Text → Value

-- `err?.message || String(err)`
unfoldable pub error_message : Error → Text
unfolding message
error_message e = or_text (some (message e)) (codes "Error")

module _ (env : Env) (payloads : Payloads) where
  unfoldable pub create_new : Text → Value → Options → M World WorkflowRecord
  unfolding Repository.create_workflow append_event record_metric
  create_new name payload o = do
    wf ← Repository.create_workflow env name payload o
    append_event env (event_of wf.id (codes "WORKFLOW_CREATED") (payloads.created name o))
    record_metric env (codes "workflow_created") 1 ((codes "name", name) ∷ [])
    return wf

  unfoldable pub reuse_or_create :
      Text → Value → Options → Text → Option WorkflowRecord → M World WorkflowRecord
  unfolding create_new append_event
  reuse_or_create name payload o signature none = create_new name payload o
  reuse_or_create name payload o signature (some wf) =
      append_event env (event_of wf.id (codes "WORKFLOW_REUSED") (payloads.reused signature))
      >> return wf

  -- `if (options?.signature)`: the empty signature counts as none.
  unfoldable pub submit_signed : Text → Value → Options → Option Text → M World WorkflowRecord
  unfolding create_new reuse_or_create Repository.find_reusable_workflow
  submit_signed name payload o none = create_new name payload o
  submit_signed name payload o (some []) = create_new name payload o
  submit_signed name payload o (some (c ∷ cs)) =
      Repository.find_reusable_workflow (c ∷ cs) >>= reuse_or_create name payload o (c ∷ cs)

  unfoldable pub submit_workflow : Text → Value → Options → M World WorkflowRecord
  unfolding submit_signed
  submit_workflow name payload o = submit_signed name payload o o.signature

  -- The registry reads the clock only for a worker that it knows.
  abbrev pub beat : Text → M World Bool
  beat worker_id w =
      let (workers, known) = Workers.heartbeat worker_id (env.time w.ticks) w.workers in
      (record w { workers = workers; ticks = if known then w.ticks + 1 else w.ticks }, ok known)

  unfoldable pub after_claim : Text → Text → Bool → M World Bool
  unfolding append_event record_metric Workers.heartbeat
  after_claim id worker_id false = return false
  after_claim id worker_id true = do
    append_event env (event_of id (codes "WORKFLOW_CLAIMED") (payloads.worker worker_id))
    beat worker_id
    record_metric env (codes "workflow_claimed") 1 ((codes "workerId", worker_id) ∷ [])
    return true

  unfoldable pub claim_workflow : Text → Text → M World Bool
  unfolding Repository.claim_workflow after_claim
  claim_workflow id worker_id =
      Repository.claim_workflow env id worker_id >>= after_claim id worker_id

  unfoldable pub report_completion : Text → ℕ → Value → Unit {0} → M World Value
  unfolding append_event record_metric
  report_completion id start result _ = do
    now ← date_now env
    append_event env (event_of id (codes "WORKFLOW_COMPLETED") (payloads.duration (now - start)))
    record_metric env (codes "workflow_execution_duration_ms") (now - start) []
    return result

  -- The end of `try`, and its `catch`.
  unfoldable pub finish : Text → ℕ → Value → M World Value
  unfolding Repository.complete_workflow report_completion
  finish id start result =
      Repository.complete_workflow env id result >>= report_completion id start result

  unfoldable pub report_failure : Text → Error → Unit {0} → M World Value
  unfolding append_event record_metric error_message
  report_failure id e _ = do
    append_event env (event_of id (codes "WORKFLOW_FAILED") (payloads.error (error_message e)))
    record_metric env (codes "workflow_failed") 1 []
    throw e

  unfoldable pub give_up : Text → Error → M World Value
  unfolding Repository.fail_workflow report_failure error_message
  give_up id e = Repository.fail_workflow env id (some (error_message e)) >>= report_failure id e

  unfoldable pub start_workflow : Text → Text → M World ℕ
  unfolding append_event
  start_workflow id worker_id = do
    start ← date_now env
    append_event env (event_of id (codes "WORKFLOW_STARTED") (payloads.worker worker_id))
    emit (workflow_started id)
    return start

  unfoldable pub run_claimed : Text → Text → M World Value → Bool → M World Value
  unfolding start_workflow finish give_up
  run_claimed id worker_id fn false = throw (claim_refused id)
  run_claimed id worker_id fn true =
      start_workflow id worker_id >>= λ start. catch (fn >>= finish id start) (give_up id)

  unfoldable pub execute_workflow : Text → Text → M World Value → M World Value
  unfolding claim_workflow run_claimed
  execute_workflow id worker_id fn = claim_workflow id worker_id >>= run_claimed id worker_id fn

-- `list.length > 0 ? list[0] : null`
unfoldable pub first_of : List WorkflowRecord → Option WorkflowRecord
first_of [] = none
first_of (wf ∷ rest) = some wf

unfoldable pub get_workflow_status : Text → M World (Option WorkflowRecord)
unfolding Repository.list_workflow_history first_of
get_workflow_status id =
    Repository.list_workflow_history (has_id id ∷ []) >>= λ list. return (first_of list)
