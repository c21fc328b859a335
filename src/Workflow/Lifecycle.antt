-- ===== src/Workflow/Lifecycle.antt =====
-- A workflow's way through the diagram, over every call of the coordinator and of the repository
-- but `releaseWorkflow`.
pub mod Steps
pub mod Runs
pub mod Moves
use agent_diaries_core.Prelude.{ℕ, ◌≤◌, ◌≡◌, Option, none, some, Text}
use agent_diaries_core.Shared.{Value, WorkflowRecord, WorkflowState}
use agent_diaries_core.Shared.Effect.{M, Result}
use agent_diaries_core.Memory.Persistence.{get_workflow}
use agent_diaries_core.Workflow.Domain.{Env, World}
use agent_diaries_core.Workflow.Repository.{
  Options, cancel_workflow, complete_workflow, fail_workflow,
}
use agent_diaries_core.Workflow.Coordinator.{
  Payloads, submit_workflow, claim_workflow, execute_workflow, get_workflow_status,
}
use agent_diaries_core.Workflow.Machine.Diagram.{Reaches}
use agent_diaries_core.Workflow.Machine.Diagram

-- `randomUUID` never answers the same identifier twice.
abbrev pub AreDistinct : Env → Type 0
AreDistinct env = (m n : ℕ) → env.uuid m ≡ env.uuid n → m ≡ n

-- Every workflow is stored under its identifier, and no identifier still to come is used.
pub record IsSound (env : Env) (w : World) : Type 0 where
  pub keyed : (id : Text) (wf : WorkflowRecord) → get_workflow id w.db ≡ some wf → wf.id ≡ id
  pub fresh : (n : ℕ) → w.ids ≤ n → get_workflow (env.uuid n) w.db ≡ none

-- The workflow is still there, and its state was reached along the diagram.
pub data Follows (id : Text) (s : WorkflowState) (w : World) : Type 0 where
  at : (wf : WorkflowRecord) → get_workflow id w.db ≡ some wf → Reaches s wf.state → Follows id s w

-- What clients do. Each goes on after an error; the function that `execute` runs is such a client,
-- too, so what happens while it runs is any sequence of calls.
pub data Client : Type 0 where
  answer : Result Value → Client
  submit : Text → Value → Options → Client → Client
  claim : Text → Text → Client → Client
  complete : Text → Value → Client → Client
  fail : Text → Option Text → Client → Client
  cancel : Text → Client → Client
  status : Text → Client → Client
  execute : Text → Text → Client → Client → Client

module _ (env : Env) (payloads : Payloads) where
  unfoldable pub run : Client → M World Value
  unfolding submit_workflow claim_workflow execute_workflow get_workflow_status cancel_workflow
      complete_workflow fail_workflow
  run (answer r) w = (w, r)
  run (submit name payload o k) w = run k (submit_workflow env payloads name payload o w).0
  run (claim id worker_id k) w = run k (claim_workflow env payloads id worker_id w).0
  run (complete id result k) w = run k (complete_workflow env id result w).0
  run (fail id reason k) w = run k (fail_workflow env id reason w).0
  run (cancel id k) w = run k (cancel_workflow env id w).0
  run (status id k) w = run k (get_workflow_status id w).0
  run (execute id worker_id fn k) w =
      let inner = run fn in run k (execute_workflow env payloads id worker_id inner w).0
