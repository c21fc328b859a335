-- ===== src/Workflow/Execution.antt =====
-- What claiming, releasing and executing make of the stored workflow, on each path.
pub mod Running
pub mod Handover
use agent_diaries_core.Prelude.{
  ℕ, ◌+◌, ◌-◌, ◌≡◌, refl, Bool, true, false, ◌∷◌, Option, none, some, Text, Option-cases,
  Bool-cases, inl, inr,
}
use agent_diaries_core.Shared.{
  Value, WorkflowRecord, WorkflowState, claimed, completed, failed, workflow_claimed,
  workflow_completed, workflow_failed, invalid_transition,
}
use agent_diaries_core.Shared.Effect.{Result, ok, err, bind-ok, ◌>>=◌, ◌>>◌}
use agent_diaries_core.Memory.Persistence.{get_workflow, save_workflow}
use agent_diaries_core.Workers
use agent_diaries_core.Workflow.Domain.{Env, World, emit}
use agent_diaries_core.Workflow.Machine.{can_transition, validate_transition}
use agent_diaries_core.Workflow.Repository
use agent_diaries_core.Workflow.Repository.{move}
use agent_diaries_core.Workflow.Coordinator
use agent_diaries_core.Workflow.Lifecycle.Steps.{get-saved}

-- An accepted claim leaves the workflow `CLAIMED` and held by the worker.
abbrev pub IsHeldBy : Text → Text → WorkflowRecord → Type 0
IsHeldBy id worker x = x.id ≡ id × x.state ≡ claimed × x.worker_id ≡ some worker

-- A workflow is stored under `id` that a predicate accepts.
pub data Stored (id : Text) (P : WorkflowRecord → Type 0) (w : World) : Type 0 where
  stored : (wf : WorkflowRecord) → get_workflow id w.db ≡ some wf → P wf → Stored id P w

module _ (env : Env) where
  pub moved :
      WorkflowState → (ℕ → WorkflowRecord → WorkflowRecord) → WorkflowRecord → ℕ → WorkflowRecord
  moved target edit wf now = edit now (record wf { state = target; updated_at = now })

  pub after_move : (ℕ → WorkflowRecord) → World → World
  after_move new w = record w {
    ticks = w.ticks + 1;
    db = save_workflow (new (env.time w.ticks)) w.db;
  }

  move-ok :
      (target : WorkflowState) (edit : ℕ → WorkflowRecord → WorkflowRecord) (wf : WorkflowRecord)
      (w : World)
      → can_transition wf.state target ≡ true
      → move env target edit wf w ≡ (after_move (moved target edit wf) w, ok tt)
  unfolding move validate_transition moved after_move
  move-ok target edit wf w e = rw e

  pub claimed_by : Text → WorkflowRecord → WorkflowRecord
  claimed_by worker wf = record wf { worker_id = some worker }

  -- The world in which a claim of `wf` ends.
  pub after_claim : Text → Text → WorkflowRecord → World → World
  unfolding after_move
  after_claim id worker wf w =
      let v = after_move (moved claimed (λ _. claimed_by worker) wf) w in
      record v { events = workflow_claimed id worker ∷ v.events }

  pub claim_workflow-ok :
      (id worker : Text) (wf : WorkflowRecord) (w : World)
      → get_workflow id w.db ≡ some wf
      → can_transition wf.state claimed ≡ true
      → Repository.claim_workflow env id worker w ≡ (after_claim id worker wf w, ok true)
  unfolding Repository.claim_workflow Repository.claim_found after_claim claimed_by move
      validate_transition moved after_move
  claim_workflow-ok id worker wf w e t = rw (e, t)

  move_found-ok :
      (target : WorkflowState) (edit : ℕ → WorkflowRecord → WorkflowRecord) (id : Text)
      (wf : WorkflowRecord) (w : World)
      → get_workflow id w.db ≡ some wf
      → can_transition wf.state target ≡ true
      → (Repository.find_workflow id >>= Repository.move_found env target edit id) w
        ≡ (after_move (moved target edit wf) w, ok tt)
  unfolding Repository.move_found move validate_transition moved after_move
  move_found-ok target edit id wf w e t = rw (e, t)

  pub completed_with : Value → ℕ → WorkflowRecord → WorkflowRecord
  completed_with result now wf = record wf { result = result; completed_at = some now }

  pub complete_workflow-ok :
      (id : Text) (result : Value) (wf : WorkflowRecord) (w : World)
      → get_workflow id w.db ≡ some wf
      → can_transition wf.state completed ≡ true
      → let v = after_move (moved completed (completed_with result) wf) w in
        Repository.complete_workflow env id result w
        ≡ (record v { events = workflow_completed id result ∷ v.events }, ok tt)
  unfolding Repository.complete_workflow completed_with get_workflow
  complete_workflow-ok id result wf w e t =
      bind-ok
        (Repository.find_workflow id
          >>= Repository.move_found env completed (completed_with result) id)
        (λ _. emit (workflow_completed id result))
        (move_found-ok completed (completed_with result) id wf w e t)

  pub failed_with : Option Text → ℕ → WorkflowRecord → WorkflowRecord
  failed_with reason now wf = record wf { fail_reason = reason }

  pub fail_workflow-ok :
      (id : Text) (reason : Option Text) (wf : WorkflowRecord) (w : World)
      → get_workflow id w.db ≡ some wf
      → can_transition wf.state failed ≡ true
      → let v = after_move (moved failed (failed_with reason) wf) w in
        Repository.fail_workflow env id reason w
        ≡ (record v { events = workflow_failed id reason ∷ v.events }, ok tt)
  unfolding Repository.fail_workflow failed_with get_workflow
  fail_workflow-ok id reason wf w e t =
      bind-ok
        (Repository.find_workflow id >>= Repository.move_found env failed (failed_with reason) id)
        (λ _. emit (workflow_failed id reason))
        (move_found-ok failed (failed_with reason) id wf w e t)

  pub get-moved :
      (id : Text) (target : WorkflowState) (edit : ℕ → WorkflowRecord → WorkflowRecord)
      (wf : WorkflowRecord) (w : World)
      → (moved target edit wf (env.time w.ticks)).id ≡ id
      → get_workflow id (after_move (moved target edit wf) w).db
        ≡ some (moved target edit wf (env.time w.ticks))
  unfolding after_move
  get-moved id target edit wf w e = get-saved (moved target edit wf (env.time w.ticks)) w.db e

  -- The three ways in which `claimWorkflow` ends.
  pub data ClaimOutcome (id worker : Text) (w : World) : World × Result Bool → Type 0 where
    missing : get_workflow id w.db ≡ none → ClaimOutcome id worker w (w, ok false)
    refused :
        (wf : WorkflowRecord)
        → get_workflow id w.db ≡ some wf
        → can_transition wf.state claimed ≡ false
        → ClaimOutcome id worker w (w, err (invalid_transition wf.state claimed))
    taken :
        (wf : WorkflowRecord) (v : World)
        → get_workflow id w.db ≡ some wf
        → can_transition wf.state claimed ≡ true
        → Stored id (IsHeldBy id worker) v
        → ClaimOutcome id worker w (v, ok true)

  claim-missing :
      (id worker : Text) (w : World)
      → get_workflow id w.db ≡ none
      → Repository.claim_workflow env id worker w ≡ (w, ok false)
  unfolding Repository.claim_workflow Repository.claim_found
  claim-missing id worker w e = rw e

  claim-refused :
      (id worker : Text) (wf : WorkflowRecord) (w : World)
      → get_workflow id w.db ≡ some wf
      → can_transition wf.state claimed ≡ false
      → Repository.claim_workflow env id worker w ≡ (w, err (invalid_transition wf.state claimed))
  unfolding Repository.claim_workflow Repository.claim_found move validate_transition
  claim-refused id worker wf w e t = rw (e, t)

pub claimed-Stored :
    (env : Env) (id worker : Text) (wf : WorkflowRecord) (w : World)
    → wf.id ≡ id
    → Stored id (IsHeldBy id worker) (after_claim env id worker wf w)
unfolding after_claim claimed_by moved
claimed-Stored env id worker wf w e =
    stored (moved env claimed (λ _. claimed_by env worker) wf (env.time w.ticks))
      (get-moved env id claimed (λ _. claimed_by env worker) wf w e) (e, refl, refl)

-- A missing workflow is not claimed, one in a state that may not become `CLAIMED` makes the claim
-- throw and changes nothing, and any other one is claimed for the worker.
pub claim_workflow-outcome :
    (env : Env) (id worker : Text) (w : World)
    → ((wf : WorkflowRecord) → get_workflow id w.db ≡ some wf → wf.id ≡ id)
    → ClaimOutcome env id worker w (Repository.claim_workflow env id worker w)
claim_workflow-outcome env id worker w keyed = elim (Option-cases (get_workflow id w.db)) [
  | inl e ↦ rw (claim-missing env id worker w e) (missing e)
  | inr (wf, e) ↦ elim (Bool-cases (can_transition wf.state claimed)) [
    | inl t ↦
        rw (claim_workflow-ok env id worker wf w e t)
          (taken wf _ e t (claimed-Stored env id worker wf w (keyed wf e)))
    | inr t ↦ rw (claim-refused env id worker wf w e t) (refused wf e t)
  ]
]
