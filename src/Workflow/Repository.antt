-- ===== src/Workflow/Repository.antt =====
-- src/core/repositories/index.ts, the class `WorkflowRepository`. A method that takes the
-- workflow's lock is one transition of the world.
use agent_diaries_core.Prelude.{
  ℕ, Bool, true, false, List, [], ◌∷◌, Option, none, some, Text, leb, if◌then◌else◌,
}
use agent_diaries_core.Shared.{
  Value, undefined, WorkflowRecord, WorkflowState, created, queued, claimed, completed, failed,
  cancelled, workflow_created, workflow_claimed, workflow_completed, workflow_failed,
  workflow_reused, not_found,
}
use agent_diaries_core.Shared.Effect.{M, return, throw, gets, ◌>>=◌, ◌>>◌}
use agent_diaries_core.Memory.Persistence.{
  save_workflow, get_workflow, list_workflows, Criterion, has_signature, has_state,
}
use agent_diaries_core.Workflow.Domain.{Env, World, date_now, random_uuid, emit, update_db}
use agent_diaries_core.Workflow.Machine.{validate_transition}

pub record Options : Type 0 where
  pub signature : Option Text
  pub ttl_ms : Option ℕ

unfoldable pub new_workflow : Text → Text → Value → Options → ℕ → WorkflowRecord
new_workflow id name payload o now = record {
  id = id;
  name = name;
  state = created;
  signature = o.signature;
  worker_id = none;
  payload = payload;
  result = undefined;
  fail_reason = none;
  created_at = now;
  updated_at = now;
  completed_at = none;
  ttl_ms = o.ttl_ms;
}

unfoldable pub create_workflow : Env → Text → Value → Options → M World WorkflowRecord
unfolding new_workflow save_workflow
create_workflow env name payload o = do
  now ← date_now env
  id ← random_uuid env
  let wf = new_workflow id name payload o now
  update_db (save_workflow wf)
  emit (workflow_created wf)
  return wf

abbrev pub find_workflow : Text → M World (Option WorkflowRecord)
find_workflow id = gets λ w. get_workflow id w.db

-- The guard and the writes of the methods that move a workflow to another state.
unfoldable pub move :
    Env
    → WorkflowState
    → (ℕ → WorkflowRecord → WorkflowRecord)
    → WorkflowRecord
    → M World (Unit {0})
unfolding validate_transition save_workflow
move env target edit wf = do
  validate_transition wf.state target
  now ← date_now env
  update_db (save_workflow (edit now (record wf { state = target; updated_at = now })))

unfoldable pub claim_found : Env → Text → Text → Option WorkflowRecord → M World Bool
unfolding move
claim_found env id worker_id none = return false
claim_found env id worker_id (some wf) = do
  move env claimed (λ now wf. record wf { worker_id = some worker_id }) wf
  emit (workflow_claimed id worker_id)
  return true

unfoldable pub claim_workflow : Env → Text → Text → M World Bool
unfolding claim_found get_workflow
claim_workflow env id worker_id = find_workflow id >>= claim_found env id worker_id

-- `if (!wf) throw`
unfoldable pub move_found :
    Env
    → WorkflowState
    → (ℕ → WorkflowRecord → WorkflowRecord)
    → Text
    → Option WorkflowRecord
    → M World (Unit {0})
unfolding move
move_found env target edit id none = throw (not_found id)
move_found env target edit id (some wf) = move env target edit wf

unfoldable pub complete_workflow : Env → Text → Value → M World (Unit {0})
unfolding move_found get_workflow
complete_workflow env id result =
    (find_workflow id
      >>= move_found env completed
          (λ now wf. record wf { result = result; completed_at = some now }) id)
    >> emit (workflow_completed id result)

unfoldable pub fail_workflow : Env → Text → Option Text → M World (Unit {0})
unfolding move_found get_workflow
fail_workflow env id reason =
    (find_workflow id >>= move_found env failed (λ now wf. record wf { fail_reason = reason }) id)
    >> emit (workflow_failed id reason)

unfoldable pub cancel_workflow : Env → Text → M World (Unit {0})
unfolding move_found get_workflow
cancel_workflow env id = find_workflow id >>= move_found env cancelled (λ now wf. wf) id

unfoldable pub release_found : Env → Option WorkflowRecord → M World (Unit {0})
unfolding save_workflow
release_found env none = return tt
release_found env (some wf) = do
  now ← date_now env
  update_db (save_workflow (record wf { state = queued; worker_id = none; updated_at = now }))

unfoldable pub release_workflow : Env → Text → M World (Unit {0})
unfolding release_found get_workflow
release_workflow env id = find_workflow id >>= release_found env

-- `list.sort((a, b) => b.createdAt - a.createdAt)`, which is stable.
unfoldable pub insert_newest : WorkflowRecord → List WorkflowRecord → List WorkflowRecord
insert_newest x [] = x ∷ []
insert_newest x (y ∷ ys) =
    if leb y.created_at x.created_at then x ∷ y ∷ ys else y ∷ insert_newest x ys

unfoldable pub newest_first : List WorkflowRecord → List WorkflowRecord
unfolding insert_newest
newest_first [] = []
newest_first (x ∷ xs) = insert_newest x (newest_first xs)

abbrev pub reusable_by : Text → List Criterion
reusable_by signature = has_signature (some signature) ∷ has_state completed ∷ []

unfoldable pub reuse_first : Text → List WorkflowRecord → M World (Option WorkflowRecord)
reuse_first signature [] = return none
reuse_first signature (wf ∷ rest) = emit (workflow_reused wf.id signature) >> return (some wf)

unfoldable pub find_reusable_workflow : Text → M World (Option WorkflowRecord)
unfolding newest_first reuse_first list_workflows
find_reusable_workflow signature = do
  list ← gets (λ w. list_workflows (reusable_by signature) w.db)
  reuse_first signature (newest_first list)

unfoldable pub list_workflow_history : List Criterion → M World (List WorkflowRecord)
unfolding list_workflows
list_workflow_history criteria = gets (λ w. list_workflows criteria w.db)
