-- ===== src/Workflow/Execution/Handover.antt =====
-- A workflow that changes hands: a second claim, and a release.
use agent_diaries_core.Prelude.{◌≡◌, refl, ap, true, none, some, Text}
use agent_diaries_core.Shared.{WorkflowRecord, claimed, queued}
use agent_diaries_core.Shared.Effect.{ok}
use agent_diaries_core.Memory.Persistence.{get_workflow}
use agent_diaries_core.Workflow.Domain.{Env, World}
use agent_diaries_core.Workflow.Machine.{can_transition}
use agent_diaries_core.Workflow.Repository.{claim_workflow, release_workflow, release_found}
use agent_diaries_core.Workflow.Execution.{
  Stored, stored, IsHeldBy, claim_workflow-ok, claimed-Stored, after_claim,
}
use agent_diaries_core.Workflow.Lifecycle.Steps.{get-saved}

claimed_again :
    (env : Env) (id a b : Text) (v : World)
    → Stored id (IsHeldBy id a) v
    → ((claim_workflow env id b v).1 ≡ ok true)
      × Stored id (IsHeldBy id b) (claim_workflow env id b v).0
unfolding can_transition
claimed_again env id a b v (stored x g (i, s, h)) =
    rw (claim_workflow-ok env id b x v g (rw s refl)) (refl, claimed-Stored env id b x v i)

-- After a worker has claimed a workflow, a claim by any other worker is accepted too, and takes the
-- workflow over.
pub claim_workflow-takes_over :
    (env : Env) (id a b : Text) (wf : WorkflowRecord) (w : World)
    → get_workflow id w.db ≡ some wf
    → wf.id ≡ id
    → can_transition wf.state claimed ≡ true
    → let v = (claim_workflow env id a w).0 in
      ((claim_workflow env id a w).1 ≡ ok true)
      × ((claim_workflow env id b v).1 ≡ ok true)
      × Stored id (IsHeldBy id b) (claim_workflow env id b v).0
claim_workflow-takes_over env id a b wf w e i t =
    let first = claim_workflow-ok env id a wf w e t in
    let (again, held) =
      claimed_again env id a b (after_claim env id a wf w) (claimed-Stored env id a wf w i) in
    rw first (refl, again, held)

-- A release puts a stored workflow back into the queue, without a worker, whatever its state was, a
-- completed or cancelled one included; any worker may claim it then.
pub release_workflow-reopens :
    (env : Env) (id worker : Text) (wf : WorkflowRecord) (w : World)
    → get_workflow id w.db ≡ some wf
    → wf.id ≡ id
    → let v = (release_workflow env id w).0 in
      Stored id (λ x. x.state ≡ queued × x.worker_id ≡ none × x.result ≡ wf.result) v
      × ((claim_workflow env id worker v).1 ≡ ok true)
unfolding release_workflow release_found can_transition
release_workflow-reopens env id worker wf w e i =
    let new : WorkflowRecord = record wf {
      state = queued;
      worker_id = none;
      updated_at = env.time w.ticks;
    } in
    let got = get-saved new w.db i in
    rw e (
      stored new got (refl, refl, refl),
      ap (λ p. p.1) (claim_workflow-ok env id worker new _ got refl),
    )
