-- ===== src/Workflow/Lifecycle/Runs.antt =====
-- Whole runs of clients over the coordinator.
use agent_diaries_core.Prelude.{
  ℕ, ◌≡◌, refl, sym, ◌∙◌, ap, Bool, true, false, List, [], ◌∷◌, Option, none, some, arith, Text,
  codes,
}
use agent_diaries_core.Shared.{Value, Error, WorkflowRecord, WorkflowState}
use agent_diaries_core.Shared.Effect.{
  M, Preserves, Preserves-bind, Preserves-catch, return, ◌>>=◌, ◌>>◌,
}
use agent_diaries_core.Memory.Persistence.{get_workflow}
use agent_diaries_core.Workflow.Domain.{
  Env, World, append_event, record_metric, id_or_uuid, time_or_now, event_of,
}
use agent_diaries_core.Workflow.Machine.Diagram.{here, IsFinal, Reaches-final}
use agent_diaries_core.Workflow.Repository
use agent_diaries_core.Workflow.Coordinator
use agent_diaries_core.Workflow.Coordinator.{Payloads}
use agent_diaries_core.Workflow.Lifecycle.{
  AreDistinct, IsSound, Follows, at, Client, answer, submit, claim, complete, fail, cancel, status,
  execute, run,
}
use agent_diaries_core.Workflow.Lifecycle.Steps.{
  Along, keeps-Along, claim_workflow-Along, complete_workflow-Along, fail_workflow-Along,
  cancel_workflow-Along, create_workflow-Along,
}

module _ (env : Env) (payloads : Payloads) (d : AreDistinct env) (key : Text)
    (from : WorkflowState) where
  abbrev Kept : World → Type 0
  Kept = Along env key from

  create_new-Along :
      (name : Text) (payload : Value) (o : Repository.Options)
      → Preserves Kept (Coordinator.create_new env payloads name payload o)
  unfolding Coordinator.create_new append_event record_metric id_or_uuid time_or_now
  create_new-Along name payload o =
      Preserves-bind Kept (Repository.create_workflow env name payload o)
        (λ wf. do
          append_event env (event_of wf.id (codes "WORKFLOW_CREATED") (payloads.created name o))
          record_metric env (codes "workflow_created") 1 ((codes "name", name) ∷ [])
          return wf)
        (create_workflow-Along env key from d name payload o)
        (λ wf w. keeps-Along env key from w _ refl (omega arith))

  reuse_first-Along :
      (signature : Text) (list : List WorkflowRecord)
      → Preserves Kept (Repository.reuse_first signature list)
  unfolding Repository.reuse_first
  reuse_first-Along signature [] w a = a
  reuse_first-Along signature (wf ∷ rest) w a = keeps-Along env key from w _ refl (omega arith) a

  reuse_or_create-Along :
      (name : Text) (payload : Value) (o : Repository.Options) (signature : Text)
      (found : Option WorkflowRecord)
      → Preserves Kept (Coordinator.reuse_or_create env payloads name payload o signature found)
  unfolding Coordinator.reuse_or_create append_event id_or_uuid time_or_now
  reuse_or_create-Along name payload o signature none w a = create_new-Along name payload o w a
  reuse_or_create-Along name payload o signature (some wf) w a =
      keeps-Along env key from w _ refl (omega arith) a

  submit_signed-Along :
      (name : Text) (payload : Value) (o : Repository.Options) (signature : Option Text)
      → Preserves Kept (Coordinator.submit_signed env payloads name payload o signature)
  unfolding Coordinator.submit_signed Repository.find_reusable_workflow
  submit_signed-Along name payload o none = create_new-Along name payload o
  submit_signed-Along name payload o (some []) = create_new-Along name payload o
  submit_signed-Along name payload o (some (c ∷ cs)) =
      Preserves-bind Kept (Repository.find_reusable_workflow (c ∷ cs))
        (Coordinator.reuse_or_create env payloads name payload o (c ∷ cs))
        (λ w. reuse_first-Along (c ∷ cs) _ w) (reuse_or_create-Along name payload o (c ∷ cs))

  after_claim-Along :
      (id worker_id : Text) (claimed : Bool)
      → Preserves Kept (Coordinator.after_claim env payloads id worker_id claimed)
  unfolding Coordinator.after_claim append_event record_metric id_or_uuid time_or_now
  after_claim-Along id worker_id false w a = a
  after_claim-Along id worker_id true w a = keeps-Along env key from w _ refl (omega arith) a

  claim-Along :
      (id worker_id : Text) → Preserves Kept (Coordinator.claim_workflow env payloads id worker_id)
  unfolding Coordinator.claim_workflow
  claim-Along id worker_id =
      Preserves-bind Kept (Repository.claim_workflow env id worker_id)
        (Coordinator.after_claim env payloads id worker_id)
        (claim_workflow-Along env key from id worker_id) (after_claim-Along id worker_id)

  finish-Along :
      (id : Text) (start : ℕ) (result : Value)
      → Preserves Kept (Coordinator.finish env payloads id start result)
  unfolding Coordinator.finish append_event record_metric id_or_uuid time_or_now
  finish-Along id start result =
      Preserves-bind Kept (Repository.complete_workflow env id result)
        (Coordinator.report_completion env payloads id start result)
        (complete_workflow-Along env key from id result)
        (λ _ w. keeps-Along env key from w _ refl (omega arith))

  give_up-Along : (id : Text) (e : Error) → Preserves Kept (Coordinator.give_up env payloads id e)
  unfolding Coordinator.give_up append_event record_metric id_or_uuid time_or_now
  give_up-Along id e =
      Preserves-bind Kept (Repository.fail_workflow env id (some (Coordinator.error_message e)))
        (Coordinator.report_failure env payloads id e)
        (fail_workflow-Along env key from id (some (Coordinator.error_message e)))
        (λ _ w. keeps-Along env key from w _ refl (omega arith))

  run_claimed-Along :
      (id worker_id : Text) (fn : M World Value) (claimed : Bool)
      → Preserves Kept fn
      → Preserves Kept (Coordinator.run_claimed env payloads id worker_id fn claimed)
  unfolding Coordinator.run_claimed Coordinator.start_workflow append_event id_or_uuid time_or_now
  run_claimed-Along id worker_id fn false h w a = a
  run_claimed-Along id worker_id fn true h w a =
      Preserves-catch Kept (fn >>= Coordinator.finish env payloads id (env.time w.ticks))
        (Coordinator.give_up env payloads id)
        (Preserves-bind Kept fn (Coordinator.finish env payloads id (env.time w.ticks)) h
          (finish-Along id (env.time w.ticks)))
        (give_up-Along id) _ (keeps-Along env key from w _ refl (omega arith) a)

  pub execute-Along :
      (id worker_id : Text) (fn : M World Value)
      → Preserves Kept fn
      → Preserves Kept (Coordinator.execute_workflow env payloads id worker_id fn)
  unfolding Coordinator.execute_workflow
  execute-Along id worker_id fn h =
      Preserves-bind Kept (Coordinator.claim_workflow env payloads id worker_id)
        (Coordinator.run_claimed env payloads id worker_id fn) (claim-Along id worker_id)
        (λ claimed. run_claimed-Along id worker_id fn claimed h)

  pub run-Along : (k : Client) → Preserves Kept (run env payloads k)
  unfolding run Coordinator.submit_workflow Coordinator.get_workflow_status
      Repository.list_workflow_history
  run-Along (answer r) w a = a
  run-Along (submit name payload o k) w a =
      run-Along k _ (submit_signed-Along name payload o o.signature w a)
  run-Along (claim id worker_id k) w a = run-Along k _ (claim-Along id worker_id w a)
  run-Along (complete id result k) w a =
      run-Along k _ (complete_workflow-Along env key from id result w a)
  run-Along (fail id reason k) w a = run-Along k _ (fail_workflow-Along env key from id reason w a)
  run-Along (cancel id k) w a = run-Along k _ (cancel_workflow-Along env key from id w a)
  run-Along (status id k) w a = run-Along k w a
  run-Along (execute id worker_id fn k) w a =
      run-Along k _ (execute-Along id worker_id (run env payloads fn) (run-Along fn) w a)

-- Whatever clients call, `releaseWorkflow` apart, a stored workflow stays stored, and the state in
-- which it is found later is reached from the state it had by allowed transitions. The worlds start
-- sound, and the host's identifiers are distinct.
pub run-Follows :
    (env : Env) (payloads : Payloads) (k : Client) (w : World) (id : Text) (wf : WorkflowRecord)
    → AreDistinct env
    → IsSound env w
    → get_workflow id w.db ≡ some wf
    → Follows id wf.state (run env payloads k w).0
run-Follows env payloads k w id wf d s e =
    (run-Along env payloads d id wf.state k w (s, at wf e here)).1

-- Whatever clients call, `releaseWorkflow` apart, a workflow that is completed or cancelled keeps its
-- state for good. The worlds start sound, and the host's identifiers are distinct.
pub run-final :
    (env : Env) (payloads : Payloads) (k : Client) (w : World) (id : Text) (wf wf' : WorkflowRecord)
    → AreDistinct env
    → IsSound env w
    → get_workflow id w.db ≡ some wf
    → IsFinal wf.state
    → get_workflow id (run env payloads k w).0.db ≡ some wf'
    → wf'.state ≡ wf.state
run-final env payloads k w id wf wf' d s e f e' = elim (run-Follows env payloads k w id wf d s e) [
  | at x g r ↦ let same : x ≡ wf' = cc in ap (λ z. z.state) (sym same) ∙ Reaches-final f r
]
