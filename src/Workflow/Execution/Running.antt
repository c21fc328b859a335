-- ===== src/Workflow/Execution/Running.antt =====
-- How `executeWorkflow` ends, from what the given function does.
use agent_diaries_core.Prelude.{ℕ, ◌≡◌, refl, sym, ◌∙◌, ap, true, some, Text}
use agent_diaries_core.Shared.{Value, Error, WorkflowRecord, claimed, completed, failed}
use agent_diaries_core.Shared.Effect.{
  M, Result, ok, err, bind-ok, bind-err, catch-ok, catch-err, catch, ◌>>=◌,
}
use agent_diaries_core.Memory.Persistence.{get_workflow}
use agent_diaries_core.Workflow.Domain.{
  Env, World, append_event, record_metric, id_or_uuid, time_or_now,
}
use agent_diaries_core.Workflow.Machine.{can_transition}
use agent_diaries_core.Workflow.Repository
use agent_diaries_core.Workflow.Coordinator
use agent_diaries_core.Workflow.Coordinator.{Payloads}
use agent_diaries_core.Workflow.Execution.{
  Stored, stored, IsHeldBy, claim_workflow-ok, claimed-Stored, complete_workflow-ok,
  fail_workflow-ok, get-moved, after_claim, moved, completed_with, failed_with, after_move,
}

-- The given function answers `r` on every world in which the worker holds the workflow, and leaves
-- the workflow as the predicate says.
abbrev pub Ends : Text → Text → M World Value → Result Value → (WorkflowRecord → Type 0) → Type 0
Ends id worker fn r P =
    (v : World) → Stored id (IsHeldBy id worker) v → (u : World) × (fn v ≡ (u, r)) × Stored id P u

module _ (env : Env) (payloads : Payloads) where
  -- What the answer is and what is stored afterwards.
  abbrev pub Leaves :
      Text → World × Result Value → Result Value → (WorkflowRecord → Type 0) → Type 0
  Leaves id p r P = (p.1 ≡ r) × Stored id P p.0

  finish-Leaves :
      (id : Text) (start : ℕ) (result : Value) (u : World)
      → Stored id (λ x. x.id ≡ id × can_transition x.state completed ≡ true) u
      → Leaves id
          (Coordinator.finish env payloads id start result u)
          (ok result)
          (λ x. x.state ≡ completed × x.result ≡ result)
  unfolding Coordinator.finish append_event record_metric id_or_uuid time_or_now after_move moved
      completed_with get_workflow
  finish-Leaves id start result u (stored wf e (i, t)) =
      let new = completed_with env result in
      let done =
        bind-ok (Repository.complete_workflow env id result)
          (Coordinator.report_completion env payloads id start result)
          (complete_workflow-ok env id result wf u e t) in
      (
        ap (λ p. p.1) done,
        stored _ (ap (λ p. get_workflow id p.0.db) done ∙ get-moved env id completed new wf u i)
            (refl, refl),
      )

  give_up-Leaves :
      (id : Text) (e : Error) (u : World)
      → Stored id (λ x. x.id ≡ id × can_transition x.state failed ≡ true) u
      → Leaves id
          (Coordinator.give_up env payloads id e u)
          (err e)
          (λ x. x.state ≡ failed × x.fail_reason ≡ some (Coordinator.error_message e))
  unfolding Coordinator.give_up Coordinator.report_failure append_event record_metric id_or_uuid
      time_or_now after_move moved failed_with get_workflow
  give_up-Leaves id x u (stored wf e (i, t)) =
      let reason = some (Coordinator.error_message x) in
      let new = failed_with env reason in
      let done =
        bind-ok (Repository.fail_workflow env id reason)
          (Coordinator.report_failure env payloads id x)
          (fail_workflow-ok env id reason wf u e t) in
      (
        ap (λ p. p.1) done,
        stored _ (ap (λ p. get_workflow id p.0.db) done ∙ get-moved env id failed new wf u i)
            (refl, refl),
      )

  -- The world in which the function starts.
  started : Text → Text → World → World
  started id worker w =
      (Coordinator.start_workflow env payloads id worker
        (Coordinator.after_claim env payloads id worker true w).0).0

  started-Stored :
      (id worker : Text) (P : WorkflowRecord → Type 0) (w : World)
      → Stored id P w
      → Stored id P (started id worker w)
  unfolding started Coordinator.start_workflow Coordinator.after_claim append_event record_metric
      id_or_uuid time_or_now get_workflow
  started-Stored id worker P w (stored wf e p) = stored wf e p

  body : Text → ℕ → M World Value → M World Value
  body id start fn =
      catch (fn >>= Coordinator.finish env payloads id start) (Coordinator.give_up env payloads id)

  -- A claim that is allowed leads into the body.
  execute_workflow-claimed :
      (id worker : Text) (fn : M World Value) (wf : WorkflowRecord) (w : World)
      → get_workflow id w.db ≡ some wf
      → can_transition wf.state claimed ≡ true
      → (start : ℕ) × (Coordinator.execute_workflow env payloads id worker fn w
          ≡ body id start fn (started id worker (after_claim env id worker wf w)))
  unfolding Coordinator.execute_workflow Coordinator.claim_workflow Coordinator.run_claimed
      Coordinator.start_workflow Coordinator.after_claim append_event record_metric id_or_uuid
      time_or_now started body
  execute_workflow-claimed id worker fn wf w e t =
      let claims =
        bind-ok (Repository.claim_workflow env id worker)
          (Coordinator.after_claim env payloads id worker)
          (claim_workflow-ok env id worker wf w e t) in
      (
        _,
        bind-ok (Coordinator.claim_workflow env payloads id worker)
            (Coordinator.run_claimed env payloads id worker fn) claims,
      )

  finishes_with :
      (p : World × Result Value) (result : Value) → p.1 ≡ ok result → p ≡ (p.0, ok result)
  finishes_with (v, r) result e = ap (λ x. (v, x)) e

  body-ok :
      (id : Text) (start : ℕ) (fn : M World Value) (result : Value) (v u : World)
      → fn v ≡ (u, ok result)
      → (Coordinator.finish env payloads id start result u).1 ≡ ok result
      → body id start fn v ≡ Coordinator.finish env payloads id start result u
  unfolding body
  body-ok id start fn result v u ran e =
      let finish = Coordinator.finish env payloads id start in
      let ends = finishes_with (finish result u) result e in
      catch-ok (fn >>= finish) (Coordinator.give_up env payloads id) (bind-ok fn finish ran ∙ ends)
      ∙ sym ends

  body-err :
      (id : Text) (start : ℕ) (fn : M World Value) (x : Error) (v u : World)
      → fn v ≡ (u, err x)
      → body id start fn v ≡ Coordinator.give_up env payloads id x u
  unfolding body
  body-err id start fn x v u ran =
      let finish = Coordinator.finish env payloads id start in
      catch-err (fn >>= finish) (Coordinator.give_up env payloads id) (bind-err fn finish ran)

  -- The function's run inside an execution that got its claim.
  runs_inside :
      (id worker : Text) (fn : M World Value) (r : Result Value) (P : WorkflowRecord → Type 0)
      (wf : WorkflowRecord) (w : World)
      → wf.id ≡ id
      → Ends id worker fn r P
      → (u : World) × (fn (started id worker (after_claim env id worker wf w)) ≡ (u, r))
        × Stored id P u
  runs_inside id worker fn r P wf w i ends =
      ends (started id worker (after_claim env id worker wf w)) (
        started-Stored id worker (IsHeldBy id worker) (after_claim env id worker wf w)
          (claimed-Stored env id worker wf w i))

-- A workflow that may be claimed is executed: when the function returns a value and leaves the
-- workflow in a state that may be completed, the call returns that value, and the workflow is
-- stored as `COMPLETED` with it.
pub execute_workflow-returns :
    (env : Env) (payloads : Payloads) (id worker : Text) (fn : M World Value) (result : Value)
    (wf : WorkflowRecord) (w : World)
    → get_workflow id w.db ≡ some wf
    → wf.id ≡ id
    → can_transition wf.state claimed ≡ true
    → Ends id worker fn (ok result) (λ x. x.id ≡ id × can_transition x.state completed ≡ true)
    → Leaves env payloads id
        (Coordinator.execute_workflow env payloads id worker fn w)
        (ok result)
        (λ x. x.state ≡ completed × x.result ≡ result)
execute_workflow-returns env payloads id worker fn result wf w e i t ends =
    let (start, runs) = execute_workflow-claimed env payloads id worker fn wf w e t in
    let (u, ran, after) = runs_inside env payloads id worker fn (ok result) _ wf w i ends in
    let leaves = finish-Leaves env payloads id start result u after in
    rw (runs, body-ok env payloads id start fn result _ u ran leaves.0) leaves

-- When the function throws and leaves the workflow in a state that may fail, the call throws the
-- same error, and the workflow is stored as `FAILED` with the error's text.
pub execute_workflow-throws :
    (env : Env) (payloads : Payloads) (id worker : Text) (fn : M World Value) (x : Error)
    (wf : WorkflowRecord) (w : World)
    → get_workflow id w.db ≡ some wf
    → wf.id ≡ id
    → can_transition wf.state claimed ≡ true
    → Ends id worker fn (err x) (λ y. y.id ≡ id × can_transition y.state failed ≡ true)
    → Leaves env payloads id
        (Coordinator.execute_workflow env payloads id worker fn w)
        (err x)
        (λ y. y.state ≡ failed × y.fail_reason ≡ some (Coordinator.error_message x))
execute_workflow-throws env payloads id worker fn x wf w e i t ends =
    let (start, runs) = execute_workflow-claimed env payloads id worker fn wf w e t in
    let (u, ran, after) = runs_inside env payloads id worker fn (err x) _ wf w i ends in
    rw (runs, body-err env payloads id start fn x _ u ran)
      (give_up-Leaves env payloads id x u after)
