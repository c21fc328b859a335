-- ===== src/Workflow/Benchmark/Success.antt =====
-- Every iteration of a benchmark succeeds.
use agent_diaries_core.Prelude.{
  ℕ, zero, suc, ◌+◌, ◌*◌, ◌++◌, ◌≡◌, refl, ◌∙◌, ap, true, some, arith, Text, codes, ltb, ◌==◌, ◌&&◌,
}
use agent_diaries_core.JsMap
use agent_diaries_core.Shared.{Value, undefined, WorkflowRecord, completed, claimed}
use agent_diaries_core.Shared.Effect.{Result, ok, return, bind-ok}
use agent_diaries_core.Memory.Persistence.{
  get_workflow, save_workflow, save_timeline_event, save_metric,
}
use agent_diaries_core.Workflow.Domain.{
  Env, World, append_event, record_metric, id_or_uuid, time_or_now,
}
use agent_diaries_core.Workflow.Machine.{can_transition}
use agent_diaries_core.Workflow.Repository
use agent_diaries_core.Workflow.Coordinator.{
  Payloads, submit_workflow, submit_signed, create_new, execute_workflow,
}
use agent_diaries_core.Workflow.Execution.{stored}
use agent_diaries_core.Workflow.Execution.Running.{execute_workflow-returns, Ends}
use agent_diaries_core.Workflow.Benchmark.{
  no_options, iterate, loop, counted, run_benchmark, result_of, report_of, certify,
}

-- A submission without a signature stores a new workflow, which may be claimed.
submit_workflow-stores :
    (env : Env) (payloads : Payloads) (name : Text) (w : World)
    → (v : World) × (wf : WorkflowRecord) × (submit_workflow env payloads name undefined no_options
          w
        ≡ (v, ok wf))
      × (get_workflow wf.id v.db ≡ some wf)
      × (can_transition wf.state claimed ≡ true)
unfolding submit_workflow submit_signed create_new Repository.create_workflow append_event
    record_metric id_or_uuid time_or_now get_workflow save_workflow save_timeline_event save_metric
    can_transition
submit_workflow-stores env payloads name w =
    let id = env.uuid w.ids in
    let wf = Repository.new_workflow id name undefined no_options (env.time w.ticks) in
    (_, wf, refl, JsMap.get-set_self id wf w.db.workflows, refl)

-- A function that only returns leaves the workflow claimed.
return-Ends :
    (id worker : Text) (x : Value)
    → Ends id worker (return x) (ok x) (λ y. y.id ≡ id × can_transition y.state completed ≡ true)
unfolding can_transition
return-Ends id worker x v (stored wf e (i, s, h)) = (v, refl, stored wf e (i, rw s refl))

module _ (env : Env) (payloads : Payloads) (decimal : ℕ → Text) (status_ok : Value) where
  iterate-succeeds :
      (worker : Text) (i : ℕ) (w : World)
      → (iterate env payloads decimal status_ok worker i w).1 ≡ ok status_ok
  unfolding iterate
  iterate-succeeds worker i w =
      let name = codes "benchmark-task-" ++ decimal i in
      let (v, wf, submits, found, free) = submit_workflow-stores env payloads name w in
      let run =
        λ (x : WorkflowRecord). execute_workflow env payloads x.id worker (return status_ok) in
      let leaves =
        execute_workflow-returns env payloads wf.id worker (return status_ok) status_ok wf v found
          refl free (return-Ends wf.id worker status_ok) in
      ap (λ (p : World × Result Value). p.1)
        (bind-ok (submit_workflow env payloads name undefined no_options) run submits)
      ∙ leaves.0

  loop-succeeds :
      (worker : Text) (left i success failed : ℕ) (w : World)
      → (loop env payloads decimal status_ok worker left i (success, failed) w).1
        ≡ (success + left, failed)
  unfolding loop
  loop-succeeds worker zero i success failed w = ap (λ n. (n, failed)) (omega arith)
  loop-succeeds worker (suc left) i success failed w =
      let (v, r) = iterate env payloads decimal status_ok worker i w in
      let e : r ≡ ok status_ok = iterate-succeeds worker i w in
      ap
        (λ x.
          (loop env payloads decimal status_ok worker left (suc i) (counted x (success, failed))
            v).1)
        e
      ∙ loop-succeeds worker left (suc i) (success + 1) failed v
      ∙ ap (λ n. (n, failed)) (omega arith)

  -- Whatever is stored before, all iterations of a benchmark succeed, so that a certification is a
  -- matter of the time that its five iterations take: it is given exactly if they take less than
  -- 2500 ms.
  pub certify-succeeds :
      (iterations : ℕ) (worker : Text) (w : World)
      → let r = (run_benchmark env payloads decimal status_ok iterations worker w).1 in
        let c = (certify env payloads decimal status_ok w).1 in
        (r.successful_runs ≡ iterations)
        × (r.failed_runs ≡ 0)
        × (c.high_success_rate ≡ true)
        × (c.score ≡ record { part = 500; whole = 5 })
        × (c.certified
            ≡ ltb
                (run_benchmark env payloads decimal status_ok 5
                  (codes "benchmark-worker")
                  w).1.avg_duration_ms.part
                2500)
  unfolding run_benchmark certify report_of result_of
  certify-succeeds iterations worker w =
      let start : World = record w { ticks = w.ticks + 1 } in
      let e = loop-succeeds worker iterations 0 0 0 start in
      let five = loop-succeeds (codes "benchmark-worker") 5 0 0 0 start in
      let high = ap (λ (x : ℕ × ℕ). x.0 == 5) five in
      (
        ap (λ (x : ℕ × ℕ). x.0) e ∙ omega arith,
        ap (λ (x : ℕ × ℕ). x.1) e,
        high,
        ap (λ (x : ℕ × ℕ). record { part = x.0 * 100; whole = 5 }) five,
        ap
            (λ b.
              b
              && ltb
                  (run_benchmark env payloads decimal status_ok 5 (codes "benchmark-worker")
                    w).1.avg_duration_ms.part
                  2500)
            high,
      )
