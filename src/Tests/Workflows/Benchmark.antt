-- ===== src/Tests/Workflows/Benchmark.antt =====
-- A certification on a coordinator that has a workflow already.
use agent_diaries_core.Prelude.{◌≡◌, true, [], ◌∷◌, codes, ltb}
use agent_diaries_core.Shared.{string}
use agent_diaries_core.Workflow.Benchmark.{run_benchmark, certify}
use agent_diaries_core.Workflow.Benchmark.Success.{certify-succeeds}
use agent_diaries_core.Tests.Workflows.{host, payloads, waits, with_workflow}

certify-succeeds_example :
    let r =
      (run_benchmark host payloads
        (λ n. n ∷ [])
        (string (codes "ok"))
        7
        (codes "w1")
        (with_workflow waits)).1 in
    let c = (certify host payloads (λ n. n ∷ []) (string (codes "ok")) (with_workflow waits)).1 in
    (r.successful_runs ≡ 7)
    × (r.failed_runs ≡ 0)
    × (c.high_success_rate ≡ true)
    × (c.score ≡ record { part = 500; whole = 5 })
    × (c.certified
        ≡ ltb
            (run_benchmark host payloads
              (λ n. n ∷ [])
              (string (codes "ok"))
              5
              (codes "benchmark-worker")
              (with_workflow waits)).1.avg_duration_ms.part
            2500)
certify-succeeds_example =
    certify-succeeds host payloads (λ n. n ∷ []) (string (codes "ok")) 7 (codes "w1")
      (with_workflow waits)
