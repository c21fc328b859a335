-- ===== src/Workflow/Benchmark.antt =====
-- src/core/benchmark/BenchmarkEngine.ts, the classes `BenchmarkEngine` and `CertificationEngine`, over a
-- coordinator. Quotients are kept as their two numbers.
pub mod Success
use agent_diaries_core.Prelude.{
  ℕ, zero, suc, ◌+◌, ◌-◌, ◌*◌, ◌++◌, Bool, ◌&&◌, Option, none, Text, codes, ltb, ◌==◌,
}
use agent_diaries_core.Shared.{Value, undefined}
use agent_diaries_core.Shared.Effect.{M, Result, ok, err, return, ◌>>=◌}
use agent_diaries_core.Workflow.Domain.{Env, World}
use agent_diaries_core.Workflow.Repository.{Options}
use agent_diaries_core.Workflow.Coordinator.{Payloads, submit_workflow, execute_workflow}

-- A part and the whole that it is divided by.
pub record Quotient : Type 0 where
  pub part : ℕ
  pub whole : ℕ

pub record BenchmarkResult : Type 0 where
  pub total_runs : ℕ
  pub successful_runs : ℕ
  pub failed_runs : ℕ
  pub avg_duration_ms : Quotient
  pub throughput_per_sec : Quotient

pub record CertificationReport : Type 0 where
  pub certified : Bool
  pub score : Quotient
  pub high_success_rate : Bool
  pub low_latency : Bool

abbrev pub no_options : Options
no_options = record { signature = none; ttl_ms = none }

abbrev pub counted : Result Value → ℕ × ℕ → ℕ × ℕ
counted (ok v) (success, failed) = (success + 1, failed)
counted (err e) (success, failed) = (success, failed + 1)

unfoldable pub result_of : ℕ → ℕ → ℕ × ℕ → BenchmarkResult
result_of iterations total_duration counts = record {
  total_runs = iterations;
  successful_runs = counts.0;
  failed_runs = counts.1;
  avg_duration_ms = record { part = total_duration; whole = iterations };
  throughput_per_sec = record { part = iterations * 1000; whole = total_duration };
}

unfoldable pub report_of : BenchmarkResult → CertificationReport
report_of r =
    let high = r.successful_runs == 5 in
    let fast = ltb r.avg_duration_ms.part (500 * r.avg_duration_ms.whole) in
    record {
      certified = high && fast;
      score = record { part = r.successful_runs * 100; whole = r.total_runs };
      high_success_rate = high;
      low_latency = fast;
    }

-- The decimal text of a number and the object `{ status: "ok" }` are the host's.
module _ (env : Env) (payloads : Payloads) (decimal : ℕ → Text) (status_ok : Value) where
  -- What is in the `try` of an iteration.
  unfoldable pub iterate : Text → ℕ → M World Value
  unfolding submit_workflow execute_workflow
  iterate worker_id i =
      submit_workflow env payloads (codes "benchmark-task-" ++ decimal i) undefined no_options
      >>= λ wf. execute_workflow env payloads wf.id worker_id (return status_ok)

  -- The iterations that are left, the number of the next one, and the counts so far.
  unfoldable pub loop : Text → ℕ → ℕ → ℕ × ℕ → World → World × (ℕ × ℕ)
  unfolding iterate
  loop worker_id zero i counts w = (w, counts)
  loop worker_id (suc left) i counts w =
      let (v, r) = iterate worker_id i w in loop worker_id left (suc i) (counted r counts) v

  unfoldable pub run_benchmark : ℕ → Text → World → World × BenchmarkResult
  unfolding loop result_of
  run_benchmark iterations worker_id w =
      let start = env.time w.ticks in
      let (v, counts) = loop worker_id iterations 0 (0, 0) (record w { ticks = w.ticks + 1 }) in
      (record v { ticks = v.ticks + 1 }, result_of iterations (env.time v.ticks - start) counts)

  unfoldable pub certify : World → World × CertificationReport
  unfolding run_benchmark report_of
  certify w = let (v, r) = run_benchmark 5 (codes "benchmark-worker") w in (v, report_of r)
