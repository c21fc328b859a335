-- ===== src/Workflow.antt =====
-- Workflows: their state machine, their storage, and the coordinator that runs them.
pub mod Timeline
pub mod Machine
pub mod Domain
pub mod Repository
pub mod Coordinator
pub mod Lifecycle
pub mod Execution
pub mod Reuse
pub mod Benchmark
