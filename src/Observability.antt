-- ===== src/Observability.antt =====
-- What is recorded about runs: providers, metrics, the dashboard, traces.
pub mod Providers
pub mod Metrics
pub mod Dashboard
pub mod Traces
