-- ===== src/Runtime.antt =====
-- The agent runtime of src/runtime.
pub mod Collector
pub mod Lifecycle
pub mod Environment
pub mod Counted
