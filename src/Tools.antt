-- ===== src/Tools.antt =====
-- The tool framework of src/tools.
pub mod Registry
pub mod Executor
