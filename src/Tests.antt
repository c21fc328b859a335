-- ===== src/Tests.antt =====
-- Concrete runs, and the theorems applied to them.
mod Diaries
mod Workflows
mod Providers
mod Instruments
mod Statistics
mod Buses
mod Agents
mod Langchain
mod Storage
mod Plugins
mod Adapters
