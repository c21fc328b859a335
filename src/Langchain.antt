-- ===== src/Langchain.antt =====
-- The LangChain integration of src/langchain: a cache, a tool and a callback handler over a diary.
pub mod Callbacks
pub mod Cache
pub mod Tool
