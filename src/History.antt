-- ===== src/History.antt =====
-- services/agent-runtime/allcallall_agent_runtime/context_compression.py: the history of a
-- conversation for the model.
pub mod Compress
pub mod Window
pub mod Summary
pub mod Tests
