-- ===== src/ToolQueue.antt =====
-- services/agent-runtime/allcallall_agent_runtime/async_tool_queue.py: the queue of approved write
-- tools, with leases, traffic shaping, retries and dead letters, over the in-memory store.
pub mod Store
pub mod Queue
pub mod Worker
pub mod Steps
pub mod Pick
pub mod Keyed
pub mod Claims
pub mod Writes
pub mod Shaping
pub mod Leases
pub mod Keys
pub mod Attempts
pub mod Working
pub mod Handover
pub mod Repeated
pub mod Tests
