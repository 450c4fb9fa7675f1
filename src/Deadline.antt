-- ===== src/Deadline.antt =====
-- services/agent-runtime/allcallall_agent_runtime/deadline.py: the deadline of a run, cooperative
-- cancellation, and the retry budget. Instants and durations are whole microseconds.
pub mod State
pub mod Header
pub mod Budget
pub mod Cancelling
pub mod Clamping
pub mod Delays
pub mod Tests
