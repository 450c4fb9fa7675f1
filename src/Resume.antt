-- ===== src/Resume.antt =====
-- orchestration/harness.py: the identity of tool calls, pending approvals and their resumption.
pub mod Calls
pub mod Checkpoint
pub mod Accepted
pub mod Once
pub mod Answered
mod Tests
