-- ===== src/Admission.antt =====
-- services/agent-runtime/allcallall_agent_runtime/admission.py: bounded admission of workflow
-- runs. A function of the children is one critical section under the controller's condition
-- lock, or what a caller does between two of them; System has the interleavings.
pub mod State
pub mod Acquire
pub mod Release
pub mod Counts
pub mod Scan
pub mod Invariant
pub mod Fifo
pub mod Entering
pub mod System
pub mod Accounting
pub mod Race
pub mod Tests
