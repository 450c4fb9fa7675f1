-- ===== src/Parallel.antt =====
-- services/agent-runtime/allcallall_agent_runtime/nodes/parallel_roles.py: the group of independent
-- roles, its reservation of budget, its execution and the merge of its results.
pub mod Reservation
pub mod Balance
pub mod Deltas
pub mod Order
pub mod Execute
pub mod Node
pub mod Limits
pub mod Results
pub mod Tests
