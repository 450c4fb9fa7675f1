-- ===== src/Workflow.antt =====
-- services/agent-runtime/allcallall_agent_runtime: the graph of agent nodes (dag.py), its two review
-- nodes (nodes/check.py) and the choice of roles (nodes/role_router.py).
pub mod State
pub mod Check
pub mod Critic
pub mod Escalation
pub mod Verdict
pub mod Ledger
pub mod Router
pub mod Roles
pub mod Required
pub mod Early
pub mod Graph
pub mod Progress
pub mod Reaching
pub mod Gates
pub mod Tests
