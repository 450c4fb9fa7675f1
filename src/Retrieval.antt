-- ===== src/Retrieval.antt =====
-- Retrieval: nodes/context.py, nodes/retrieval.py, retrieval.py and the helpers that these use.
pub mod State
pub mod Helpers
pub mod Cache
pub mod Remembering
pub mod Rerank
pub mod Ranking
pub mod Intent
pub mod Plan
pub mod Planning
pub mod Loop
pub mod Gathering
pub mod Rounds
pub mod Ownership
pub mod Nodes
pub mod Context
pub mod Warm
mod Tests
