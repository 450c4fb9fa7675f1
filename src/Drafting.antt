-- ===== src/Drafting.antt =====
-- From the roles' results to the proposed writes: synthesis.py, grounding.py, `merge` of
-- nodes/retrieval.py and nodes/approval.py.
pub mod Synthesis
pub mod Merge
pub mod Propose
pub mod Supported
mod Tests
