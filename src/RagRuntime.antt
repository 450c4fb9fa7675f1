-- ===== src/RagRuntime.antt =====
-- The RAG runtime: rag-runtime/allcallall_rag_runtime/retrieval.py with shared/scoring.py.
pub mod Scoring
pub mod Routing
pub mod Evidence
pub mod Agentic
pub mod Settling
pub mod Stalling
pub mod Typed
pub mod Scope
mod Tests
