-- ===== src/Skills.antt =====
-- skill_registry.py
pub mod State
pub mod Registry
pub mod Floors
mod Tests
