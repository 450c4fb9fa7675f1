-- ===== src/Workflow/Early.antt =====
-- nodes/role_router.py: when a run may stop early.
use allcallall_agent_runtime.Common.{ℕ, ◌≤◌, ◌≡◌, ◌↔◌, Bool, true, false, arith}
use allcallall_agent_runtime.Workflow.Router.{EarlyTerminationThresholds, should_terminate_early}

-- Every score reaches its threshold, every required role is complete, and nothing is pending or
-- blocked.
abbrev pub MayStop : ℕ → ℕ → ℕ → Bool → Bool → Bool → EarlyTerminationThresholds → Type 0
MayStop evidence citations goal complete unresolved blocked t =
    (t.evidence_sufficiency ≤ evidence)
    × ((t.citation_coverage ≤ citations)
        × ((t.goal_coverage ≤ goal)
            × ((complete ≡ true) × ((unresolved ≡ false) × (blocked ≡ false)))))

-- A run stops early exactly where the three scores reach their thresholds, every required role is
-- complete, no approval is unresolved and nothing is blocked: no score makes up for a gate.
pub should_terminate_early_iff :
    (evidence citations goal : ℕ) (complete unresolved blocked : Bool)
    (t : EarlyTerminationThresholds)
    → (should_terminate_early evidence citations goal complete unresolved blocked t ≡ true)
      ↔ MayStop evidence citations goal complete unresolved blocked t
unfolding should_terminate_early
should_terminate_early_iff evidence citations goal complete unresolved blocked t = ground arith
