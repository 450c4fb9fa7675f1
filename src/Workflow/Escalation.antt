-- ===== src/Workflow/Escalation.antt =====
-- nodes/retrieval.py and nodes/check.py: from the evidence to the decision of the quality check.
use allcallall_agent_runtime.Common.{Bool, not, ◌&&◌, String, List, ◌++◌, if◌then◌else◌}
use allcallall_agent_runtime.Common.Eq.{string_eq}
use allcallall_agent_runtime.Workflow.State.{State, Decision, pass, revise, escalate}
use allcallall_agent_runtime.Workflow.Critic.{Evidence, issue_if, within_budget, write_safe}

-- What the evidence calls for.
abbrev pub called_for : Evidence → Decision
called_for ev =
    if ev.grounded && (write_safe ev && within_budget ev)
    then pass
    else if not ev.sufficient
    then revise
    else if not ev.grounded
    then escalate
    else revise

abbrev listed : Bool → Bool → Bool → Bool → Bool → List String
listed a b c d e =
    issue_if a "insufficient_context_guarded"
    ++ (issue_if b "grounding_failed"
        ++ (issue_if c "retrieval_budget_exceeded"
            ++ (issue_if d "unsafe_write_proposal" ++ issue_if e "citation_coverage_missing")))
