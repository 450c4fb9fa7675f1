-- ===== src/Workflow/Critic.antt =====
-- nodes/retrieval.py: `critic_check`, over the parts of the state that it reads.
use allcallall_agent_runtime.Common.{
  ℕ, Bool, not, ◌&&◌, String, List, [], ◌∷◌, ◌++◌, leb, length, if◌then◌else◌,
}
use allcallall_agent_runtime.Workflow.State.{CriticResult, ToolProposal}
use allcallall_agent_runtime.Workflow.Router.{is_empty}
use allcallall_agent_runtime.Workflow.Check.{has_unsafe}

-- `grounded` is true where the grounding check has left no result.
pub record Evidence : Type 0 where
  pub sufficient : Bool
  pub grounded : Bool
  pub citations : List String
  pub coverage : ℕ
  pub retrieval_attempts : List String
  pub max_steps : ℕ
  pub proposals : List ToolProposal

-- if b: issues.append(issue)
abbrev pub issue_if : Bool → String → List String
issue_if b issue = if b then issue ∷ [] else []

abbrev pub within_budget : Evidence → Bool
within_budget ev = leb (length ev.retrieval_attempts) ev.max_steps

-- all(item.approval_required for item in proposals)
abbrev pub write_safe : Evidence → Bool
write_safe ev = not (has_unsafe ev.proposals)

unfoldable pub issues : Evidence → List String
issues ev =
    issue_if (not ev.sufficient) "insufficient_context_guarded"
    ++ (issue_if (not ev.grounded) "grounding_failed"
        ++ (issue_if (not (within_budget ev)) "retrieval_budget_exceeded"
            ++ (issue_if (not (write_safe ev)) "unsafe_write_proposal"
                ++ issue_if (ev.sufficient && (not (is_empty ev.citations) && leb ev.coverage 0))
                    "citation_coverage_missing")))

unfoldable pub critic_check : Evidence → CriticResult
critic_check ev = record {
  passed = ev.grounded && (write_safe ev && within_budget ev);
  issues = issues ev;
  citation_coverage = ev.coverage;
  context_sufficient = ev.sufficient;
}
