-- ===== src/Workflow/State.antt =====
-- state.py and models/trace.py: the parts of the graph state that routing and review read and write.
-- Scores are thousandths, and a rationale is a constructor in place of its text.
use allcallall_agent_runtime.Common.{ℕ, Bool, Option, String, List}

pub data Decision : Type 0 where
  pass revise escalate : Decision

pub data Verdict : Type 0 where
  accept reject escalated : Verdict

pub data Agent : Type 0 where
  quality safety : Agent

pub data Rationale : Type 0 where
  no_rationale : Rationale
  budget_exhausted no_critic context_insufficient grounding_failed quality_issues acceptable :
      Rationale
  unsafe_write no_risk : Rationale
  risk_flags_raised : ℕ → Rationale

pub record Outcome : Type 0 where
  pub agent : Agent
  pub decision : Decision
  pub rationale : Rationale
  pub score : ℕ

-- An absent decision stands for the empty text.
pub record OutputDecision : Type 0 where
  pub final_verdict : Verdict
  pub l1_decision : Option Decision
  pub l2_decision : Option Decision
  pub revision_count : ℕ
  pub quality_trend : List Decision
  pub confidence_trajectory : List ℕ
  pub check_log : List Outcome
  pub total_review_cycles : ℕ
  pub rationale : Rationale

pub record CriticResult : Type 0 where
  pub passed : Bool
  pub issues : List String
  pub citation_coverage : ℕ
  pub context_sufficient : Bool

pub record ToolProposal : Type 0 where
  pub tool_name : String
  pub approval_required : Bool

pub record Request : Type 0 where
  pub preset : String
  pub goal : String
  pub attachments : List String
  pub meeting_transcripts : List String
  pub write_tools : List String

pub data Role : Type 0 where
  searcher memory_agent synthesize risk_analyst : Role

pub data Complexity : Type 0 where
  simple moderate complex : Complexity

-- `role_allocation` without its rationale text.
pub record RoleAllocation : Type 0 where
  pub roles : List Role
  pub parallel_groups : List (List Role)
  pub skip_roles : List Role
  pub required_roles : List Role
  pub complexity : Complexity

pub data Event : Type 0 where
  check_decision : Outcome → Event
  role_allocated : List Role → List Role → Complexity → Event

-- `rest` is whatever else the other nodes keep.
pub record State (R : Type 0) : Type 0 where
  pub request : Request
  pub intent_route : Option String
  pub critic_result : Option CriticResult
  pub critic_retries : ℕ
  pub last_check_decision : Option Decision
  pub check_log : List Outcome
  pub role_allocation : Option RoleAllocation
  pub output_decision : Option OutputDecision
  pub proposed_tool_calls : List ToolProposal
  pub risk_flags : List String
  pub unresolved_approval : Bool
  pub safety_blocked : Bool
  pub trace_events : List Event
  pub rest : R
