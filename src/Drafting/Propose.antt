-- ===== src/Drafting/Propose.antt =====
-- nodes/approval.py. A reason text is left out, an idempotency key and a rate-limit key are
-- constructors in place of their texts, and the arguments are those that a proposal adds to the
-- base, which is a parameter.
use allcallall_agent_runtime.Workflow.State.{ToolProposal}
use allcallall_agent_runtime.Common.{
  Bool, List, String, [], if◌then◌else◌, ltb, map, true, ℕ, ◌++◌, ◌∷◌,
}
use allcallall_agent_runtime.Common.Eq.{string_eq, ◌==◌}
use allcallall_agent_runtime.Retrieval.State.{ContextSufficiency}
use allcallall_agent_runtime.Retrieval.Helpers.{or_text}

pub record Workflow : Type 0 where
  pub preset : String
  pub organization_id : ℕ
  pub conversation_id : ℕ
  pub agent_run_id : ℕ
  pub workflow_run_id : ℕ

-- runtime_subject_id
pub data Subject : Type 0 where
  agent workflow : ℕ → Subject

-- f"{subject}:write_conversation_message:{preset}", f"{subject}:create_follow_up_task" and
-- f"{subject}:upsert_conversation_memory:{memory_key}"
pub data Key : Type 0 where
  message_key memory_key : Subject → String → Key
  follow_up_key : Subject → Key

pub data Priority : Type 0 where
  normal high : Priority

pub data Arguments (B : Type 0) : Type 0 where
  message : B → Arguments B
  follow_up : ℕ → String → Arguments B
  memory : B → String → Arguments B

-- The fields of `ToolProposal` that the node sets, with its defaults for the others.
pub record Proposal (B : Type 0) : Type 0 where
  pub tool_name : String
  pub arguments : Arguments B
  pub idempotency_key : Key
  pub approval_required : Bool
  pub queue_name : String
  pub priority : Priority
  -- of an organization and a conversation
  pub rate_limit_key : ℕ × ℕ

unfoldable pub runtime_subject_id : Workflow → Subject
runtime_subject_id w =
    if ltb 0 w.agent_run_id then agent w.agent_run_id else workflow w.workflow_run_id

unfoldable pub memory_key_of : String → String
memory_key_of preset =
    if preset == "follow_up_planner"
    then "follow_up_commitments"
    else if preset == "risk_review"
    then "open_risk_register"
    else "latest_meeting_brief"

abbrev priority_of : String → Priority
priority_of preset = if preset == "risk_review" then high else normal

abbrev rate_key : Workflow → ℕ × ℕ
rate_key w = (w.organization_id, w.conversation_id)

module _ {B : Type 0} (base : B) (message_arguments : B) (next_step : String) where
  abbrev pub message_proposal : Workflow → Proposal B
  message_proposal w = record {
    tool_name = "write_conversation_message";
    arguments = message message_arguments;
    idempotency_key = message_key (runtime_subject_id w) w.preset;
    approval_required = true;
    queue_name = "agent_writebacks";
    priority = priority_of w.preset;
    rate_limit_key = rate_key w;
  }

  abbrev pub follow_up_proposal : Workflow → Proposal B
  follow_up_proposal w = record {
    tool_name = "create_follow_up_task";
    arguments =
        follow_up w.conversation_id (or_text next_step "Follow up on the meeting commitments.");
    idempotency_key = follow_up_key (runtime_subject_id w);
    approval_required = true;
    queue_name = "agent_followups";
    priority = normal;
    rate_limit_key = rate_key w;
  }

  abbrev pub memory_proposal : Workflow → Proposal B
  memory_proposal w = record {
    tool_name = "upsert_agent_memory";
    arguments = memory base (memory_key_of w.preset);
    idempotency_key = memory_key (runtime_subject_id w) (memory_key_of w.preset);
    approval_required = true;
    queue_name = "agent_memory";
    priority = priority_of w.preset;
    rate_limit_key = rate_key w;
  }

  -- if b: proposals.append(p)
  abbrev pub proposal_if : Bool → Proposal B → List (Proposal B)
  proposal_if b p = if b then p ∷ [] else []

  -- `recommended` is reflection.memory_write_recommended.
  unfoldable pub workflow_tool_proposals : Workflow → Bool → List (Proposal B)
  workflow_tool_proposals w recommended =
      if w.preset == "context_qa"
      then []
      else message_proposal w
        ∷ (proposal_if (w.preset == "follow_up_planner") (follow_up_proposal w)
            ++ proposal_if recommended (memory_proposal w))

  unfoldable pub propose_tools : Workflow → ContextSufficiency → Bool → List (Proposal B)
  propose_tools w sufficiency recommended =
      if sufficiency.sufficient then workflow_tool_proposals w recommended else []

-- The trace event of `approval_gate`: the tools that wait for a decision.
unfoldable pub pending_tools : {B : Type 0} → List (Proposal B) → List String
pending_tools proposals = map (λ p. p.tool_name) proposals

-- The proposals as the critic and the safety check read them.
unfoldable pub as_proposed : {B : Type 0} → List (Proposal B) → List ToolProposal
as_proposed proposals =
    map (λ p. record { tool_name = p.tool_name; approval_required = p.approval_required }) proposals
