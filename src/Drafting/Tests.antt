-- ===== src/Drafting/Tests.antt =====
-- Drafting on concrete inputs.
use allcallall_agent_runtime.Retrieval.Rerank.{is_token_char}
use allcallall_agent_runtime.Common.Text.{
  split_at, strip, rstrip, lstrip, is_space, char_count, within, join, begins,
}
use allcallall_agent_runtime.Common.{String, [], refl, some, true, ◌∷◌, ◌≡◌}
use allcallall_agent_runtime.Common.Eq.{contains, string_eq}
use allcallall_agent_runtime.Drafting.Propose.{
  Workflow, pending_tools, propose_tools, workflow_tool_proposals,
}
use allcallall_agent_runtime.Drafting.Synthesis.{
  check_grounding, meaningful_tokens, split_claims, unsupported_by,
}
use allcallall_agent_runtime.Retrieval.State.{EvidencePack, risk}
use allcallall_agent_runtime.Retrieval.Helpers.{
  evaluate_context_sufficiency, missing_info, threshold, filter, any,
}

abbrev as_is : String → String
as_is text = text

abbrev workflow_of : String → Workflow
workflow_of preset = record {
  preset = preset;
  organization_id = 1;
  conversation_id = 2;
  agent_run_id = 0;
  workflow_run_id = 9;
}

abbrev pack : EvidencePack
pack = record {
  selected_chunk_ids = "c" ∷ [];
  source_types = "meeting_transcript" ∷ [];
  confidence = 66;
  snippets = [];
  citations =
      record {
        chunk_id = "c";
        source_type = "meeting_transcript";
        source_id = "7";
        source_title = "";
        title = "";
        snippet = "we ship on friday";
      }
      ∷ [];
  route_intent = some risk;
  coverage = 333;
  graph_edges = [];
}

proposed :
    pending_tools (
      propose_tools {B = String} "base" "message" ""
        (workflow_of "follow_up_planner")
        (evaluate_context_sufficiency "follow_up_planner" pack)
        true)
    ≡ "write_conversation_message" ∷ "create_follow_up_task" ∷ "upsert_agent_memory" ∷ []
unfolding pending_tools propose_tools workflow_tool_proposals evaluate_context_sufficiency
    missing_info threshold contains
proposed = refl

not_proposed :
    pending_tools (
      propose_tools {B = String} "base" "message" ""
        (workflow_of "risk_review")
        (evaluate_context_sufficiency "risk_review" (record pack { confidence = 54 }))
        true)
    ≡ []
unfolding pending_tools propose_tools evaluate_context_sufficiency missing_info threshold contains
not_proposed = refl

-- An unsupported claim does not matter where there is a citation.
cited_anyway :
    check_grounding as_is true "sales doubled yesterday" pack.citations
    ≡ record { grounded = true; unsupported_claims = "sales doubled yesterday" ∷ [] }
unfolding check_grounding split_claims unsupported_by meaningful_tokens filter split_at contains
    strip rstrip lstrip is_space is_token_char char_count any within join begins
cited_anyway = refl
