-- ===== src/RagRuntime/Routing.antt =====
-- The second half of the RAG runtime's retrieval.py: the route of a query, the relationships read
-- from chunks, and the queries of the steps. `lower` is `str.lower`. Rationale texts are left out;
-- confidences of a route and of an edge are hundredths.
use Prim.Native.String.{◌++◌ as ◌<>◌}
use allcallall_agent_runtime.Common.{
  Bool, List, Option, String, [], false, if◌then◌else◌, map, none, not, some, suc, take, zero, ℕ,
  ◌&&◌, ◌++◌, ◌||◌, ◌∷◌,
}
use allcallall_agent_runtime.Common.Eq.{contains, string_eq, ◌==◌}
use allcallall_agent_runtime.Common.Dict.{values}
use allcallall_agent_runtime.Common.Text.{first_chars, is_blank, join, strip, within}
use allcallall_agent_runtime.RagRuntime.Scoring.{query_tokens}
use allcallall_agent_runtime.Retrieval.State.{
  ContextChunk, GraphExpansion, Intent, KnowledgeGraphEdge, chat, consult, risk,
}
use allcallall_agent_runtime.Retrieval.Helpers.{
  any, chunk_key, first_by, is_consult, is_risk, none_of, or_text, unique_strings,
}
use allcallall_agent_runtime.Retrieval.Intent.{contains_any, first_relation, infer_target_phrase}

pub record RetrievalRoute : Type 0 where
  pub intent : Intent
  pub target_workflow : String
  pub confidence : ℕ
  pub required_source_types : List String
  pub retrieval_strategy : String

unfoldable pub rag_risk_keywords : List String
rag_risk_keywords =
    "risk" ∷ "approval" ∷ "blocker" ∷ "security" ∷ "legal" ∷ "deadline" ∷ "budget" ∷ "风险" ∷ "审批"
    ∷ "安全" ∷ "法务" ∷ "延期" ∷ "预算" ∷ "阻塞" ∷ []

unfoldable pub rag_consult_keywords : List String
rag_consult_keywords =
    "what" ∷ "how" ∷ "policy" ∷ "knowledge" ∷ "checklist" ∷ "requires" ∷ "为什么" ∷ "如何" ∷ "政策" ∷ "知识库"
    ∷ "清单" ∷ "材料" ∷ []

unfoldable pub rag_relation_rules : List (String × List String)
rag_relation_rules =
    ("requires", "requires" ∷ "require" ∷ "需要" ∷ "必须" ∷ "包含" ∷ "should" ∷ [])
    ∷ ("blocks", "blocker" ∷ "block" ∷ "风险" ∷ "延期" ∷ "delay" ∷ [])
    ∷ ("owned_by", "owner" ∷ "owns" ∷ "负责" ∷ "跟进" ∷ "action item" ∷ [])
    ∷ ("approves", "approval" ∷ "approve" ∷ "审批" ∷ "signoff" ∷ [])
    ∷ ("mitigates", "mitigation" ∷ "mitigate" ∷ "缓解" ∷ "回归" ∷ "rollback" ∷ [])
    ∷ []

abbrev multi_hop_route : ℕ → RetrievalRoute
multi_hop_route confidence = record {
  intent = risk;
  target_workflow = "risk_review";
  confidence = confidence;
  required_source_types = "meeting_transcript" ∷ "knowledge" ∷ "memory" ∷ [];
  retrieval_strategy = "multi_hop";
}

-- source_types == [only]
abbrev is_only : String → List String → Bool
is_only only [] = false
is_only only (t ∷ []) = t == only
is_only only (t ∷ u ∷ us) = false

abbrev pub snippet_of : ContextChunk → String
snippet_of chunk = chunk.snippet

-- edge.source, edge.relation and edge.target of each edge
abbrev named_by : List KnowledgeGraphEdge → List String
named_by [] = []
named_by (edge ∷ edges) = edge.source ∷ edge.relation ∷ edge.target ∷ named_by edges

-- queries.append(query), where `test`
abbrev query_if : Bool → String → List String
query_if test query = if test then query ∷ [] else []

-- The loop breaks once it has `max_steps` queries, of which there is at least one.
unfoldable pub build_queries :
    String → List String → ℕ → RetrievalRoute → GraphExpansion → List String
build_queries query types max_steps route graph =
    let expansion = join " " (take 6 graph.expanded_terms) in
    take max_steps (
      unique_strings (
        query
          ∷ query_if (is_risk route.intent || contains types "meeting_transcript")
              (query <> (" " <> (expansion <> " meeting transcript decisions risks action items")))
        ++ (query_if (is_consult route.intent || contains types "knowledge")
              (query <> (" " <> (expansion <> " policy knowledge reference checklist")))
            ++ (query <> " conversation notes followups") ∷ [])))

module _ (lower : String → String) where
  unfoldable pub route_query : String → List String → List ContextChunk → RetrievalRoute
  route_query query types chunks =
      let text = lower (join " " (query ∷ map snippet_of (take 6 chunks))) in
      if is_only "none" types
      then record {
        intent = chat;
        target_workflow = "react_general";
        confidence = 80;
        required_source_types = [];
        retrieval_strategy = "no_retrieval";
      }
      else if contains types "meeting_transcript"
      then multi_hop_route 90
      else if is_only "knowledge" types || contains_any lower text rag_consult_keywords
      then record {
        intent = consult;
        target_workflow = "context_qa";
        confidence = 84;
        required_source_types = "knowledge" ∷ "meeting_transcript" ∷ "memory" ∷ [];
        retrieval_strategy = "graph_augmented";
      }
      else if contains_any lower text rag_risk_keywords
      then multi_hop_route 86
      else record {
        intent = chat;
        target_workflow = "react_general";
        confidence = 78;
        required_source_types = "message" ∷ "note" ∷ "followup" ∷ "memory" ∷ [];
        retrieval_strategy = "single_pass";
      }

  abbrev rag_edge : ContextChunk → ℕ → String → String → KnowledgeGraphEdge
  rag_edge chunk ordinal relation target = record {
    ordinal = ordinal;
    origin = or_text chunk.chunk_id (chunk.source_type <> ("-" <> chunk.source_id));
    source = first_chars 80 (or_text (or_text chunk.title chunk.source_title) chunk.source_type);
    relation = relation;
    target = first_chars 120 target;
    evidence_chunk_id = chunk_key chunk;
    confidence = if chunk.source_type == "knowledge" then 72 else 64;
  }

  unfoldable pub rag_edge_from_chunk : ContextChunk → List String → ℕ → Option KnowledgeGraphEdge
  rag_edge_from_chunk chunk terms ordinal =
      let text = strip (chunk.title <> (" " <> (chunk.source_title <> (" " <> chunk.snippet)))) in
      let relation = first_relation lower text rag_relation_rules in
      let target = infer_target_phrase text in
      if is_blank relation || is_blank target
      then none
      else if not (none_of terms || any (λ t. within t (lower text)) terms)
          && not (contains ("knowledge" ∷ "meeting_transcript" ∷ "memory" ∷ []) chunk.source_type)
      then none
      else some (rag_edge chunk ordinal relation target)

  -- The loop of `build_graph_expansion`, where `room` more edges are wanted.
  unfoldable pub rag_edges : List String → ℕ → ℕ → List ContextChunk → List KnowledgeGraphEdge
  rag_edges terms zero count chunks = []
  rag_edges terms (suc room) count [] = []
  rag_edges terms (suc room) count (chunk ∷ chunks) =
      elim (rag_edge_from_chunk chunk terms (suc count)) [
        | none ↦ rag_edges terms (suc room) count chunks
        | some edge ↦ edge ∷ rag_edges terms room (suc count) chunks
      ]

  unfoldable pub all_tokens : List String → List String
  all_tokens [] = []
  all_tokens (v ∷ vs) = query_tokens lower v ++ all_tokens vs

  unfoldable pub dedupe_terms : List String → List String → List String
  dedupe_terms values exclude = first_by (λ t. t) exclude (all_tokens values)

  unfoldable pub expand_graph : String → List ContextChunk → GraphExpansion
  expand_graph query chunks =
      let terms = take 8 (query_tokens lower query) in
      let edges = rag_edges terms 8 0 chunks in
      record {
        enabled = not (none_of edges);
        query_terms = terms;
        expanded_terms = take 12 (dedupe_terms (named_by edges) terms);
        edges = edges;
      }
