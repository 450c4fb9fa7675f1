-- ===== src/Retrieval/Intent.antt =====
-- helpers.py: the intent of a request, and the relationships inferred from its chunks. `lower` is
-- `str.lower`. The rationale texts are left out.
use Prim.Native.Char.{Char, code}
use Prim.Native.String.{◌++◌ as ◌<>◌}
use allcallall_agent_runtime.Common.{
  Bool, List, Option, String, [], if◌then◌else◌, map, none, not, some, suc, take, zero, ℕ, ◌&&◌,
  ◌++◌, ◌||◌, ◌∷◌,
}
use allcallall_agent_runtime.Common.Eq.{contains, string_eq, ◌==◌, nat_eq}
use allcallall_agent_runtime.Common.Text.{
  first_chars, is_blank, join, split_at, squeeze, strip, within,
}
use allcallall_agent_runtime.Retrieval.State.{
  ContextChunk, GraphExpansion, Intent, IntentRoute, KnowledgeGraphEdge, Request, Strategy, chat,
  consult, graph_augmented, multi_hop, risk, single_pass,
}
use allcallall_agent_runtime.Retrieval.Helpers.{
  any, chunk_key, filter, first_non_empty, none_of, or_text, unique_strings,
}
use allcallall_agent_runtime.Retrieval.Rerank.{tokenize}

unfoldable pub risk_keywords : List String
risk_keywords =
    "risk" ∷ "blocker" ∷ "approval" ∷ "security" ∷ "legal" ∷ "privacy" ∷ "deadline" ∷ "budget"
    ∷ "风险" ∷ "阻塞" ∷ "审批" ∷ "安全" ∷ "法务" ∷ "隐私" ∷ "延期" ∷ "预算" ∷ "升级" ∷ []

unfoldable pub consult_keywords : List String
consult_keywords =
    "what" ∷ "how" ∷ "why" ∷ "policy" ∷ "knowledge" ∷ "checklist" ∷ "require" ∷ "requires" ∷ "需要什么"
    ∷ "如何" ∷ "为什么" ∷ "政策" ∷ "知识库" ∷ "规范" ∷ "材料" ∷ "清单" ∷ []

-- part for part in parts if part
abbrev non_blank : List String → List String
non_blank parts = filter (λ part. not (is_blank part)) parts

unfoldable pub route_text : Request → String
route_text request =
    join " " (non_blank (request.preset ∷ request.goal ∷ (request.messages ++ request.notes)))

abbrev risk_sources : List String
risk_sources = "meeting_transcript" ∷ "knowledge" ∷ "memory" ∷ []

-- relation_rules
abbrev relation_rules : List (String × List String)
relation_rules =
    ("requires", "requires" ∷ "require" ∷ "需要" ∷ "必须" ∷ "包含" ∷ "should" ∷ [])
    ∷ ("blocks", "blocker" ∷ "block" ∷ "阻塞" ∷ "风险" ∷ "延期" ∷ "delay" ∷ [])
    ∷ ("owned_by", "owner" ∷ "负责" ∷ "跟进" ∷ "action item" ∷ "owns" ∷ [])
    ∷ ("approves", "approval" ∷ "approve" ∷ "审批" ∷ "signoff" ∷ [])
    ∷ ("mitigates", "mitigation" ∷ "mitigate" ∷ "缓解" ∷ "回归" ∷ "rollback" ∷ [])
    ∷ []

-- [。；;.!?\n]
abbrev ends_clause : Char → Bool
ends_clause c = contains ⦃keys = nat_eq⦄ (12290 ∷ 65307 ∷ 59 ∷ 46 ∷ 33 ∷ 63 ∷ 10 ∷ []) (code c)

unfoldable pub infer_target_phrase : String → String
infer_target_phrase text =
    let normalized = squeeze text in
    if is_blank normalized
    then ""
    else first_non_empty (map strip (split_at ends_clause normalized))

module _ (lower : String → String) where
  unfoldable pub contains_any : String → List String → Bool
  contains_any text keywords = any (λ keyword. within (lower keyword) (lower text)) keywords

  -- What `route_request_intent` returns for an intent.
  abbrev pub route_to : Request → Intent → ℕ → List String → Strategy → IntentRoute
  route_to request intent confidence required strategy = record {
    intent = intent;
    target_workflow = request.preset;
    confidence = confidence;
    required_source_types = required;
    retrieval_strategy = strategy;
  }

  unfoldable pub route_request_intent : Request → IntentRoute
  route_request_intent request =
      let text = lower (route_text request) in
      if request.preset == "risk_review"
      then route_to request risk 90 risk_sources multi_hop
      else if request.preset == "context_qa" || contains_any text consult_keywords
      then route_to request consult 84 ("knowledge" ∷ "meeting_transcript" ∷ "memory" ∷ [])
          graph_augmented
      else if contains_any text risk_keywords
      then route_to request risk 86 risk_sources multi_hop
      else route_to request chat 78
          ("conversation" ∷ "message" ∷ "note" ∷ "followup" ∷ "memory" ∷ []) single_pass

  unfoldable pub tokenize_route_terms : String → List String
  tokenize_route_terms text = tokenize lower text

  -- The first rule of which a keyword occurs; the empty text where none does.
  unfoldable pub first_relation : String → List (String × List String) → String
  first_relation text [] = ""
  first_relation text ((relation, keywords) ∷ rules) =
      if contains_any text keywords then relation else first_relation text rules

  unfoldable pub infer_relation : String → String
  infer_relation text = first_relation (lower text) relation_rules

  -- The text of a chunk that relations are read from.
  abbrev surface : ContextChunk → String
  surface chunk = chunk.title <> (" " <> (chunk.source_title <> (" " <> chunk.snippet)))

  abbrev overlaps : List String → String → Bool
  overlaps terms text = none_of terms || any (λ term. within (lower term) (lower text)) terms

  abbrev new_edge : ContextChunk → ℕ → String → String → KnowledgeGraphEdge
  new_edge chunk ordinal relation target = record {
    ordinal = ordinal;
    origin = or_text chunk.chunk_id (chunk.source_type <> ("-" <> chunk.source_id));
    source =
        first_chars 80
          (first_non_empty (chunk.title ∷ chunk.source_title ∷ chunk.source_type ∷ []));
    relation = relation;
    target = first_chars 120 target;
    evidence_chunk_id = chunk_key chunk;
    confidence = if chunk.source_type == "knowledge" then 72 else 64;
  }

  unfoldable pub graph_edge_from_chunk : ContextChunk → List String → ℕ → Option KnowledgeGraphEdge
  graph_edge_from_chunk chunk terms ordinal =
      let text = surface chunk in
      let relation = infer_relation text in
      let target = infer_target_phrase text in
      if is_blank relation
      then none
      else if not (overlaps terms text) && not (contains risk_sources chunk.source_type)
      then none
      else if is_blank target
      then none
      else some (new_edge chunk ordinal relation target)

  -- The loop of `build_graph_expansion`, where `room` more edges are wanted.
  unfoldable pub graph_edges : List String → ℕ → ℕ → List ContextChunk → List KnowledgeGraphEdge
  graph_edges terms zero count chunks = []
  graph_edges terms (suc room) count [] = []
  graph_edges terms (suc room) count (chunk ∷ chunks) =
      elim (graph_edge_from_chunk chunk terms (suc count)) [
        | none ↦ graph_edges terms (suc room) count chunks
        | some edge ↦ edge ∷ graph_edges terms room (suc count) chunks
      ]

  -- expanded.extend([edge.source, edge.relation, edge.target])
  abbrev terms_of : List KnowledgeGraphEdge → List String
  terms_of [] = []
  terms_of (edge ∷ edges) = edge.source ∷ edge.relation ∷ edge.target ∷ terms_of edges

  unfoldable pub build_graph_expansion : String → List ContextChunk → GraphExpansion
  build_graph_expansion query chunks =
      let terms = take 8 (tokenize_route_terms query) in
      let edges = graph_edges terms 8 0 chunks in
      record {
        enabled = not (none_of edges);
        query_terms = terms;
        expanded_terms =
            take 12 (
              filter (λ term. not (contains terms (lower term))) (unique_strings (terms_of edges)));
        edges = edges;
      }
