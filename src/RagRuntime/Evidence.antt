-- ===== src/RagRuntime/Evidence.antt =====
-- The evidence of the RAG runtime's retrieval.py: confidence, sufficiency, grounding, and candidates
-- that are prepared once. Confidences are counted in ten-thousandths; `log_gain` is 0.2 * math.log1p in
-- that unit, `lower` is `str.lower`, `digest` as in Scoring.
use allcallall_agent_runtime.Common.{
  Bool, List, String, [], false, if◌then◌else◌, leb, length, ltb, map, max, min, not, take, ℕ, ◌&&◌,
  ◌*◌, ◌+◌, ◌∷◌,
}
use allcallall_agent_runtime.Common.Eq.{contains, string_eq}
use allcallall_agent_runtime.Common.Text.{join, within}
use allcallall_agent_runtime.RagRuntime.Scoring.{compute_fingerprint, query_tokens, rerank}
use allcallall_agent_runtime.RagRuntime.Routing.{RetrievalRoute, snippet_of}
use allcallall_agent_runtime.Retrieval.State.{
  ContextChunk, ContextSufficiency, GraphExpansion, Intent, KnowledgeGraphEdge,
}
use allcallall_agent_runtime.Retrieval.Helpers.{
  source_types, chunk_key, filter, first_by, none_of, sorted_set, threshold,
}
use allcallall_agent_runtime.Retrieval.Rerank.{
  PreparedCandidates, narrowed, score_of, sort_by, sorted_keys,
}

-- `coverage` as a numerator and a denominator.
pub record RagEvidence : Type 0 where
  pub selected_chunk_ids : List String
  pub source_types : List String
  pub confidence : ℕ
  pub snippets : List String
  pub citations : List ContextChunk
  pub route_intent : Intent
  pub coverage : ℕ × ℕ
  pub graph_edges : List KnowledgeGraphEdge

-- confidence += 0.12 for each required type that a chunk has
unfoldable pub type_gain : List String → List String → ℕ
type_gain required kinds = length (filter (λ t. contains kinds t) required) * 1200

abbrev pub confidence_with : (ℕ → ℕ) → List ContextChunk → List String → GraphExpansion → ℕ
confidence_with log_gain chunks required graph =
    min
      (min (4500 + log_gain (length chunks)) 8800
        + type_gain required (source_types chunks)
        + (if graph.enabled then min (length graph.edges * 300) 1200 else 0))
      10000

unfoldable pub estimate_confidence : (ℕ → ℕ) → List ContextChunk → List String → GraphExpansion → ℕ
estimate_confidence log_gain [] required graph = 0
estimate_confidence log_gain (c ∷ cs) required graph =
    confidence_with log_gain (c ∷ cs) required graph

-- `build_evidence_pack`, given the ranked chunks.
unfoldable pub build_rag_evidence :
    (ℕ → ℕ) → List String → RetrievalRoute → GraphExpansion → List ContextChunk → RagEvidence
build_rag_evidence log_gain required route graph ranked =
    let types = sorted_set (source_types ranked) in
    let total = max (length required) 1 in
    record {
      selected_chunk_ids = map chunk_key ranked;
      source_types = types;
      confidence = estimate_confidence log_gain ranked required graph;
      snippets = map snippet_of (take 5 ranked);
      citations = take 5 ranked;
      route_intent = route.intent;
      coverage = (min (length (filter (λ t. contains required t) types)) total, total);
      graph_edges = graph.edges;
    }

unfoldable pub check_sufficiency : RagEvidence → List String → ℕ → ContextSufficiency
check_sufficiency pack required threshold =
    let missing = filter (λ t. not (contains pack.source_types t)) required in
    record {
      sufficient = none_of missing && leb threshold pack.confidence;
      confidence = pack.confidence;
      missing_info = missing;
    }

-- grounding_check: whether it is grounded, and the coverage as a numerator and a denominator. Where
-- the answer has tokens, `coverage >= 0.2` is five times the covered ones against all.
unfoldable pub is_grounded : List ContextChunk → ℕ → ℕ → Bool
is_grounded citations covered total = not (none_of citations) && leb total (covered * 5)

module _ (lower : String → String) where
  unfoldable pub grounding_check : String → List ContextChunk → Bool × (ℕ × ℕ)
  grounding_check answer citations =
      let tokens = query_tokens lower answer in
      let evidence = lower (join " " (map snippet_of citations)) in
      let covered = length (filter (λ t. within t evidence) tokens) in
      if none_of tokens
      then (false, (0, 1))
      else (is_grounded citations covered (length tokens), (covered, length tokens))

  module _ (digest : String → String) where
    -- `prepare_candidates` of the RAG runtime, without the two counts.
    unfoldable pub prepare : String → List ContextChunk → List String → PreparedCandidates
    prepare query chunks kinds =
        let deduped = first_by chunk_key [] (narrowed kinds chunks) in
        record {
          query = query;
          source_types = sorted_keys kinds;
          chunks = deduped;
          tokens = query_tokens lower query;
          fingerprint = compute_fingerprint digest deduped;
        }

  unfoldable pub rerank_prepared : PreparedCandidates → ℕ → List ContextChunk
  rerank_prepared prepared top_k =
      let chunks = prepared.chunks in
      let few =
        if ltb (top_k * 2) (length chunks)
        then take (top_k * 2) (sort_by score_of chunks)
        else chunks in
      rerank lower prepared.query few top_k
