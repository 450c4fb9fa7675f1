-- ===== src/Retrieval/Nodes.antt =====
-- nodes/retrieval.py: the nodes behind the retrieval loop, after their cancellation check. A
-- coverage is counted in thousandths and rounded down.
use allcallall_agent_runtime.Common.{
  List, Option, String, [], if◌then◌else◌, leb, length, ltb, map, max, min, none, not, some, take,
  ℕ, ◌&&◌, ◌*◌, ◌/◌, ◌∷◌,
}
use allcallall_agent_runtime.Common.Eq.{contains, string_eq, ◌==◌}
use allcallall_agent_runtime.Common.Text.{first_chars, is_blank}
use allcallall_agent_runtime.Retrieval.State.{
  ContextChunk, ContextSufficiency, EvidencePack, Request, RetrievalPlan,
}
use allcallall_agent_runtime.Retrieval.Helpers.{
  chunk_key, citations_from_chunks, estimate_retrieval_confidence, evaluate_context_sufficiency,
  filter, first_by, none_of, sorted_set, source_types, unique_strings,
}
use allcallall_agent_runtime.Retrieval.Cache.{RunRetrievalCache}
use allcallall_agent_runtime.Retrieval.Rerank.{
  prepare_candidates, rerank_context_chunks, rerank_prepared,
}
use allcallall_agent_runtime.Retrieval.Loop.{gather}
use allcallall_agent_runtime.Retrieval.Intent.{contains_any}

-- `retrieve_context`: the preloaded chunks, then the others whose key is new.
unfoldable pub retrieve_context : Request → List ContextChunk → List ContextChunk
retrieve_context request agentic = gather request.context_chunks agentic

-- What `rerank_context` returns for a cache with entries.
unfoldable pub rerank_warm :
    (String → String) → (String → String) → Request → List ContextChunk → List ContextChunk
rerank_warm lower digest request chunks =
    rerank_prepared lower 8 (prepare_candidates lower digest request.goal chunks [])

unfoldable pub rerank_cold : (String → String) → Request → List ContextChunk → List ContextChunk
rerank_cold lower request chunks = rerank_context_chunks lower request.goal 8 chunks

unfoldable pub rerank_context :
    (String → String)
    → (String → String)
    → Request
    → Option RunRetrievalCache
    → List ContextChunk
    → List ContextChunk
rerank_context lower digest request none chunks = rerank_cold lower request chunks
rerank_context lower digest request (some cache) chunks =
    if ltb 0 (length cache.entries) && not (none_of chunks)
    then rerank_warm lower digest request chunks
    else rerank_cold lower request chunks

-- len(set(source_types).intersection(required)) / max(len(required), 1), at most 1
abbrev coverage_of : List String → List String → ℕ
coverage_of types required =
    min (length (filter (contains required) types) * 1000 / max (length required) 1) 1000

-- chunk.snippet[:200] of the first five chunks with a snippet
abbrev snippets_of : List ContextChunk → List String
snippets_of chunks =
    map (λ chunk. first_chars 200 chunk.snippet)
      (filter (λ chunk. not (is_blank chunk.snippet)) (take 5 chunks))

unfoldable pub build_evidence_pack : Request → RetrievalPlan → List ContextChunk → EvidencePack
build_evidence_pack request plan chunks =
    let types = sorted_set (source_types chunks) in
    record {
      selected_chunk_ids = first_by (λ k. k) [] (map chunk_key chunks);
      source_types = types;
      confidence = estimate_retrieval_confidence request.preset chunks;
      snippets = snippets_of chunks;
      citations = citations_from_chunks chunks;
      route_intent = some plan.intent_route.intent;
      coverage = coverage_of types plan.intent_route.required_source_types;
      graph_edges = plan.graph_expansion.edges;
    }

unfoldable pub sufficiency_gate : Request → EvidencePack → ContextSufficiency
sufficiency_gate request pack = evaluate_context_sufficiency request.preset pack

abbrev risk_words : List String
risk_words = "risk" ∷ "approval" ∷ "blocker" ∷ "deadline" ∷ "budget" ∷ "security" ∷ "legal" ∷ []

-- `a or b` on lists
abbrev or_list : {A : Type 0} → List A → List A → List A
or_list [] ys = ys
or_list (x ∷ xs) ys = x ∷ xs

-- `select_chunks` of helpers.py
unfoldable pub select_chunks :
    (String → String) → List ContextChunk → String → ℕ → List ContextChunk
select_chunks lower chunks role iteration =
    let risky =
      if role == "risk_analyst"
      then filter (λ chunk. contains_any lower chunk.snippet risk_words) chunks
      else [] in
    let spoken = filter (λ chunk. chunk.source_type == "meeting_transcript") chunks in
    take (if leb iteration 1 && leb 1 iteration then 5 else 4)
      (or_list risky (or_list spoken chunks))

-- `top_snippets` of helpers.py
unfoldable pub top_snippets : List ContextChunk → ℕ → List String
top_snippets chunks limit = take limit (
    unique_strings
      (map (λ chunk. chunk.snippet) (filter (λ chunk. not (is_blank chunk.snippet)) chunks)))
