-- ===== src/RagRuntime/Tests.antt =====
-- Agentic retrieval on concrete inputs.
use allcallall_agent_runtime.Retrieval.Rerank.{
  narrowed, insert_by, insert_key, is_token_char, numbered, sort_by, sorted_keys,
}
use allcallall_agent_runtime.Common.{List, String, [], false, map, refl, true, ℕ, ◌*◌, ◌∷◌, ◌≡◌}
use allcallall_agent_runtime.Common.Eq.{contains, string_eq}
use allcallall_agent_runtime.Common.Int.{pos}
use allcallall_agent_runtime.Common.Text.{
  begins, char_count, collapse, first_chars, is_space, join, lstrip, rstrip, split_at, squeeze,
  strip, within,
}
use allcallall_agent_runtime.RagRuntime.Scoring.{
  allowed_types, compute_fingerprint, content_tokens, filter_chunks, query_tokens, rag_source_boost,
  rerank, rules_score_rag, score_chunks, stopwords,
}
use allcallall_agent_runtime.RagRuntime.Routing.{
  all_tokens, build_queries, dedupe_terms, expand_graph, rag_consult_keywords, rag_edge_from_chunk,
  rag_edges, rag_relation_rules, rag_risk_keywords, route_query,
}
use allcallall_agent_runtime.RagRuntime.Evidence.{
  build_rag_evidence, check_sufficiency, estimate_confidence, grounding_check, is_grounded, prepare,
  rerank_prepared, type_gain,
}
use allcallall_agent_runtime.RagRuntime.Agentic.{
  AgenticRequest, Host, RagAttempt, RagResponse, agentic_retrieve, final_rerank,
  final_rerank_skipped, graph_of, observe, observe_step, queries_of, ranked_for, rerank_skipped,
  retrieve_all, retrieve_once, types_of,
}
use allcallall_agent_runtime.RagRuntime.Settling.{outcomes}
use allcallall_agent_runtime.RagRuntime.Scope.{agentic_retrieve-Typed, of_types}
use allcallall_agent_runtime.RagRuntime.Typed.{Typed}
use allcallall_agent_runtime.RagRuntime.Stalling.{agentic_retrieve-first, first_alone}
use allcallall_agent_runtime.Retrieval.State.{ContextChunk}
use allcallall_agent_runtime.Retrieval.Helpers.{
  any, chunk_key, filter, first_by, first_non_empty, insert_text, none_of, sorted_set,
  unique_strings,
}
use allcallall_agent_runtime.Retrieval.Intent.{contains_any, first_relation, infer_target_phrase}
use allcallall_agent_runtime.Retrieval.Loop.{gather}

abbrev host : Host
host = record {
  lower = λ text. text;
  digest = λ text. "0123456789abcdef";
  log_gain = λ count. count * 1000;
  enable_graph_expansion = true;
}

abbrev chunk_of : String → String → String → ContextChunk
chunk_of id kind snippet = record {
  chunk_id = id;
  source_type = kind;
  source_id = id;
  source_title = "";
  title = "";
  snippet = snippet;
  score = pos 0;
  rerank_score = pos 0;
  rerank_reason = (0, 0);
  final_rank = 0;
}

abbrev policy : ContextChunk
policy = chunk_of "k1" "knowledge" "refunds take ten days"

abbrev chat_line : ContextChunk
chat_line = chunk_of "m1" "message" "hello"

abbrev given : List ContextChunk
given = chat_line ∷ policy ∷ []

-- A confidence that is never reached.
abbrev request : AgenticRequest
request = record {
  query = "refunds";
  source_types = "knowledge" ∷ [];
  top_k = 4;
  max_steps = 3;
  min_confidence = 9000;
}

unfoldable steps_of : List RagAttempt → List (ℕ × String)
steps_of [] = []
steps_of (a ∷ items) = (a.step, a.query) ∷ steps_of items

abbrev response : RagResponse
response = agentic_retrieve host request given

-- Three queries are tried, and only the first of them is ranked for; one is enough where its
-- confidence is; and chunks of no wanted type are all taken.
program :
    ((steps_of response.attempts
        ≡ (1, "refunds")
          ∷ (2, "refunds policy knowledge reference checklist")
          ∷ (3, "refunds conversation notes followups")
          ∷ [])
      × ((map chunk_key response.reranked_hits ≡ "k1" ∷ [])
          × (response.trace
              ≡ observe 1 1 6700
                ∷ rerank_skipped 2
                ∷ observe 2 1 6700
                ∷ rerank_skipped 3
                ∷ observe 3 1 6700
                ∷ final_rerank_skipped
                ∷ [])))
    × ((steps_of (agentic_retrieve host (record request { min_confidence = 6000 }) given).attempts
          ≡ (1, "refunds") ∷ [])
        × (map chunk_key (agentic_retrieve host request (chat_line ∷ [])).reranked_hits
            ≡ "m1" ∷ []))
unfolding steps_of outcomes agentic_retrieve retrieve_all build_queries unique_strings first_by
    contains squeeze collapse strip rstrip lstrip is_space estimate_confidence retrieve_once
    observe_step gather begins char_count first_chars join split_at within build_rag_evidence
    check_sufficiency final_rerank ranked_for type_gain all_tokens dedupe_terms expand_graph
    rag_consult_keywords rag_edge_from_chunk rag_edges rag_relation_rules rag_risk_keywords
    route_query compute_fingerprint content_tokens filter_chunks query_tokens rag_source_boost
    rerank rules_score_rag score_chunks stopwords any chunk_key filter first_non_empty insert_text
    sorted_set contains_any first_relation infer_target_phrase insert_by insert_key is_token_char
    numbered sort_by sorted_keys
program = ((refl, (refl, refl)), (refl, refl))

-- An answer of five tokens of which one is in a citation is grounded, one of six is not; the cut
-- before the rerank goes by the first score.
checked :
    (grounding_check host.lower "refunds need four more words" given ≡ (true, (1, 5)))
    × ((grounding_check host.lower "refunds need four more such words" given ≡ (false, (1, 6)))
        × ((grounding_check host.lower "a the" given ≡ (false, (0, 1)))
            × (map chunk_key (
                  rerank_prepared host.lower
                    (prepare host.lower host.digest "refunds" (policy ∷ given) ("all" ∷ []))
                    1)
                ≡ "k1" ∷ [])))
unfolding grounding_check is_grounded rerank_prepared prepare narrowed first_by sorted_keys
    insert_key compute_fingerprint sort_by insert_by rerank numbered score_chunks rules_score_rag
    rag_source_boost query_tokens content_tokens stopwords contains filter strip lstrip rstrip
    is_space split_at is_token_char char_count within begins join chunk_key
checked = (refl, (refl, (refl, refl)))

-- A chunk of a wanted type is given.
knowledge_given : none_of (filter (of_types (types_of host request given)) given) ≡ false
unfolding filter contains strip lstrip rstrip is_space
knowledge_given = refl

agentic_retrieve-first_example :
    outcomes (agentic_retrieve host request given).attempts
    ≡ first_alone host request
        (types_of host request given)
        (graph_of host request given)
        given
        (queries_of host request given)
agentic_retrieve-first_example = agentic_retrieve-first host request given (λ text. refl)

agentic_retrieve-Typed_example :
    Typed
      (λ t. contains (allowed_types (types_of host request given)) t ≡ true)
      (agentic_retrieve host request given).reranked_hits
    × Typed
        (λ t. contains (allowed_types (types_of host request given)) t ≡ true)
        (agentic_retrieve host request given).raw_hits
agentic_retrieve-Typed_example = agentic_retrieve-Typed host request given knowledge_given
