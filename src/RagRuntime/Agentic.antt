-- ===== src/RagRuntime/Agentic.antt =====
-- `agentic_retrieve` of the RAG runtime with its evidence. Confidences are counted in ten-thousandths;
-- `log_gain` is 0.2 * math.log1p in that unit. A list that the source keeps beside a set of the keys
-- it has seen is one list here. Of an attempt the text of the observation is left out, which is made
-- of the hits and the confidence, and what it copies of the route and the graph; of the trace its
-- first event, which tells the plan.
use Prim.Native.Nat.{◌-◌}
use allcallall_agent_runtime.Common.{
  Bool, List, String, [], false, if◌then◌else◌, leb, length, ltb, map, max, min, not, suc, take, ℕ,
  ◌&&◌, ◌*◌, ◌++◌, ◌∷◌,
}
use allcallall_agent_runtime.Common.Eq.{contains, string_eq, ◌==◌}
use allcallall_agent_runtime.Common.Text.{is_blank}
use allcallall_agent_runtime.RagRuntime.Scoring.{compute_fingerprint, filter_chunks, rerank}
use allcallall_agent_runtime.RagRuntime.Routing.{
  RetrievalRoute, build_queries, expand_graph, route_query,
}
use allcallall_agent_runtime.RagRuntime.Evidence.{
  RagEvidence, build_rag_evidence, check_sufficiency, estimate_confidence,
}
use allcallall_agent_runtime.Retrieval.State.{ContextChunk, ContextSufficiency, GraphExpansion}
use allcallall_agent_runtime.Retrieval.Helpers.{
  source_types, chunk_key, filter, first_by, sorted_set,
}
use allcallall_agent_runtime.Retrieval.Loop.{gather}

pub record Host : Type 0 where
  pub lower : String → String
  pub digest : String → String
  pub log_gain : ℕ → ℕ
  -- config.enable_graph_expansion
  pub enable_graph_expansion : Bool

pub record AgenticRequest : Type 0 where
  pub query : String
  pub source_types : List String
  pub top_k : ℕ
  pub max_steps : ℕ
  pub min_confidence : ℕ

pub record RagAttempt : Type 0 where
  pub step : ℕ
  pub query : String
  pub source_types : List String
  pub hit_count : ℕ
  pub selected_chunk_ids : List String
  pub confidence : ℕ
  pub refined : Bool

pub data RagEvent : Type 0 where
  rerank_skipped : ℕ → RagEvent
  observe : ℕ → ℕ → ℕ → RagEvent
  final_rerank_skipped : RagEvent

pub record RagResponse : Type 0 where
  pub route : RetrievalRoute
  pub graph_expansion : GraphExpansion
  pub attempts : List RagAttempt
  pub raw_hits : List ContextChunk
  pub reranked_hits : List ContextChunk
  pub rejected_chunks : List ContextChunk
  pub evidence_pack : RagEvidence
  pub context_sufficiency : ContextSufficiency
  pub trace : List RagEvent

-- The variables of the loop; its lists of attempts and events grow at the end.
pub record RagLoop : Type 0 where
  pub gathered : List ContextChunk
  pub raw_candidates : List ContextChunk
  pub last_fingerprint : String
  pub last_reranked : List ContextChunk
  pub attempts : List RagAttempt
  pub trace : List RagEvent

abbrev pub new_loop : RagLoop
new_loop = record {
  gathered = [];
  raw_candidates = [];
  last_fingerprint = "";
  last_reranked = [];
  attempts = [];
  trace = [];
}

abbrev no_expansion : GraphExpansion
no_expansion = record { enabled = false; query_terms = []; expanded_terms = []; edges = [] }

-- raw_candidates or gathered
abbrev pub or_gathered : List ContextChunk → List ContextChunk → List ContextChunk
or_gathered [] gathered = gathered
or_gathered (c ∷ cs) gathered = c ∷ cs

-- request.source_types or the types that the route requires, without "memory"
abbrev pub wanted_types : List String → RetrievalRoute → List String
wanted_types [] route = filter (λ t. not (t == "memory")) route.required_source_types
wanted_types (t ∷ ts) route = t ∷ ts

module _ (host : Host) (request : AgenticRequest) where
  -- Reranking, where the fingerprint is not the last one.
  unfoldable pub ranked_for : ℕ → String → List ContextChunk → RagLoop → RagLoop
  ranked_for step query scoped st =
      let fingerprint = compute_fingerprint host.digest scoped in
      if fingerprint == st.last_fingerprint
      then record st { trace = st.trace ++ rerank_skipped step ∷ [] }
      else record st {
        last_fingerprint = fingerprint;
        last_reranked = rerank host.lower query scoped request.top_k;
      }

  abbrev pub attempt_at :
      List String → GraphExpansion → ℕ → String → List ContextChunk → List ContextChunk → RagAttempt
  attempt_at types graph step query ranked gathered = record {
    step = step;
    query = query;
    source_types = sorted_set (source_types ranked);
    hit_count = length ranked;
    selected_chunk_ids = map chunk_key ranked;
    confidence = estimate_confidence host.log_gain gathered types graph;
    refined = ltb 1 step;
  }

  -- The chunks of a step are gathered and observe_step.
  unfoldable pub observe_step : List String → GraphExpansion → ℕ → String → RagLoop → RagLoop
  observe_step types graph step query st =
      let gathered = gather st.gathered st.last_reranked in
      let attempt = attempt_at types graph step query st.last_reranked gathered in
      record st {
        gathered = gathered;
        attempts = st.attempts ++ attempt ∷ [];
        trace = st.trace ++ observe step attempt.hit_count attempt.confidence ∷ [];
      }

  -- The body of the loop, up to its test of the confidence.
  unfoldable pub retrieve_once :
      List ContextChunk → List String → GraphExpansion → ℕ → String → RagLoop → RagLoop
  retrieve_once chunks types graph step query st =
      let scoped = filter_chunks chunks types in
      let raw = record st { raw_candidates = gather st.raw_candidates scoped } in
      observe_step types graph step query (ranked_for step query scoped raw)

  unfoldable pub retrieve_all :
      List ContextChunk → List String → GraphExpansion → ℕ → List String → RagLoop → RagLoop
  retrieve_all chunks types graph step [] st = st
  retrieve_all chunks types graph step (query ∷ queries) st =
      let next = retrieve_once chunks types graph step query st in
      let rest = retrieve_all chunks types graph (suc step) queries next in
      if leb request.min_confidence (estimate_confidence host.log_gain next.gathered types graph)
      then next
      else rest

  -- The last rerank: its hits and its event.
  unfoldable pub final_rerank : RagLoop → List ContextChunk × List RagEvent
  final_rerank st =
      let candidates = or_gathered st.raw_candidates st.gathered in
      let fingerprint = compute_fingerprint host.digest candidates in
      if fingerprint == st.last_fingerprint && not (is_blank st.last_fingerprint)
      then (take request.top_k st.last_reranked, final_rerank_skipped ∷ [])
      else (rerank host.lower request.query candidates request.top_k, [])

  abbrev pub route_of : List ContextChunk → RetrievalRoute
  route_of chunks = route_query host.lower request.query request.source_types chunks

  abbrev pub graph_of : List ContextChunk → GraphExpansion
  graph_of chunks =
      if host.enable_graph_expansion
      then expand_graph host.lower request.query chunks
      else no_expansion

  abbrev pub types_of : List ContextChunk → List String
  types_of chunks = wanted_types request.source_types (route_of chunks)

  abbrev pub step_limit : ℕ
  step_limit = max 1 (min request.max_steps 3)

  abbrev pub queries_of : List ContextChunk → List String
  queries_of chunks =
      build_queries request.query (types_of chunks) step_limit (route_of chunks) (graph_of chunks)

  unfoldable pub agentic_retrieve : List ContextChunk → RagResponse
  agentic_retrieve chunks =
      let st =
        retrieve_all chunks (types_of chunks) (graph_of chunks) 1 (queries_of chunks) new_loop in
      let (hits, event) = final_rerank st in
      let pack =
        build_rag_evidence host.log_gain (types_of chunks) (route_of chunks) (graph_of chunks)
          hits in
      let selected = pack.selected_chunk_ids in
      let rejected = filter (λ c. not (contains selected (chunk_key c))) st.raw_candidates in
      record {
        route = route_of chunks;
        graph_expansion = graph_of chunks;
        attempts = st.attempts;
        raw_hits = take (max 1 (request.top_k * step_limit)) st.raw_candidates;
        reranked_hits = hits;
        rejected_chunks =
            take (length st.raw_candidates - length (first_by (λ k. k) [] selected)) rejected;
        evidence_pack = pack;
        context_sufficiency = check_sufficiency pack (types_of chunks) request.min_confidence;
        trace = st.trace ++ event;
      }
