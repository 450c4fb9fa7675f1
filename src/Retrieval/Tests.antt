-- ===== src/Retrieval/Tests.antt =====
-- Retrieval on concrete inputs.
use allcallall_agent_runtime.Common.{
  List, String, [], arith, false, map, none, refl, some, true, ℕ, ◌∷◌, ◌≡◌,
}
use allcallall_agent_runtime.Common.Eq.{contains, string_eq}
use allcallall_agent_runtime.Common.Dict.{get, put}
use allcallall_agent_runtime.Common.Int.{pos}
use allcallall_agent_runtime.Common.Result.{Result, err, ok}
use allcallall_agent_runtime.Common.Text.{
  begins, char_count, collapse, first_chars, is_space, join, lstrip, rstrip, split_at, squeeze,
  strip, within,
}
use allcallall_agent_runtime.Common.Distinct.{Distinct}
use allcallall_agent_runtime.Retrieval.State.{
  ContextChunk, RagConfig, Request, RetrievalPlan, Suffix, adaptive, consult, graph_augmented,
  via_preloaded, via_tool_bridge,
}
use allcallall_agent_runtime.Retrieval.Helpers.{
  any, chunk_key, estimate_retrieval_confidence, filter, first_by, insert_text, scoped_chunks,
  sorted_set, summarize_observation, tool_allowed, unique_strings,
}
use allcallall_agent_runtime.Retrieval.Cache.{
  CacheKey, RunRetrievalCache, evict_oldest, key_eq, lookup, make_cache_key, make_room, new_cache,
  store,
}
use allcallall_agent_runtime.Retrieval.Rerank.{
  compute_context_fingerprint, insert_by, insert_key, is_token_char, local_agentic_retrieval,
  long_tokens, numbered, overlap, rerank_context_chunks, rules_score, scored, sort_by, sorted_keys,
  source_boost, tokenize,
}
use allcallall_agent_runtime.Retrieval.Loop.{
  Failure, LoopState, World, answered, ask_bridge, check, conclude, effective_retrieval_mode, fetch,
  fetch_from_rag, fetch_locally, gather, raises, remember, resolve_fingerprint, retrieval_loop,
  retrieve_step, round_limit, rounds, should_call_rag, unavailable,
}
use allcallall_agent_runtime.Retrieval.Intent.{
  build_graph_expansion, consult_keywords, contains_any, graph_edges, risk_keywords,
  route_request_intent, route_text, route_to,
}
use allcallall_agent_runtime.Retrieval.Nodes.{rerank_context, retrieve_context}
use allcallall_agent_runtime.Retrieval.Gathering.{keys}
use allcallall_agent_runtime.Retrieval.Context.{IsCombined, retrieve_context-IsCombined}
use allcallall_agent_runtime.Retrieval.Warm.{rerank_context-warm}
use allcallall_agent_runtime.Retrieval.Plan.{
  Settings, build_retrieval_plan, candidates, join_query, plan_steps, resolve_agentic_rag_config,
  retrieval_planner,
}
use allcallall_agent_runtime.Retrieval.Planning.{IsPlan, build_retrieval_plan-IsPlan}
use allcallall_agent_runtime.Retrieval.Ranking.{IsRanking, rerank_context_chunks-IsRanking}
use allcallall_agent_runtime.Retrieval.Remembering.{IsBounded, Remembers, store-Remembers}
use allcallall_agent_runtime.Retrieval.Rounds.{Explained, IsWithin, retrieval_loop-Explained}
use allcallall_agent_runtime.Retrieval.Ownership.{retrieval_loop-go_context}
use allcallall_agent_runtime.Deadline.State.{check_cancelled}

abbrev as_is : String → String
as_is text = text

abbrev chunk : String → String → String → ContextChunk
chunk id kind snippet = record {
  chunk_id = id;
  source_type = kind;
  source_id = "7";
  source_title = "";
  title = "";
  snippet = snippet;
  score = pos 0;
  rerank_score = pos 0;
  rerank_reason = (0, 0);
  final_rank = 0;
}

abbrev policy : ContextChunk
policy = chunk "p" "knowledge" "the policy requires approval"

abbrev call : ContextChunk
call = chunk "c" "meeting_transcript" "we ship on friday"

abbrev request : Request
request = record {
  preset = "react_general";
  goal = "ship  it";
  messages = [];
  notes = [];
  meeting_transcripts = [];
  read_tools = [];
  context_chunks = call ∷ policy ∷ [];
  retrieval_mode = "";
  context_fingerprint = "f";
  corpus_version = "1";
}

abbrev config : RagConfig
config = record {
  enabled = true;
  max_steps = 2;
  min_confidence = 60;
  allowed_source_types = "knowledge" ∷ [];
}

abbrev settings : Settings
settings = record {
  enable_agentic_rag = false;
  rag_max_retrieval_steps = 3;
  rag_min_confidence = 60;
}

abbrev tools_of : RetrievalPlan → List (ℕ × String)
tools_of plan = map (λ s. (s.step, s.tool_name)) plan.steps

-- A chat has two steps here; the second asks the knowledge base.
chat_plan :
    tools_of (retrieval_planner as_is settings config request)
    ≡ (1, "query_context_chunks") ∷ (2, "query_knowledge_chunks") ∷ []
unfolding retrieval_planner resolve_agentic_rag_config build_retrieval_plan candidates plan_steps
    route_request_intent tool_allowed contains_any any consult_keywords within route_text join
    filter begins risk_keywords contains strip rstrip lstrip is_space
chat_plan = refl

-- Only the context tool is allowed: the fallback of the first step does not count against the
-- limit, which is 1 here.
long_plan :
    tools_of (
      build_retrieval_plan
        (record request { preset = "context_qa"; read_tools = "query_context_chunks" ∷ [] })
        (record config { max_steps = 1 })
        true
        (route_to as_is request consult 84 [] graph_augmented)
        (build_graph_expansion as_is "" []))
    ≡ (1, "query_context_chunks") ∷ (2, "query_context_chunks") ∷ []
unfolding build_retrieval_plan candidates plan_steps tool_allowed contains
long_plan = refl

squeezed : join_query (" a  b" ∷ "" ∷ "c" ∷ "a b" ∷ []) ≡ "a b c"
unfolding join_query unique_strings first_by filter strip lstrip rstrip squeeze collapse is_space
    join contains
squeezed = refl

claims : split_at (λ c. is_space c) "ab c" ≡ "ab" ∷ "c" ∷ []
unfolding split_at is_space
claims = refl

abbrev world : World
world = record {
  lower = as_is;
  digest = as_is;
  rag = λ s. unavailable;
  bridge = λ s. answered (some (policy ∷ []));
  current = λ k. none;
  clock = λ k. k;
}

abbrev plan : RetrievalPlan
plan =
    build_retrieval_plan request config true
      (route_to as_is request consult 84 ("knowledge" ∷ []) adaptive)
      (build_graph_expansion as_is "" [])

abbrev observed_as : Result Failure LoopState → List (Suffix × ℕ)
observed_as (ok st) = map (λ a. (a.observation.1, a.hit_count)) st.attempts
observed_as (err e) = []

-- The runtime is away, so that the first step goes to the bridge; what it finds covers the second.
loop_run :
    observed_as (retrieval_loop world request plan new_cache)
    ≡ (via_tool_bridge, 1) ∷ (via_preloaded, 2) ∷ []
unfolding retrieval_loop check rounds retrieve_step fetch should_call_rag effective_retrieval_mode
    fetch_from_rag ask_bridge remember conclude fetch_locally gather resolve_fingerprint
    check_cancelled get put build_retrieval_plan plan_steps candidates join_query contains
    tool_allowed any chunk_key estimate_retrieval_confidence filter first_by insert_text
    scoped_chunks sorted_set summarize_observation unique_strings lookup evict_oldest make_cache_key
    make_room store begins char_count collapse first_chars is_space join lstrip rstrip split_at
    squeeze strip within compute_context_fingerprint insert_by insert_key is_token_char
    local_agentic_retrieval long_tokens numbered overlap rerank_context_chunks rules_score scored
    sort_by sorted_keys source_boost tokenize build_graph_expansion graph_edges
loop_run = refl

bounded : IsBounded new_cache
bounded = record { positive = omega arith; bounded = omega arith }

abbrev full : RunRetrievalCache
full = record {
  max_entries = 1;
  entries = (make_cache_key as_is "old" "all" adaptive "f" "1", call ∷ []) ∷ [];
  hits = 0;
  misses = 0;
}

abbrev new_key : CacheKey
new_key = make_cache_key as_is "new" "all" adaptive "f" "1"

full_bounded : IsBounded full
full_bounded = record { positive = omega arith; bounded = omega arith }

store-Remembers_example :
    (after : RunRetrievalCache) × ((store full new_key (policy ∷ []) ≡ some after)
      × Remembers full after new_key (policy ∷ []))
store-Remembers_example = store-Remembers full new_key (policy ∷ []) full_bounded

rerank_context_chunks-IsRanking_example :
    IsRanking 1
      (scored as_is (tokenize as_is "policy") 0 (call ∷ policy ∷ []))
      (rerank_context_chunks as_is "policy" 1 (call ∷ policy ∷ []))
rerank_context_chunks-IsRanking_example =
    rerank_context_chunks-IsRanking as_is "policy" 1 (call ∷ policy ∷ [])

build_retrieval_plan-IsPlan_example : IsPlan config request.read_tools plan
build_retrieval_plan-IsPlan_example =
    build_retrieval_plan-IsPlan request config true
      (route_to as_is request consult 84 ("knowledge" ∷ []) adaptive)
      (build_graph_expansion as_is "" [])

retrieval_loop-Explained_example :
    Explained world
      (IsWithin world (round_limit plan))
      (retrieval_loop world request plan new_cache)
retrieval_loop-Explained_example = retrieval_loop-Explained world request plan new_cache bounded

abbrev go_request : Request
go_request = record request { retrieval_mode = "go_context" }

retrieval_loop-go_context_example :
    retrieval_loop (record world { rag = λ s. raises "gone" }) go_request plan new_cache
    ≡ retrieval_loop world go_request plan new_cache
unfolding effective_retrieval_mode contains
retrieval_loop-go_context_example =
    retrieval_loop-go_context world (λ s. raises "gone") go_request plan refl new_cache

retrieve_context-IsCombined_example :
    IsCombined request.context_chunks
      (policy ∷ chunk "n" "note" "by monday" ∷ [])
      (retrieve_context request (policy ∷ chunk "n" "note" "by monday" ∷ []))
retrieve_context-IsCombined_example =
    retrieve_context-IsCombined request (policy ∷ chunk "n" "note" "by monday" ∷ [])

apart_keys : Distinct (keys (call ∷ policy ∷ []))
unfolding contains chunk_key
apart_keys = (refl, (refl, tt))

rerank_context-warm_example :
    rerank_context as_is as_is request (some full) (call ∷ policy ∷ [])
    ≡ rerank_context as_is as_is request none (call ∷ policy ∷ [])
rerank_context-warm_example =
    rerank_context-warm as_is as_is request (some full) (call ∷ policy ∷ []) apart_keys
      (omega arith)
