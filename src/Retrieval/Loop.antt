-- ===== src/Retrieval/Loop.antt =====
-- nodes/retrieval.py: `retrieval_loop`. The RAG runtime and the Go tool bridge are parameters: what
-- a call for a step answers. So are the deadline bound and the clock at each cancellation check.
use allcallall_agent_runtime.Common.{
  Bool, List, Option, String, [], false, if◌then◌else◌, inl, inr, leb, length, ltb, map, max, min,
  none, not, refl, some, suc, take, true, ℕ, ◌&&◌, ◌++◌, ◌||◌, ◌∷◌, ◌≡◌, ◌⊎◌,
}
use allcallall_agent_runtime.Common.Eq.{contains, string_eq, ◌==◌}
use allcallall_agent_runtime.Common.Result.{Result, err, ok, ◌>>=◌, ◌>>◌}
use allcallall_agent_runtime.Retrieval.State.{
  ContextChunk, Request, RetrievalAttempt, RetrievalPlan, RetrievalPlanStep, Suffix, via_cache,
  via_preloaded, via_rag_runtime, via_tool_bridge,
}
use allcallall_agent_runtime.Retrieval.Helpers.{
  any, chunk_key, estimate_retrieval_confidence, is_chat, or_text, sorted_set, source_types,
  summarize_observation,
}
use allcallall_agent_runtime.Retrieval.Cache.{
  CacheKey, RunRetrievalCache, lookup, make_cache_key, store,
}
use allcallall_agent_runtime.Retrieval.Rerank.{compute_context_fingerprint, local_agentic_retrieval}
use allcallall_agent_runtime.Deadline.State.{Current, Error, check_cancelled}

-- What a call of a client comes to: an observation or None, the client's own error, which the loop
-- catches, or another exception, which it does not.
pub data Answer : Type 0 where
  answered : Option (List ContextChunk) → Answer
  unavailable : Answer
  raises : String → Answer

pub Answer-cases :
    (a : Answer)
    → ((o : Option (List ContextChunk)) × (a ≡ answered o))
      ⊎ ((a ≡ unavailable) ⊎ ((e : String) × (a ≡ raises e)))
Answer-cases (answered o) = inl (o, refl)
Answer-cases unavailable = inr (inl refl)
Answer-cases (raises e) = inr (inr (e, refl))

pub record World : Type 0 where
  pub lower : String → String
  pub digest : String → String
  pub rag : RetrievalPlanStep → Answer
  pub bridge : RetrievalPlanStep → Answer
  pub current : ℕ → Current
  pub clock : ℕ → ℕ

-- What ends the loop: a cancellation check, an exception of a client, or `next` on no entries.
pub data Failure : Type 0 where
  cancelled_by : Error → Failure
  escaped : String → Failure
  stop_iteration : Failure

-- The trace events of the loop, each with its iteration.
pub data LoopEvent : Type 0 where
  tool_call : ℕ → String → LoopEvent
  cache_hit : ℕ → LoopEvent
  runtime_answered : ℕ → ℕ → LoopEvent
  runtime_failed : ℕ → LoopEvent
  bridge_failed : ℕ → String → LoopEvent
  local_only : ℕ → LoopEvent
  observed : ℕ → ℕ → ℕ → LoopEvent
  rag_disabled : ℕ → LoopEvent
  go_context_only : ℕ → LoopEvent

pub record Fetched : Type 0 where
  pub selected : List ContextChunk
  pub suffix : Suffix
  pub events : List LoopEvent

-- The variables of the loop; the set `seen_chunks` holds the keys of `gathered`.
pub record LoopState : Type 0 where
  pub cache : RunRetrievalCache
  pub attempts : List RetrievalAttempt
  pub gathered : List ContextChunk
  pub trace : List LoopEvent

abbrev modes : List String
modes = "go_context" ∷ "rag_runtime" ∷ "hybrid" ∷ []

unfoldable pub effective_retrieval_mode : Request → String
effective_retrieval_mode request =
    if contains modes request.retrieval_mode then request.retrieval_mode else "hybrid"

unfoldable pub resolve_fingerprint : (String → String) → Request → String
resolve_fingerprint digest request =
    or_text request.context_fingerprint (compute_context_fingerprint digest request.context_chunks)

unfoldable pub should_call_rag :
    String → RetrievalPlan → RetrievalPlanStep → List ContextChunk → Bool
should_call_rag mode plan step gathered =
    let types = source_types gathered in
    if mode == "go_context"
    then false
    else if mode == "rag_runtime"
    then true
    else not (step.source_scope == "all") && not (contains types step.source_scope)
      || any (λ t. not (contains types t)) plan.intent_route.required_source_types

-- for chunk in selected: gathered.append(chunk), where its key is not seen
unfoldable pub gather : List ContextChunk → List ContextChunk → List ContextChunk
gather gathered [] = gathered
gather gathered (chunk ∷ chunks) =
    gather
      (if contains (map chunk_key gathered) (chunk_key chunk)
        then gathered
        else gathered ++ chunk ∷ [])
      chunks

-- if cached is None and selected: cache.put(...)
unfoldable pub remember :
    RunRetrievalCache
    → CacheKey
    → Option (List ContextChunk)
    → List ContextChunk
    → Result Failure RunRetrievalCache
remember cache key (some chunks) selected = ok cache
remember cache key none [] = ok cache
remember cache key none (chunk ∷ chunks) = elim (store cache key (chunk ∷ chunks)) [
  | none ↦ err stop_iteration
  | some after ↦ ok after
]

abbrev pub attempt_of :
    RetrievalPlan → RetrievalPlanStep → List ContextChunk → Suffix → ℕ → RetrievalAttempt
attempt_of plan step selected suffix confidence = record {
  step = step.step;
  query = step.query;
  tool_name = step.tool_name;
  source_scope = step.source_scope;
  hit_count = length selected;
  source_types = sorted_set (source_types selected);
  selected_chunk_ids = map chunk_key selected;
  observation = (summarize_observation step.tool_name selected, suffix);
  refined = ltb 1 step.step;
  confidence = confidence;
  strategy = step.strategy;
  expanded_terms = step.expanded_terms;
  graph_edges = plan.graph_expansion.edges;
}

-- The end of a round: what was selected is gathered and recorded as an attempt.
unfoldable pub conclude :
    Request
    → RetrievalPlan
    → RetrievalPlanStep
    → Fetched
    → RunRetrievalCache
    → LoopState
    → LoopState
conclude request plan step fetched cache st =
    let gathered = gather st.gathered fetched.selected in
    let confidence = estimate_retrieval_confidence request.preset gathered in
    let attempt = attempt_of plan step fetched.selected fetched.suffix confidence in
    record {
      cache = cache;
      attempts = st.attempts ++ attempt ∷ [];
      gathered = gathered;
      trace =
          st.trace
          ++ (tool_call step.step step.tool_name ∷ fetched.events)
          ++ observed step.step attempt.hit_count confidence ∷ [];
    }

-- plan.intent_route.intent == "chat" and confidence >= plan.min_confidence
abbrev pub reached : Request → RetrievalPlan → LoopState → Bool
reached request plan st =
    is_chat plan.intent_route.intent
    && leb plan.min_confidence (estimate_retrieval_confidence request.preset st.gathered)

-- What the disabled plan leaves in the trace.
abbrev pub disabled_events : Request → List LoopEvent
disabled_events request =
    let n = length request.context_chunks in
    rag_disabled n
    ∷ (if effective_retrieval_mode request == "go_context" then go_context_only n ∷ [] else [])

abbrev pub round_limit : RetrievalPlan → ℕ
round_limit plan = max 1 (min plan.max_steps 3)

module _ (world : World) where
  -- The tool bridge, asked after `fetched` was selected.
  unfoldable pub ask_bridge : RetrievalPlanStep → Fetched → Result Failure Fetched
  ask_bridge step fetched = elim (world.bridge step) [
    | answered none ↦ ok fetched
    | answered (some chunks) ↦ ok (record fetched { selected = chunks; suffix = via_tool_bridge })
    | unavailable ↦
        ok (record fetched {
          events = fetched.events ++ bridge_failed step.step step.tool_name ∷ [];
        })
    | raises e ↦ err (escaped e)
  ]

  abbrev local : Request → RetrievalPlanStep → List ContextChunk
  local request step = local_agentic_retrieval world.lower request.context_chunks step

  abbrev or_local : Request → RetrievalPlanStep → List ContextChunk → List ContextChunk
  or_local request step [] = local request step
  or_local request step (chunk ∷ chunks) = chunk ∷ chunks

  -- The branch that calls the RAG runtime. Where the runtime answers, the bridge is not asked.
  unfoldable pub fetch_from_rag : Request → RetrievalPlanStep → Result Failure Fetched
  fetch_from_rag request step = elim (world.rag step) [
    | answered none ↦
        ask_bridge step
          (record { selected = local request step; suffix = via_preloaded; events = [] })
    | answered (some chunks) ↦ ok (record {
      selected = or_local request step chunks;
      suffix = via_rag_runtime;
      events = runtime_answered step.step (length chunks) ∷ [];
    })
    | unavailable ↦ ask_bridge step (record {
      selected = local request step;
      suffix = via_preloaded;
      events = runtime_failed step.step ∷ [];
    })
    | raises e ↦ err (escaped e)
  ]

  abbrev pub noted_local : RetrievalPlanStep → Fetched → Fetched
  noted_local step fetched = record fetched { events = fetched.events ++ local_only step.step ∷ [] }

  -- The bridge, where nothing was selected.
  abbrev pub ask_if_none : RetrievalPlanStep → List ContextChunk → Result Failure Fetched
  ask_if_none step [] =
      ask_bridge step (record { selected = []; suffix = via_preloaded; events = [] })
  ask_if_none step (chunk ∷ chunks) =
      ok (record { selected = chunk ∷ chunks; suffix = via_preloaded; events = [] })

  -- The branch that does not.
  unfoldable pub fetch_locally : Request → RetrievalPlanStep → Result Failure Fetched
  fetch_locally request step = do
    fetched ← ask_if_none step (local request step)
    ok (noted_local step fetched)

  unfoldable pub fetch :
      Request
      → RetrievalPlan
      → RetrievalPlanStep
      → List ContextChunk
      → Option (List ContextChunk)
      → Result Failure Fetched
  fetch request plan step gathered (some chunks) =
      ok (record { selected = chunks; suffix = via_cache; events = cache_hit step.step ∷ [] })
  fetch request plan step gathered none =
      if should_call_rag (effective_retrieval_mode request) plan step gathered
      then fetch_from_rag request step
      else fetch_locally request step

  abbrev pub key_of : Request → RetrievalPlan → RetrievalPlanStep → CacheKey
  key_of request plan step =
      make_cache_key world.lower step.query step.source_scope plan.intent_route.retrieval_strategy
        (resolve_fingerprint world.digest request) request.corpus_version

  -- One round behind its cancellation check.
  unfoldable pub retrieve_step :
      Request → RetrievalPlan → RetrievalPlanStep → LoopState → Result Failure LoopState
  retrieve_step request plan step st = do
    let key = key_of request plan step
    let (cache, cached) = lookup st.cache key
    fetched ← fetch request plan step st.gathered cached
    after ← remember cache key cached fetched.selected
    ok (conclude request plan step fetched after st)

  unfoldable pub check : ℕ → Result Failure (Unit {0})
  check k = elim (check_cancelled (world.current k) (world.clock k)) [
    | ok u ↦ ok u
    | err e ↦ err (cancelled_by e)
  ]

  -- The `for` loop; `k` counts the cancellation checks.
  unfoldable pub rounds :
      Request → RetrievalPlan → ℕ → List RetrievalPlanStep → LoopState → Result Failure LoopState
  rounds request plan k [] st = ok st
  rounds request plan k (step ∷ steps) st = do
    check k
    after ← retrieve_step request plan step st
    let rest = rounds request plan (suc k) steps after
    if reached request plan after then ok after else rest

  abbrev pub visit_steps : Request → RetrievalPlan → LoopState → Result Failure LoopState
  visit_steps request plan start =
      if plan.enabled
      then rounds request plan 1 (take (round_limit plan) plan.steps) start
      else ok (record start { trace = disabled_events request })

  -- `cache` is the cache of the state, or a new one.
  unfoldable pub retrieval_loop :
      Request → RetrievalPlan → RunRetrievalCache → Result Failure LoopState
  retrieval_loop request plan cache = do
    check 0
    visit_steps request plan (record { cache = cache; attempts = []; gathered = []; trace = [] })
