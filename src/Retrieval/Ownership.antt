-- ===== src/Retrieval/Ownership.antt =====
-- nodes/retrieval.py: the mode decides which client is called.
use allcallall_agent_runtime.Common.{
  List, Option, String, [], ap, false, if◌then◌else◌, none, refl, some, suc, take, true, ℕ, ◌∙◌,
  ◌∷◌, ◌≡◌,
}
use allcallall_agent_runtime.Common.Eq.{string_eq, ◌==◌}
use allcallall_agent_runtime.Common.Result.{bind-cong, ok, ◌>>=◌, ◌>>◌}
use allcallall_agent_runtime.Retrieval.State.{
  ContextChunk, Request, RetrievalPlan, RetrievalPlanStep,
}
use allcallall_agent_runtime.Retrieval.Cache.{RunRetrievalCache, lookup}
use allcallall_agent_runtime.Retrieval.Loop.{
  Answer, LoopState, World, ask_bridge, check, disabled_events, effective_retrieval_mode, fetch,
  fetch_locally, key_of, reached, retrieval_loop, retrieve_step, round_limit, rounds,
  should_call_rag,
}

should_call_rag-go_context :
    (mode : String) (plan : RetrievalPlan) (step : RetrievalPlanStep) (gathered : List ContextChunk)
    → (mode == "go_context") ≡ true
    → should_call_rag mode plan step gathered ≡ false
unfolding should_call_rag
should_call_rag-go_context mode plan step gathered h = rw h refl

-- Sections of proofs about two worlds that differ only in the RAG runtime.
module _ (world : World) (rag : RetrievalPlanStep → Answer) (request : Request)
    (plan : RetrievalPlan) (h : (effective_retrieval_mode request == "go_context") ≡ true) where
  abbrev other : World
  other = record world { rag = rag }

  fetch_same :
      (step : RetrievalPlanStep) (gathered : List ContextChunk)
      (cached : Option (List ContextChunk))
      → fetch other request plan step gathered cached
        ≡ fetch world request plan step gathered cached
  unfolding fetch fetch_locally ask_bridge
  fetch_same step gathered (some chunks) = refl
  fetch_same step gathered none =
      rw (should_call_rag-go_context (effective_retrieval_mode request) plan step gathered h) refl

  retrieve_step_same :
      (step : RetrievalPlanStep) (st : LoopState)
      → retrieve_step other request plan step st ≡ retrieve_step world request plan step st
  unfolding retrieve_step
  retrieve_step_same step st =
      rw
        (
          fetch_same step st.gathered (lookup st.cache (key_of world request plan step)).1,
          retrieve_step,
        )
        refl

  rounds_same :
      (k : ℕ) (steps : List RetrievalPlanStep) (st : LoopState)
      → rounds other request plan k steps st ≡ rounds world request plan k steps st
  unfolding rounds check
  rounds_same k [] st = refl
  rounds_same k (step ∷ steps) st =
      ap (λ r. check world k >> r)
        (ap
            (λ r. r >>= λ after.
              if reached request plan after
              then ok after
              else rounds other request plan (suc k) steps after)
            (retrieve_step_same step st)
          ∙ bind-cong (retrieve_step world request plan step st) (λ after.
            ap (λ rest. if reached request plan after then ok after else rest)
              (rounds_same (suc k) steps after)))

  -- In `go_context` mode the loop comes to the same whatever the RAG runtime would answer, to the
  -- last trace event.
  pub retrieval_loop-go_context :
      (cache : RunRetrievalCache)
      → retrieval_loop other request plan cache ≡ retrieval_loop world request plan cache
  unfolding retrieval_loop check
  retrieval_loop-go_context cache =
      let start : LoopState = record { cache = cache; attempts = []; gathered = []; trace = [] } in
      ap
        (λ r.
          check world 0
          >> (if plan.enabled then r else ok (record start { trace = disabled_events request })))
        (rounds_same 1 (take (round_limit plan) plan.steps) start)
