-- ===== src/Retrieval/Rounds.antt =====
-- nodes/retrieval.py: how the retrieval loop ends.
use allcallall_agent_runtime.Common.{
  All-append, Bool, Bool-cases, List, Option, Option-cases, [], arith, false, if◌then◌else◌, inl,
  inr, length, length-append, length-take_le, none, some, suc, take, true, ℕ, ◌+◌, ◌∷◌, ◌≡◌, ◌≤◌,
  ◌⊎◌,
}
use allcallall_agent_runtime.Common.Eq.{string_eq}
use allcallall_agent_runtime.Common.Dict.{get}
use allcallall_agent_runtime.Common.Result.{Result, Result-cases, err, ok, ◌>>=◌}
use allcallall_agent_runtime.Common.Distinct.{Listed}
use allcallall_agent_runtime.Retrieval.State.{
  ContextChunk, Request, RetrievalPlan, RetrievalPlanStep,
}
use allcallall_agent_runtime.Retrieval.Helpers.{estimate_retrieval_confidence}
use allcallall_agent_runtime.Retrieval.Cache.{CacheKey, RunRetrievalCache, key_eq, lookup}
use allcallall_agent_runtime.Retrieval.Rerank.{local_agentic_retrieval}
use allcallall_agent_runtime.Retrieval.Loop.{
  Answer-cases, Failure, Fetched, LoopState, World, ask_bridge, ask_if_none, attempt_of,
  cancelled_by, check, conclude, effective_retrieval_mode, escaped, fetch, fetch_from_rag,
  fetch_locally, gather, key_of, noted_local, raises, reached, remember, retrieval_loop,
  retrieve_step, round_limit, rounds, should_call_rag, stop_iteration,
}
use allcallall_agent_runtime.Retrieval.Remembering.{IsBounded, store-Remembers}
use allcallall_agent_runtime.Deadline.State.{check_cancelled}
use allcallall_agent_runtime.Retrieval.Gathering.{
  IsGathered, attempts_kept, gather-Distinct, gather-Listed, keys,
}

module _ (world : World) where
  -- A result is explained: what is returned is `P`; what is raised comes from a cancellation check
  -- or from a client. `next` never fails.
  abbrev pub Explained {ℓ} : {A : Type ℓ} → (A → Type 0) → Result Failure A → Type 0
  Explained P (ok a) = P a
  Explained P (err (cancelled_by e)) =
      (k : ℕ) × (check_cancelled (world.current k) (world.clock k) ≡ err e)
  Explained P (err (escaped e)) =
      (step : RetrievalPlanStep) × ((world.rag step ≡ raises e) ⊎ (world.bridge step ≡ raises e))
  Explained P (err stop_iteration) = ⊥

  Explained-bind :
      {A B : Type 0} (P : A → Type 0) (Q : B → Type 0) (r : Result Failure A)
      (f : A → Result Failure B)
      → Explained P r
      → ((a : A) → P a → Explained Q (f a))
      → Explained Q (r >>= f)
  Explained-bind P Q (ok a) f h k = k a h
  Explained-bind P Q (err (cancelled_by e)) f h k = h
  Explained-bind P Q (err (escaped e)) f h k = h
  Explained-bind P Q (err stop_iteration) f h k = h

  abbrev Anything {ℓ} : {A : Type ℓ} → A → Type 0
  Anything a = Unit

  check-Explained : (k : ℕ) → Explained Anything (check world k)
  unfolding check
  check-Explained k = elim (Result-cases (check_cancelled (world.current k) (world.clock k))) [
    | inl (u, e) ↦ rw (e, check, Explained) tt
    | inr (x, e) ↦ rw (e, check, Explained) (k, e)
  ]

  ask_bridge-Explained :
      (step : RetrievalPlanStep) (fetched : Fetched)
      → Explained Anything (ask_bridge world step fetched)
  unfolding ask_bridge
  ask_bridge-Explained step fetched = elim (Answer-cases (world.bridge step)) [
    | inl (none, e) ↦ rw (e, ask_bridge, Explained) tt
    | inl (some chunks, e) ↦ rw (e, ask_bridge, Explained) tt
    | inr (inl e) ↦ rw (e, ask_bridge, Explained) tt
    | inr (inr (x, e)) ↦ rw (e, ask_bridge, Explained) (step, inr e)
  ]

  fetch_from_rag-Explained :
      (request : Request) (step : RetrievalPlanStep)
      → Explained Anything (fetch_from_rag world request step)
  unfolding fetch_from_rag
  fetch_from_rag-Explained request step = elim (Answer-cases (world.rag step)) [
    | inl (none, e) ↦ rw (e, fetch_from_rag, Explained) (ask_bridge-Explained step _)
    | inl (some chunks, e) ↦ rw (e, fetch_from_rag, Explained) tt
    | inr (inl e) ↦ rw (e, fetch_from_rag, Explained) (ask_bridge-Explained step _)
    | inr (inr (x, e)) ↦ rw (e, fetch_from_rag, Explained) (step, inl e)
  ]

  ask_if_none-Explained :
      (step : RetrievalPlanStep) (chunks : List ContextChunk)
      → Explained Anything (ask_if_none world step chunks)
  ask_if_none-Explained step [] = ask_bridge-Explained step _
  ask_if_none-Explained step (chunk ∷ chunks) = tt

  fetch_locally-Explained :
      (request : Request) (step : RetrievalPlanStep)
      → Explained Anything (fetch_locally world request step)
  unfolding fetch_locally
  fetch_locally-Explained request step =
      let found = local_agentic_retrieval world.lower request.context_chunks step in
      Explained-bind {A = Fetched} {B = Fetched} Anything Anything (ask_if_none world step found)
        (λ fetched. ok (noted_local world step fetched)) (ask_if_none-Explained step found)
        (λ fetched h. tt)

  fetch-Explained :
      (request : Request) (plan : RetrievalPlan) (step : RetrievalPlanStep)
      (gathered : List ContextChunk) (cached : Option (List ContextChunk))
      → Explained Anything (fetch world request plan step gathered cached)
  unfolding fetch
  fetch-Explained request plan step gathered (some chunks) = tt
  fetch-Explained request plan step gathered none =
      elim (Bool-cases (should_call_rag (effective_retrieval_mode request) plan step gathered)) [
        | inl e ↦ rw e (fetch_from_rag-Explained request step)
        | inr e ↦ rw e (fetch_locally-Explained request step)
      ]

  remember-Explained :
      (cache : RunRetrievalCache) (key : CacheKey) (cached : Option (List ContextChunk))
      (selected : List ContextChunk)
      → IsBounded cache
      → Explained IsBounded (remember cache key cached selected)
  unfolding remember
  remember-Explained cache key (some chunks) selected b = b
  remember-Explained cache key none [] b = b
  remember-Explained cache key none (chunk ∷ chunks) b =
      let (after, (e, h)) = store-Remembers cache key (chunk ∷ chunks) b in
      rw (e, remember, Explained) h.still

  lookup-IsBounded :
      (cache : RunRetrievalCache) (key : CacheKey)
      → IsBounded cache
      → IsBounded (lookup cache key).0
  unfolding lookup
  lookup-IsBounded cache key b = elim (Option-cases (get cache.entries key)) [
    | inl e ↦ rw (e, lookup) (record { positive = b.positive; bounded = b.bounded })
    | inr (v, e) ↦ rw (e, lookup) (record { positive = b.positive; bounded = b.bounded })
  ]

  -- The loop's variables after at most `n` attempts.
  pub record IsWithin (n : ℕ) (st : LoopState) : Type 0 where
    pub kept : IsGathered st
    pub attempts : length st.attempts ≤ n

  conclude-IsGathered :
      (request : Request) (plan : RetrievalPlan) (step : RetrievalPlanStep) (fetched : Fetched)
      (cache : RunRetrievalCache) (st : LoopState)
      → IsGathered st
      → IsBounded cache
      → IsGathered (conclude request plan step fetched cache st)
  unfolding conclude
  conclude-IsGathered request plan step fetched cache st h b = record {
    distinct = gather-Distinct st.gathered fetched.selected h.distinct;
    listed =
        All-append (λ a. Listed (keys (gather st.gathered fetched.selected)) a.selected_chunk_ids)
          st.attempts
          (attempt_of plan step fetched.selected fetched.suffix
              (estimate_retrieval_confidence request.preset (gather st.gathered fetched.selected))
            ∷ [])
          (attempts_kept st.gathered fetched.selected st.attempts h.listed)
          (gather-Listed st.gathered fetched.selected, tt);
    cached = b;
  }

  conclude-attempts :
      (request : Request) (plan : RetrievalPlan) (step : RetrievalPlanStep) (fetched : Fetched)
      (cache : RunRetrievalCache) (st : LoopState)
      → length (conclude request plan step fetched cache st).attempts ≡ suc (length st.attempts)
  unfolding conclude
  conclude-attempts request plan step fetched cache st =
      let attempt =
        attempt_of plan step fetched.selected fetched.suffix
          (estimate_retrieval_confidence request.preset (gather st.gathered fetched.selected)) in
      omega (arith, length-append st.attempts (attempt ∷ []))

  retrieve_step-Explained :
      (request : Request) (plan : RetrievalPlan) (step : RetrievalPlanStep) (n : ℕ) (st : LoopState)
      → IsWithin n st
      → Explained (IsWithin (suc n)) (retrieve_step world request plan step st)
  unfolding retrieve_step
  retrieve_step-Explained request plan step n st h =
      let key = key_of world request plan step in
      let looked = lookup st.cache key in
      let b = lookup-IsBounded st.cache key h.kept.cached in
      Explained-bind {A = Fetched} {B = LoopState} Anything (IsWithin (suc n))
        (fetch world request plan step st.gathered looked.1) _
        (fetch-Explained request plan step st.gathered looked.1)
        (λ fetched u.
          Explained-bind {A = RunRetrievalCache} {B = LoopState} IsBounded (IsWithin (suc n))
            (remember looked.0 key looked.1 fetched.selected) _
            (remember-Explained looked.0 key looked.1 fetched.selected b)
            (λ after c. record {
              kept = conclude-IsGathered request plan step fetched after st h.kept c;
              attempts =
                  omega (arith, conclude-attempts request plan step fetched after st, h.attempts);
            }))

  if-Explained :
      {A : Type 0} (P : A → Type 0) (b : Bool) (x y : Result Failure A)
      → Explained P x
      → Explained P y
      → Explained P (if b then x else y)
  if-Explained P true x y hx hy = hx
  if-Explained P false x y hx hy = hy

  rounds-Explained :
      (request : Request) (plan : RetrievalPlan) (k n m : ℕ) (steps : List RetrievalPlanStep)
      (st : LoopState)
      → n + length steps ≤ m
      → IsWithin n st
      → Explained (IsWithin m) (rounds world request plan k steps st)
  unfolding rounds
  rounds-Explained request plan k n m [] st le h = record {
    kept = h.kept;
    attempts = omega (arith, h.attempts, le);
  }
  rounds-Explained request plan k n m (step ∷ steps) st le h =
      Explained-bind {A = Unit} {B = LoopState} Anything (IsWithin m) (check world k) _
        (check-Explained k)
        (λ u t.
          Explained-bind {A = LoopState} {B = LoopState} (IsWithin (suc n)) (IsWithin m)
            (retrieve_step world request plan step st) _
            (retrieve_step-Explained request plan step n st h)
            (λ after g.
              if-Explained {A = LoopState} (IsWithin m) (reached request plan after) (ok after)
                (rounds world request plan (suc k) steps after)
                (record { kept = g.kept; attempts = omega (arith, g.attempts, le) })
                (rounds-Explained request plan (suc k) (suc n) m steps after (omega (arith, le))
                  g)))

  -- The loop, from a cache that keeps its bound: where it returns, there are no more attempts than
  -- the plan's limit (between 1 and 3), no two gathered chunks share a key, each attempt's chunks
  -- are among them by key, and the cache keeps its bound; where it raises, a cancellation check or
  -- a client raised it.
  pub retrieval_loop-Explained :
      (request : Request) (plan : RetrievalPlan) (cache : RunRetrievalCache)
      → IsBounded cache
      → Explained (IsWithin (round_limit plan)) (retrieval_loop world request plan cache)
  unfolding retrieval_loop
  retrieval_loop-Explained request plan cache b =
      let start : LoopState = record { cache = cache; attempts = []; gathered = []; trace = [] } in
      let limit = round_limit plan in
      let steps = take limit plan.steps in
      let empty : IsGathered start = record { distinct = tt; listed = tt; cached = b } in
      Explained-bind {A = Unit} {B = LoopState} Anything (IsWithin limit) (check world 0) _
        (check-Explained 0)
        (λ u t.
          if-Explained {A = LoopState} (IsWithin limit) plan.enabled
            (rounds world request plan 1 steps start) _
            (rounds-Explained request plan 1 0 limit steps start
              (omega (arith, length-take_le limit plan.steps))
              (record { kept = empty; attempts = omega arith }))
            (record {
              kept = record { distinct = tt; listed = tt; cached = b };
              attempts = omega arith;
            }))
