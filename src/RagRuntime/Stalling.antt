-- ===== src/RagRuntime/Stalling.antt =====
-- What the steps of `agentic_retrieve` after the first one find.
use mathlib.Core.List.{append-nil}
use allcallall_agent_runtime.Common.{
  Bool, Bool-cases, List, String, [], ap, false, if◌then◌else◌, inl, inr, leb, refl, suc, sym, true,
  ℕ, ◌++◌, ◌∙◌, ◌∷◌, ◌≡◌,
}
use allcallall_agent_runtime.Common.Eq.{string_eq}
use allcallall_agent_runtime.Common.Text.{is_blank}
use allcallall_agent_runtime.RagRuntime.Scoring.{filter_chunks, rerank}
use allcallall_agent_runtime.RagRuntime.Evidence.{estimate_confidence}
use allcallall_agent_runtime.RagRuntime.Agentic.{
  AgenticRequest, Host, RagLoop, agentic_retrieve, graph_of, new_loop, queries_of, retrieve_all,
  retrieve_once, types_of,
}
use allcallall_agent_runtime.RagRuntime.Settling.{
  Outcome, Settled, found_by, outcomes, retrieve_once-Settled, retrieve_once-new,
}
use allcallall_agent_runtime.Retrieval.State.{ContextChunk, GraphExpansion}
use allcallall_agent_runtime.Retrieval.Loop.{gather}

unfoldable pub same_for : List String → Outcome → List Outcome
same_for [] o = []
same_for (q ∷ qs) o = o ∷ same_for qs o

same_for-snoc :
    (xs : List Outcome) (o : Outcome) (q : String) (qs : List String)
    → (xs ++ o ∷ []) ++ same_for qs o ≡ xs ++ same_for (q ∷ qs) o
unfolding same_for
same_for-snoc [] o q qs = refl
same_for-snoc (x ∷ xs) o q qs = rw (same_for-snoc xs o q qs) refl

module _ (host : Host) (request : AgenticRequest) (types : List String)
    (graph : GraphExpansion) where
  -- Of the queries only the first counts: each step finds what the first one found, and the loop
  -- ends at once or after all of them.
  abbrev pub first_alone : List ContextChunk → List String → List Outcome
  first_alone chunks [] = []
  first_alone chunks (query ∷ queries) =
      let ranked = rerank host.lower query (filter_chunks chunks types) request.top_k in
      let o = found_by host request types graph ranked (gather [] ranked) in
      if leb request.min_confidence o.1.1.1 then o ∷ [] else o ∷ same_for queries o

  reaches_as :
      (st : RagLoop) (gathered : List ContextChunk) (b : Bool)
      → st.gathered ≡ gathered
      → leb request.min_confidence (estimate_confidence host.log_gain gathered types graph) ≡ b
      → leb request.min_confidence (estimate_confidence host.log_gain st.gathered types graph) ≡ b
  reaches_as st gathered b e h = rw e h

  retrieve_all-Settled :
      (chunks ranked gathered : List ContextChunk) (step : ℕ) (queries : List String) (st : RagLoop)
      → leb request.min_confidence (estimate_confidence host.log_gain gathered types graph) ≡ false
      → Settled host request types graph (filter_chunks chunks types) ranked gathered st
      → outcomes (retrieve_all host request chunks types graph step queries st).attempts
        ≡ outcomes st.attempts
          ++ same_for queries (found_by host request types graph ranked gathered)
  unfolding retrieve_all outcomes same_for
  retrieve_all-Settled chunks ranked gathered step [] st low w = sym (append-nil _)
  retrieve_all-Settled chunks ranked gathered step (query ∷ queries) st low w =
      let next = retrieve_once host request chunks types graph step query st in
      let (settled, more) =
        retrieve_once-Settled host request types graph chunks ranked gathered step query st w in
      let rest = retrieve_all-Settled chunks ranked gathered (suc step) queries next low settled in
      rw (reaches_as next gathered false settled.collected low) (
        rest
        ∙ (ap (λ xs. xs ++ same_for queries (found_by host request types graph ranked gathered))
              more
            ∙ same_for-snoc (outcomes st.attempts)
                (found_by host request types graph ranked gathered) query queries))

  retrieve_all-first :
      (chunks : List ContextChunk) (queries : List String)
      → ((t : String) → is_blank (host.digest t) ≡ false)
      → outcomes (retrieve_all host request chunks types graph 1 queries new_loop).attempts
        ≡ first_alone chunks queries
  unfolding retrieve_all outcomes
  retrieve_all-first chunks [] solid = refl
  retrieve_all-first chunks (query ∷ queries) solid =
      let ranked = rerank host.lower query (filter_chunks chunks types) request.top_k in
      let gathered = gather [] ranked in
      let next = retrieve_once host request chunks types graph 1 query new_loop in
      let (settled, more) = retrieve_once-new host request types graph chunks query solid in
      elim (Bool-cases
        (leb request.min_confidence (estimate_confidence host.log_gain gathered types graph))) [
          | inl e ↦ rw (reaches_as next gathered true settled.collected e, e) more
          | inr e ↦
              let rest = retrieve_all-Settled chunks ranked gathered 2 queries next e settled in
              rw (reaches_as next gathered false settled.collected e, e)
                (rest
                  ∙ ap
                      (λ xs.
                        xs ++ same_for queries (found_by host request types graph ranked gathered))
                      more)
        ]

-- Where no digest is empty: each attempt of `agentic_retrieve` finds what reranking for its first
-- query finds, with the same hits and the same confidence; there is one attempt where that
-- confidence is enough, and else one for each query, all alike.
pub agentic_retrieve-first :
    (host : Host) (request : AgenticRequest) (chunks : List ContextChunk)
    → ((t : String) → is_blank (host.digest t) ≡ false)
    → outcomes (agentic_retrieve host request chunks).attempts
      ≡ first_alone host request
          (types_of host request chunks)
          (graph_of host request chunks)
          chunks
          (queries_of host request chunks)
unfolding agentic_retrieve
agentic_retrieve-first host request chunks solid =
    retrieve_all-first host request (types_of host request chunks) (graph_of host request chunks)
      chunks (queries_of host request chunks) solid
