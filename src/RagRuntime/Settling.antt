-- ===== src/RagRuntime/Settling.antt =====
-- The body of the loop of `agentic_retrieve`, at the first step and once a step was made.
use text.Mathlib.TextEquality.{eq_iff}
use allcallall_agent_runtime.Common.{
  Bool-cases, List, String, [], ap, clash, false, inl, inr, map, max, refl, suc, take, true, zero,
  ℕ, ◌++◌, ◌∙◌, ◌∷◌, ◌≡◌,
}
use allcallall_agent_runtime.Common.Eq.{string_eq, ◌==◌}
use allcallall_agent_runtime.Common.Text.{is_blank, join}
use allcallall_agent_runtime.Common.Distinct.{Listed}
use allcallall_agent_runtime.RagRuntime.Scoring.{
  compute_fingerprint, filter_chunks, rerank, score_chunks,
}
use allcallall_agent_runtime.RagRuntime.Agentic.{
  AgenticRequest, Host, RagAttempt, RagLoop, attempt_at, new_loop, observe_step, ranked_for,
  retrieve_once,
}
use allcallall_agent_runtime.Retrieval.State.{ContextChunk, GraphExpansion}
use allcallall_agent_runtime.Retrieval.Helpers.{chunk_key}
use allcallall_agent_runtime.Retrieval.Rerank.{numbered, sort_by, sorted_keys}
use allcallall_agent_runtime.Retrieval.Loop.{gather}
use allcallall_agent_runtime.Retrieval.Gathering.{gather-Listed, keys}

-- What an attempt found: source types, hits, ids and confidence.
abbrev pub Outcome : Type 0
Outcome = List String × (ℕ × (List String × ℕ))

abbrev pub outcome : RagAttempt → Outcome
outcome a = (a.source_types, (a.hit_count, (a.selected_chunk_ids, a.confidence)))

unfoldable pub outcomes : List RagAttempt → List Outcome
outcomes [] = []
outcomes (a ∷ items) = outcome a ∷ outcomes items

outcomes-snoc :
    (items : List RagAttempt) (a : RagAttempt)
    → outcomes (items ++ a ∷ []) ≡ outcomes items ++ outcome a ∷ []
unfolding outcomes
outcomes-snoc [] a = refl
outcomes-snoc (x ∷ items) a = rw (outcomes-snoc items a) refl

gather_known :
    (gathered chunks : List ContextChunk)
    → Listed (keys gathered) (keys chunks)
    → gather gathered chunks ≡ gathered
unfolding gather
gather_known gathered [] l = refl
gather_known gathered (c ∷ cs) (h, hs) = rw h (gather_known gathered cs hs)

take-empty : (n : ℕ) → take {A = ContextChunk} n [] ≡ []
take-empty zero = refl
take-empty (suc n) = refl

not_empty : (t : String) → is_blank t ≡ false → (t == "") ≡ false
not_empty t h = elim (Bool-cases (t == "")) [
  | inl e ↦ clash (ap is_blank ((eq_iff t "").0 e)) h
  | inr e ↦ e
]

rerank-empty : (lower : String → String) (query : String) (k : ℕ) → rerank lower query [] k ≡ []
unfolding rerank score_chunks sort_by numbered
rerank-empty lower query k = rw (take-empty (max 1 k)) refl

module _ (host : Host) (request : AgenticRequest) (types : List String)
    (graph : GraphExpansion) where
  -- What a step finds that gathers `ranked` into `gathered`.
  abbrev pub found_by : List ContextChunk → List ContextChunk → Outcome
  found_by ranked gathered = outcome (attempt_at host request types graph 1 "" ranked gathered)

  pub record Settled (scoped ranked gathered : List ContextChunk) (st : RagLoop) : Type 0 where
    pub fingerprint : (compute_fingerprint host.digest scoped == st.last_fingerprint) ≡ true
    pub reranked : st.last_reranked ≡ ranked
    pub collected : st.gathered ≡ gathered
    pub known : gather gathered ranked ≡ gathered

  -- Before the chunks of a step are gathered.
  record Ready (scoped ranked gathered : List ContextChunk) (st : RagLoop) : Type 0 where
    fingerprint : (compute_fingerprint host.digest scoped == st.last_fingerprint) ≡ true
    reranked : st.last_reranked ≡ ranked
    collecting : gather st.gathered st.last_reranked ≡ gathered
    known : gather gathered ranked ≡ gathered

  observe_step-Settled :
      (scoped ranked gathered : List ContextChunk) (step : ℕ) (query : String) (st : RagLoop)
      → Ready scoped ranked gathered st
      → Settled scoped ranked gathered (observe_step host request types graph step query st)
        × (outcomes (observe_step host request types graph step query st).attempts
            ≡ outcomes st.attempts ++ found_by ranked gathered ∷ [])
  unfolding observe_step
  observe_step-Settled scoped ranked gathered step query st w = (
    record {
      fingerprint = w.fingerprint;
      reranked = w.reranked;
      collected = w.collecting;
      known = w.known;
    },
    outcomes-snoc st.attempts _ ∙ rw (w.collecting, w.reranked) refl,
  )

  ranked_for-Settled :
      (scoped ranked gathered : List ContextChunk) (step : ℕ) (query : String) (st : RagLoop)
      → Settled scoped ranked gathered st
      → Ready scoped ranked gathered (ranked_for host request step query scoped st)
        × ((ranked_for host request step query scoped st).attempts ≡ st.attempts)
  unfolding ranked_for
  ranked_for-Settled scoped ranked gathered step query st w = rw w.fingerprint (
    record {
      fingerprint = w.fingerprint;
      reranked = w.reranked;
      collecting = rw (w.collected, w.reranked) w.known;
      known = w.known;
    },
    refl,
  )

  -- A list of chunks that was gathered holds nothing new.
  gather_again : (chunks : List ContextChunk) → gather (gather [] chunks) chunks ≡ gather [] chunks
  gather_again chunks = gather_known (gather [] chunks) chunks (gather-Listed [] chunks)

  ranked_for-new :
      (scoped raw : List ContextChunk) (query : String)
      → ((t : String) → is_blank (host.digest t) ≡ false)
      → Ready scoped
          (rerank host.lower query scoped request.top_k)
          (gather [] (rerank host.lower query scoped request.top_k))
          (ranked_for host request 1 query scoped (record new_loop { raw_candidates = raw }))
        × ((ranked_for host request 1 query scoped
              (record new_loop { raw_candidates = raw })).attempts
            ≡ [])
  unfolding ranked_for compute_fingerprint gather
  ranked_for-new [] raw query solid =
      rw (rerank-empty host.lower query request.top_k)
        (record { fingerprint = refl; reranked = refl; collecting = refl; known = refl }, refl)
  ranked_for-new (c ∷ cs) raw query solid =
      rw (not_empty _ (solid (join "|" (sorted_keys (map chunk_key (c ∷ cs)))))) (
        record {
          fingerprint = (eq_iff _ _).1 refl;
          reranked = refl;
          collecting = refl;
          known = gather_again (rerank host.lower query (c ∷ cs) request.top_k);
        },
        refl,
      )

  pub retrieve_once-Settled :
      (chunks ranked gathered : List ContextChunk) (step : ℕ) (query : String) (st : RagLoop)
      → Settled (filter_chunks chunks types) ranked gathered st
      → Settled
          (filter_chunks chunks types)
          ranked
          gathered
          (retrieve_once host request chunks types graph step query st)
        × (outcomes (retrieve_once host request chunks types graph step query st).attempts
            ≡ outcomes st.attempts ++ found_by ranked gathered ∷ [])
  unfolding retrieve_once
  retrieve_once-Settled chunks ranked gathered step query st w =
      let scoped = filter_chunks chunks types in
      let raw : RagLoop = record st { raw_candidates = gather st.raw_candidates scoped } in
      let w' : Settled scoped ranked gathered raw = record {
        fingerprint = w.fingerprint;
        reranked = w.reranked;
        collected = w.collected;
        known = w.known;
      } in
      let (ready, same) = ranked_for-Settled scoped ranked gathered step query raw w' in
      let (settled, more) =
        observe_step-Settled scoped ranked gathered step query
          (ranked_for host request step query scoped raw) ready in
      (settled, more ∙ rw same refl)

  pub retrieve_once-new :
      (chunks : List ContextChunk) (query : String)
      → ((t : String) → is_blank (host.digest t) ≡ false)
      → Settled
          (filter_chunks chunks types)
          (rerank host.lower query (filter_chunks chunks types) request.top_k)
          (gather [] (rerank host.lower query (filter_chunks chunks types) request.top_k))
          (retrieve_once host request chunks types graph 1 query new_loop)
        × (outcomes (retrieve_once host request chunks types graph 1 query new_loop).attempts
            ≡ found_by
                (rerank host.lower query (filter_chunks chunks types) request.top_k)
                (gather [] (rerank host.lower query (filter_chunks chunks types) request.top_k))
              ∷ [])
  unfolding retrieve_once outcomes
  retrieve_once-new chunks query solid =
      let scoped = filter_chunks chunks types in
      let raw = gather [] scoped in
      let (ready, same) = ranked_for-new scoped raw query solid in
      let (settled, more) =
        observe_step-Settled scoped _ _ 1 query
          (ranked_for host request 1 query scoped (record new_loop { raw_candidates = raw }))
          ready in
      (settled, more ∙ rw same refl)
