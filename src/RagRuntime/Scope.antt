-- ===== src/RagRuntime/Scope.antt =====
-- The source types of what `agentic_retrieve` returns.
use allcallall_agent_runtime.Common.{
  All, Bool, Bool-cases, List, String, [], clash, false, inl, inr, leb, max, not, refl, suc, true,
  ℕ, ◌&&◌, ◌*◌, ◌∷◌, ◌≡◌,
}
use allcallall_agent_runtime.Common.Eq.{contains, string_eq, ◌==◌}
use allcallall_agent_runtime.Common.Text.{is_blank}
use allcallall_agent_runtime.RagRuntime.Scoring.{
  allowed_types, compute_fingerprint, filter_chunks, or_all,
}
use allcallall_agent_runtime.RagRuntime.Evidence.{estimate_confidence}
use allcallall_agent_runtime.RagRuntime.Agentic.{
  AgenticRequest, Host, RagLoop, agentic_retrieve, final_rerank, graph_of, new_loop, observe_step,
  or_gathered, queries_of, ranked_for, retrieve_all, retrieve_once, step_limit, types_of,
}
use allcallall_agent_runtime.RagRuntime.Typed.{Typed, gather-Typed, rerank-Typed, take-Typed}
use allcallall_agent_runtime.Retrieval.State.{ContextChunk, GraphExpansion}
use allcallall_agent_runtime.Retrieval.Helpers.{filter, none_of}
use allcallall_agent_runtime.Retrieval.Loop.{gather}

filter-All :
    (test : ContextChunk → Bool) (chunks : List ContextChunk)
    → All (λ c. test c ≡ true) (filter test chunks)
unfolding filter
filter-All test [] = tt
filter-All test (c ∷ cs) = elim (Bool-cases (test c)) [
  | inl e ↦ rw e (e, filter-All test cs)
  | inr e ↦ rw e (filter-All test cs)
]

or_all-some :
    (scoped chunks : List ContextChunk) → none_of scoped ≡ false → or_all scoped chunks ≡ scoped
or_all-some [] chunks h = clash refl h
or_all-some (c ∷ cs) chunks h = refl

none_of-filter :
    (test : ContextChunk → Bool) (chunks : List ContextChunk)
    → ((c : ContextChunk) → test c ≡ false)
    → none_of (filter test chunks) ≡ true
unfolding filter
none_of-filter test [] h = refl
none_of-filter test (c ∷ cs) h = rw (h c) (none_of-filter test cs h)

abbrev pub of_types : List String → ContextChunk → Bool
of_types types c = contains (allowed_types types) c.source_type

nothing_allowed :
    (allowed : List String) (chunks : List ContextChunk)
    → none_of allowed ≡ true
    → none_of (filter (λ c. contains allowed c.source_type) chunks) ≡ true
unfolding contains
nothing_allowed [] chunks h = none_of-filter _ chunks (λ c. refl)
nothing_allowed (t ∷ ts) chunks h = clash h refl

filter_chunks-of_types :
    (chunks : List ContextChunk) (types : List String)
    → none_of (filter (of_types types) chunks) ≡ false
    → Typed (λ t. contains (allowed_types types) t ≡ true) (filter_chunks chunks types)
unfolding filter_chunks
filter_chunks-of_types chunks types h = elim (Bool-cases (contains (allowed_types types) "none")) [
  | inl e ↦ rw e tt
  | inr e ↦ elim (Bool-cases (none_of (allowed_types types))) [
    | inl f ↦ clash (nothing_allowed (allowed_types types) chunks f) h
    | inr f ↦
        rw (e, f, or_all-some (filter (of_types types) chunks) chunks h)
          (filter-All (of_types types) chunks)
  ]
]

module _ (P : String → Type 0) where
  record TypedLoop (st : RagLoop) : Type 0 where
    raw : Typed P st.raw_candidates
    collected : Typed P st.gathered
    reranked : Typed P st.last_reranked

  module _ (host : Host) (request : AgenticRequest) where
    ranked_for-Typed :
        (step : ℕ) (query : String) (scoped : List ContextChunk) (st : RagLoop)
        → Typed P scoped
        → TypedLoop st
        → TypedLoop (ranked_for host request step query scoped st)
    unfolding ranked_for
    ranked_for-Typed step query scoped st h w =
        elim (Bool-cases (compute_fingerprint host.digest scoped == st.last_fingerprint)) [
          | inl e ↦ rw e (record { raw = w.raw; collected = w.collected; reranked = w.reranked })
          | inr e ↦ rw e (record {
            raw = w.raw;
            collected = w.collected;
            reranked = rerank-Typed P host.lower query scoped request.top_k h;
          })
        ]

    module _ (chunks : List ContextChunk) (types : List String) (graph : GraphExpansion)
        (h : Typed P (filter_chunks chunks types)) where
      retrieve_once-Typed :
          (step : ℕ) (query : String) (st : RagLoop)
          → TypedLoop st
          → TypedLoop (retrieve_once host request chunks types graph step query st)
      unfolding retrieve_once observe_step
      retrieve_once-Typed step query st w =
          let scoped = filter_chunks chunks types in
          let raw : RagLoop = record st { raw_candidates = gather st.raw_candidates scoped } in
          let v : TypedLoop raw = record {
            raw = gather-Typed P st.raw_candidates scoped w.raw h;
            collected = w.collected;
            reranked = w.reranked;
          } in
          let r = ranked_for-Typed step query scoped raw h v in
          record {
            raw = r.raw;
            collected = gather-Typed P _ _ r.collected r.reranked;
            reranked = r.reranked;
          }

      retrieve_all-Typed :
          (step : ℕ) (queries : List String) (st : RagLoop)
          → TypedLoop st
          → TypedLoop (retrieve_all host request chunks types graph step queries st)
      unfolding retrieve_all
      retrieve_all-Typed step [] st w = w
      retrieve_all-Typed step (query ∷ queries) st w =
          let next = retrieve_once host request chunks types graph step query st in
          let n = retrieve_once-Typed step query st w in
          elim (Bool-cases (
            leb request.min_confidence
              (estimate_confidence host.log_gain next.gathered types graph))) [
                | inl e ↦ rw e n
                | inr e ↦ rw e (retrieve_all-Typed (suc step) queries next n)
              ]

    or_gathered-Typed :
        (raw gathered : List ContextChunk)
        → Typed P raw
        → Typed P gathered
        → Typed P (or_gathered raw gathered)
    or_gathered-Typed [] gathered r g = g
    or_gathered-Typed (c ∷ cs) gathered r g = r

    final_rerank-Typed : (st : RagLoop) → TypedLoop st → Typed P (final_rerank host request st).0
    unfolding final_rerank
    final_rerank-Typed st w =
        let candidates = or_gathered st.raw_candidates st.gathered in
        elim (Bool-cases (
          (compute_fingerprint host.digest candidates == st.last_fingerprint)
          && not (is_blank st.last_fingerprint))) [
            | inl e ↦ rw e (take-Typed P request.top_k st.last_reranked w.reranked)
            | inr e ↦ rw e (
                rerank-Typed P host.lower request.query candidates request.top_k
                  (or_gathered-Typed st.raw_candidates st.gathered w.raw w.collected))
          ]

-- Where a chunk of the wanted types is there at all: every hit and every raw hit of
-- `agentic_retrieve` is of a wanted type.
pub agentic_retrieve-Typed :
    (host : Host) (request : AgenticRequest) (chunks : List ContextChunk)
    → none_of (filter (of_types (types_of host request chunks)) chunks) ≡ false
    → Typed
        (λ t. contains (allowed_types (types_of host request chunks)) t ≡ true)
        (agentic_retrieve host request chunks).reranked_hits
      × Typed
          (λ t. contains (allowed_types (types_of host request chunks)) t ≡ true)
          (agentic_retrieve host request chunks).raw_hits
unfolding agentic_retrieve
agentic_retrieve-Typed host request chunks h =
    let types = types_of host request chunks in
    let P : String → Type 0 = λ t. contains (allowed_types types) t ≡ true in
    let graph = graph_of host request chunks in
    let w =
      retrieve_all-Typed P host request chunks types graph (filter_chunks-of_types chunks types h) 1
        (queries_of host request chunks) new_loop
        (record { raw = tt; collected = tt; reranked = tt }) in
    (
      final_rerank-Typed P host request _ w,
      take-Typed P (max 1 (request.top_k * step_limit host request)) _ w.raw,
    )
