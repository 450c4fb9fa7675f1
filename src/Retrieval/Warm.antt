-- ===== src/Retrieval/Warm.antt =====
-- nodes/retrieval.py and retrieval.py: reranking with a warm cache and without.
use allcallall_agent_runtime.Common.{
  Bool-cases, List, Option, String, [], ap, inl, inr, length, le→ltb-false, ltb, none, not, refl,
  some, ◌&&◌, ◌∷◌, ◌≡◌, ◌≤◌,
}
use allcallall_agent_runtime.Common.Eq.{string_eq}
use allcallall_agent_runtime.Common.Distinct.{Distinct, Unlisted-cons, all-Unlisted, Unlisted}
use allcallall_agent_runtime.Retrieval.State.{ContextChunk, Request}
use allcallall_agent_runtime.Retrieval.Helpers.{chunk_key, first_by, none_of}
use allcallall_agent_runtime.Retrieval.Cache.{RunRetrievalCache}
use allcallall_agent_runtime.Retrieval.Rerank.{
  cheap_cut, narrowed, prepare_candidates, rerank_prepared,
}
use allcallall_agent_runtime.Retrieval.Nodes.{rerank_cold, rerank_context, rerank_warm}
use allcallall_agent_runtime.Retrieval.Gathering.{keys}

-- Chunks with keys of their own are kept as they are.
first_by-id :
    (seen : List String) (chunks : List ContextChunk)
    → Distinct (keys chunks)
    → Unlisted seen (keys chunks)
    → first_by chunk_key seen chunks ≡ chunks
unfolding first_by
first_by-id seen [] d u = refl
first_by-id seen (chunk ∷ chunks) (fresh, d) (u, us) = rw u (
    ap (◌∷◌ chunk) (
      first_by-id (chunk_key chunk ∷ seen) chunks d
        (Unlisted-cons (chunk_key chunk) (keys chunks) fresh seen us)))

module _ (lower digest : String → String) where
  -- Where no two chunks share a key and there are at most 16, `rerank_context` returns the same
  -- chunks in the same order with a warm cache as without one.
  pub rerank_context-warm :
      (request : Request) (cache : Option RunRetrievalCache) (chunks : List ContextChunk)
      → Distinct (keys chunks)
      → length chunks ≤ 16
      → rerank_context lower digest request cache chunks
        ≡ rerank_context lower digest request none chunks
  unfolding rerank_context rerank_warm rerank_cold rerank_prepared prepare_candidates narrowed
      cheap_cut
  rerank_context-warm request none chunks d le = refl
  rerank_context-warm request (some cache) chunks d le =
      elim (Bool-cases (ltb 0 (length cache.entries) && not (none_of chunks))) [
        | inl e ↦
            rw
              (
                e,
                first_by-id [] chunks d (all-Unlisted (keys chunks)),
                le→ltb-false 16 (length chunks) le,
              )
              refl
        | inr e ↦ rw e refl
      ]
