-- ===== src/RagRuntime/Typed.antt =====
-- Reranking and gathering keep the source types of their chunks.
use allcallall_agent_runtime.Common.{
  All, All-append, Bool-cases, List, String, [], inl, inr, map, max, suc, take, zero, ℕ, ◌++◌, ◌∷◌,
}
use allcallall_agent_runtime.Common.Eq.{contains, string_eq}
use allcallall_agent_runtime.Common.Int.{leb_ℤ}
use allcallall_agent_runtime.RagRuntime.Scoring.{query_tokens, rerank, score_chunks}
use allcallall_agent_runtime.Retrieval.State.{ContextChunk}
use allcallall_agent_runtime.Retrieval.Helpers.{chunk_key}
use allcallall_agent_runtime.Retrieval.Rerank.{insert_by, numbered, rerank_score_of, sort_by}
use allcallall_agent_runtime.Retrieval.Loop.{gather}

abbrev pub Typed : (String → Type 0) → List ContextChunk → Type 0
Typed P chunks = All (λ c. P c.source_type) chunks

module _ (P : String → Type 0) where
  pub take-Typed : (n : ℕ) (chunks : List ContextChunk) → Typed P chunks → Typed P (take n chunks)
  take-Typed zero chunks h = tt
  take-Typed (suc n) [] h = tt
  take-Typed (suc n) (c ∷ cs) (h, hs) = (h, take-Typed n cs hs)

  numbered-Typed :
      (i : ℕ) (chunks : List ContextChunk) → Typed P chunks → Typed P (numbered i chunks)
  unfolding numbered
  numbered-Typed i [] h = tt
  numbered-Typed i (c ∷ cs) (h, hs) = (h, numbered-Typed (suc i) cs hs)

  insert_by-Typed :
      (c : ContextChunk) (chunks : List ContextChunk)
      → P c.source_type
      → Typed P chunks
      → Typed P (insert_by rerank_score_of c chunks)
  unfolding insert_by
  insert_by-Typed c [] h hs = (h, tt)
  insert_by-Typed c (d ∷ ds) h (k, ks) = elim (Bool-cases (leb_ℤ d.rerank_score c.rerank_score)) [
    | inl e ↦ rw e (h, (k, ks))
    | inr e ↦ rw e (k, insert_by-Typed c ds h ks)
  ]

  sort_by-Typed :
      (chunks : List ContextChunk) → Typed P chunks → Typed P (sort_by rerank_score_of chunks)
  unfolding sort_by
  sort_by-Typed [] h = tt
  sort_by-Typed (c ∷ cs) (h, hs) =
      insert_by-Typed c (sort_by rerank_score_of cs) h (sort_by-Typed cs hs)

  score_chunks-Typed :
      (lower : String → String) (tokens : List String) (i : ℕ) (chunks : List ContextChunk)
      → Typed P chunks
      → Typed P (score_chunks lower tokens i chunks)
  unfolding score_chunks
  score_chunks-Typed lower tokens i [] h = tt
  score_chunks-Typed lower tokens i (c ∷ cs) (h, hs) =
      (h, score_chunks-Typed lower tokens (suc i) cs hs)

  pub rerank-Typed :
      (lower : String → String) (query : String) (chunks : List ContextChunk) (k : ℕ)
      → Typed P chunks
      → Typed P (rerank lower query chunks k)
  unfolding rerank
  rerank-Typed lower query chunks k h = numbered-Typed 1 _ (
      take-Typed (max 1 k) _
        (sort_by-Typed _ (score_chunks-Typed lower (query_tokens lower query) 0 chunks h)))

  pub gather-Typed :
      (gathered chunks : List ContextChunk)
      → Typed P gathered
      → Typed P chunks
      → Typed P (gather gathered chunks)
  unfolding gather
  gather-Typed gathered [] g h = g
  gather-Typed gathered (c ∷ cs) g (h, hs) =
      elim (Bool-cases (contains (map chunk_key gathered) (chunk_key c))) [
        | inl e ↦ rw e (gather-Typed gathered cs g hs)
        | inr e ↦ rw e (
            gather-Typed (gathered ++ c ∷ []) cs
              (All-append (λ x. P x.source_type) gathered (c ∷ []) g (h, tt)) hs)
      ]
