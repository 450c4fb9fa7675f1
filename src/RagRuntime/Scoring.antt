-- ===== src/RagRuntime/Scoring.antt =====
-- shared/scoring.py and the first half of the RAG runtime's retrieval.py: tokens, scores, the rerank
-- and the fingerprint. Scores are exact hundredths, where the source adds floats; of the reason of a
-- score only the overlap is kept. `lower` is `str.lower`, `digest` the first 16 characters of the
-- SHA-256 digest of a text in hexadecimal.
use Prim.Native.String.{◌++◌ as ◌<>◌}
use allcallall_agent_runtime.Common.{
  List, String, [], if◌then◌else◌, leb, length, map, max, not, suc, take, ℕ, ◌&&◌, ◌*◌, ◌+◌, ◌∷◌,
}
use allcallall_agent_runtime.Common.Eq.{contains, string_eq, ◌==◌}
use allcallall_agent_runtime.Common.Int.{pos_part, sub_ℕ, ℤ}
use allcallall_agent_runtime.Common.Text.{char_count, is_blank, join, split_at, strip, within}
use allcallall_agent_runtime.Retrieval.State.{ContextChunk}
use allcallall_agent_runtime.Retrieval.Helpers.{chunk_key, filter, first_by, none_of}
use allcallall_agent_runtime.Retrieval.Rerank.{
  is_token_char, numbered, overlap, rerank_score_of, sort_by, sorted_keys,
}

-- The stopwords of `tokenize`.
unfoldable pub stopwords : List String
stopwords = "a" ∷ "an" ∷ "and" ∷ "are" ∷ "for" ∷ "the" ∷ "to" ∷ "with" ∷ "what" ∷ "which" ∷ []

-- The tokens of a list: long enough, no stopwords, each once. `split_at` cuts at every separator, so
-- that it gives empty pieces besides, which are too short.
unfoldable pub content_tokens : List String → List String
content_tokens pieces =
    first_by (λ t. t) []
      (filter (λ t. leb 2 (char_count t) && not (contains stopwords t)) (map strip pieces))

-- _RAG_SOURCE_BOOSTS, in hundredths
unfoldable pub rag_source_boost : String → ℕ
rag_source_boost kind =
    if kind == "meeting_transcript"
    then 600
    else if kind == "knowledge"
    then 500
    else if contains ("message" ∷ "note" ∷ "followup" ∷ []) kind
    then 200
    else if kind == "memory"
    then 150
    else 0

module _ (digest : String → String) where
  unfoldable pub compute_fingerprint : List ContextChunk → String
  compute_fingerprint [] = ""
  compute_fingerprint (chunk ∷ chunks) =
      digest (join "|" (sorted_keys (map chunk_key (chunk ∷ chunks))))

-- {item.strip() for item in source_types if item.strip()}
abbrev pub allowed_types : List String → List String
allowed_types types = filter (λ t. not (is_blank t)) (map strip types)

-- scoped or chunks
abbrev pub or_all : List ContextChunk → List ContextChunk → List ContextChunk
or_all [] chunks = chunks
or_all (c ∷ cs) chunks = c ∷ cs

unfoldable pub filter_chunks : List ContextChunk → List String → List ContextChunk
filter_chunks chunks types =
    let allowed = allowed_types types in
    if contains allowed "none"
    then []
    else if none_of allowed
    then chunks
    else or_all (filter (λ c. contains allowed c.source_type) chunks) chunks

module _ (lower : String → String) where
  -- tokenize(text, remove_stopwords=True)
  unfoldable pub query_tokens : String → List String
  query_tokens text = content_tokens (split_at (λ c. not (is_token_char c)) (lower text))

  unfoldable pub rules_score_rag : ContextChunk → List String → ℕ → ℤ × ℕ
  rules_score_rag chunk tokens index =
      let text = lower (chunk.title <> (" " <> (chunk.source_title <> (" " <> chunk.snippet)))) in
      let overlap = length (filter (λ t. within t text) tokens) in
      (
        sub_ℕ (overlap * 1000 + rag_source_boost chunk.source_type + pos_part chunk.score) index,
        overlap,
      )

  -- The first loop of `rerank`, from `index` on.
  unfoldable pub score_chunks : List String → ℕ → List ContextChunk → List ContextChunk
  score_chunks tokens index [] = []
  score_chunks tokens index (chunk ∷ chunks) =
      let (score, overlap) = rules_score_rag chunk tokens index in
      record chunk { rerank_score = score; rerank_reason = (overlap, 0) }
      ∷ score_chunks tokens (suc index) chunks

  unfoldable pub rerank : String → List ContextChunk → ℕ → List ContextChunk
  rerank query chunks top_k =
      numbered 1
        (take (max 1 top_k) (sort_by rerank_score_of (score_chunks (query_tokens query) 0 chunks)))
