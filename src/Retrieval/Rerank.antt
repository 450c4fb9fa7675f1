-- ===== src/Retrieval/Rerank.antt =====
-- retrieval.py: scoring, reranking and the preparation of candidates. Scores are exact hundredths,
-- where the source adds floats. `lower` is `str.lower`, `digest` the first 16 characters of the
-- SHA-256 digest of a text in hexadecimal.
use Prim.Native.Char.{Char, code}
use Prim.Native.String.{◌++◌ as ◌<>◌, compare}
use text.Mathlib.Text.{is_lt}
use allcallall_agent_runtime.Common.{
  Bool, List, String, [], false, if◌then◌else◌, leb, length, ltb, map, not, suc, take, true, ℕ,
  ◌&&◌, ◌*◌, ◌+◌, ◌||◌, ◌∷◌,
}
use allcallall_agent_runtime.Common.Eq.{contains, ◌==◌, string_eq}
use allcallall_agent_runtime.Common.Int.{leb_ℤ, pos_part, sub_ℕ, ℤ}
use allcallall_agent_runtime.Common.Text.{char_count, is_blank, join, split_at, strip, within}
use allcallall_agent_runtime.Retrieval.State.{ContextChunk, RetrievalPlanStep}
use allcallall_agent_runtime.Retrieval.Helpers.{chunk_key, filter, first_by, scoped_chunks}

-- [0-9A-Za-z\u4e00-\u9fff]
unfoldable pub is_token_char : Char → Bool
is_token_char c =
    let n = code c in
    (leb 48 n && leb n 57)
    || ((leb 65 n && leb n 90) || ((leb 97 n && leb n 122) || (leb 19968 n && leb n 40959)))

-- The tokens of a list that are long enough, each once; `split_at` cuts at every separator, so
-- that it gives empty pieces besides, which are too short.
unfoldable pub long_tokens : List String → List String
long_tokens pieces = first_by (λ t. t) [] (filter (λ t. leb 2 (char_count t)) (map strip pieces))

-- list.sort(key=score, reverse=True): descending, equal scores in their order.
module _ {ℓ} {A : Type ℓ} (score : A → ℤ) where
  unfoldable pub insert_by : A → List A → List A
  insert_by x [] = x ∷ []
  insert_by x (y ∷ ys) =
      let rest = insert_by x ys in if leb_ℤ (score y) (score x) then x ∷ y ∷ ys else y ∷ rest

  unfoldable pub sort_by : List A → List A
  sort_by [] = []
  sort_by (x ∷ xs) = insert_by x (sort_by xs)

-- source_boost, in hundredths
unfoldable pub source_boost : String → ℕ
source_boost kind =
    if kind == "meeting_transcript"
    then 500
    else if kind == "knowledge"
    then 400
    else if kind == "transcript"
    then 300
    else if kind == "followup"
    then 250
    else if kind == "memory"
    then 200
    else if kind == "note"
    then 150
    else if kind == "message"
    then 100
    else 0

-- sum(1 for token in tokens if token and token in text)
unfoldable pub overlap : List String → String → ℕ
overlap tokens text = length (filter (λ t. not (is_blank t) && within t text) tokens)

abbrev pub rerank_score_of : ContextChunk → ℤ
rerank_score_of chunk = chunk.rerank_score

abbrev pub score_of : ContextChunk → ℤ
score_of chunk = chunk.score

-- for index, chunk in enumerate(scored, start=index): chunk.final_rank = index
unfoldable pub numbered : ℕ → List ContextChunk → List ContextChunk
numbered index [] = []
numbered index (chunk ∷ chunks) = record chunk { final_rank = index } ∷ numbered (suc index) chunks

-- The fields of `PreparedCandidates` but its two counts.
pub record PreparedCandidates : Type 0 where
  pub query : String
  pub source_types : List String
  pub chunks : List ContextChunk
  pub tokens : List String
  pub fingerprint : String

-- source_types and source_types != ["all"]
abbrev narrows : List String → Bool
narrows [] = false
narrows (t ∷ []) = not (t == "all")
narrows (t ∷ u ∷ us) = true

unfoldable pub narrowed : List String → List ContextChunk → List ContextChunk
narrowed kinds chunks =
    if narrows kinds then filter (λ c. contains kinds c.source_type) chunks else chunks

-- sorted(keys), a key that occurs twice twice
unfoldable pub insert_key : String → List String → List String
insert_key v [] = v ∷ []
insert_key v (w ∷ ws) =
    let rest = insert_key v ws in if is_lt (compare w v) then w ∷ rest else v ∷ w ∷ ws

unfoldable pub sorted_keys : List String → List String
sorted_keys [] = []
sorted_keys (v ∷ vs) = insert_key v (sorted_keys vs)

module _ (digest : String → String) where
  unfoldable pub compute_context_fingerprint : List ContextChunk → String
  compute_context_fingerprint [] = ""
  compute_context_fingerprint (chunk ∷ chunks) =
      digest (join "|" (sorted_keys (map chunk_key (chunk ∷ chunks))))

module _ (lower : String → String) where
  unfoldable pub tokenize : String → List String
  tokenize text = long_tokens (split_at (λ c. not (is_token_char c)) (lower text))

  -- `rules_score`: the score and the two overlaps of its reason.
  unfoldable pub rules_score : ContextChunk → List String → ℕ → ℤ × (ℕ × ℕ)
  rules_score chunk tokens index =
      let title = lower (chunk.title <> (" " <> chunk.source_title)) in
      let text = lower (chunk.title <> (" " <> (chunk.source_title <> (" " <> chunk.snippet)))) in
      let gained = overlap tokens text * 1000 + overlap tokens title * 800 in
      (
        sub_ℕ (gained + source_boost chunk.source_type + pos_part chunk.score) index,
        (overlap tokens text, overlap tokens title),
      )

  -- The first loop of `rerank_context_chunks`, from `index` on.
  unfoldable pub scored : List String → ℕ → List ContextChunk → List ContextChunk
  scored tokens index [] = []
  scored tokens index (chunk ∷ chunks) =
      let (score, reason) = rules_score chunk tokens index in
      record chunk { rerank_score = score; rerank_reason = reason; final_rank = 0 }
      ∷ scored tokens (suc index) chunks

  unfoldable pub rerank_context_chunks : String → ℕ → List ContextChunk → List ContextChunk
  rerank_context_chunks query limit chunks =
      numbered 1 (take limit (sort_by rerank_score_of (scored (tokenize query) 0 chunks)))

  -- The cut to 2 * top_k by the first score.
  unfoldable pub cheap_cut : ℕ → List ContextChunk → List ContextChunk
  cheap_cut top_k chunks =
      if ltb (top_k * 2) (length chunks) then take (top_k * 2) (sort_by score_of chunks) else chunks

  unfoldable pub rerank_prepared : ℕ → PreparedCandidates → List ContextChunk
  rerank_prepared top_k prepared =
      rerank_context_chunks prepared.query top_k (cheap_cut top_k prepared.chunks)

  unfoldable pub local_agentic_retrieval : List ContextChunk → RetrievalPlanStep → List ContextChunk
  local_agentic_retrieval chunks step =
      rerank_context_chunks step.query 6 (scoped_chunks chunks step.source_scope)

  module _ (digest : String → String) where
    unfoldable pub prepare_candidates :
        String → List ContextChunk → List String → PreparedCandidates
    prepare_candidates query chunks kinds =
        let deduped = first_by chunk_key [] (narrowed kinds chunks) in
        record {
          query = query;
          source_types = sorted_keys kinds;
          chunks = deduped;
          tokens = tokenize query;
          fingerprint = compute_context_fingerprint digest deduped;
        }
