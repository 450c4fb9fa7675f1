-- ===== src/Retrieval/Cache.antt =====
-- retrieval.py: `RunRetrievalCache`. The dictionary keeps its entries in the order in which their
-- keys came in. `lower` is `str.lower`, whose tables stand in the Unicode standard.
use allcallall_agent_runtime.Common.{
  Bool, List, Option, String, [], arith, eq_iff, false, if◌then◌else◌, leb, length, none, some, suc,
  true, ℕ, ◌&&◌, ◌↔◌, ◌∷◌, ◌≡◌,
}
use allcallall_agent_runtime.Common.Eq.{Eq, ◌==◌, string_eq}
use allcallall_agent_runtime.Common.Dict.{Dict, get, lacks, put}
use allcallall_agent_runtime.Common.Text.{squeeze}
use allcallall_agent_runtime.Retrieval.State.{
  ContextChunk, Strategy, adaptive, graph_augmented, multi_hop, none_at_all, single_pass,
}

-- (normalized_query, source_scope, retrieval_policy, context_fingerprint, corpus_version)
pub record CacheKey : Type 0 where
  pub normalized_query : String
  pub source_scope : String
  pub policy : Strategy
  pub context_fingerprint : String
  pub corpus_version : String

abbrev pub same_strategy : Strategy → Strategy → Bool
same_strategy none_at_all none_at_all = true
same_strategy single_pass single_pass = true
same_strategy adaptive adaptive = true
same_strategy graph_augmented graph_augmented = true
same_strategy multi_hop multi_hop = true
same_strategy _ _ = false

abbrev same_key : CacheKey → CacheKey → Bool
same_key j k =
    j.normalized_query == k.normalized_query
    && (j.source_scope == k.source_scope
        && (same_strategy j.policy k.policy
            && (j.context_fingerprint == k.context_fingerprint
                && j.corpus_version == k.corpus_version)))

pub same_strategy_iff : (p q : Strategy) → (same_strategy p q ≡ true) ↔ (p ≡ q)
same_strategy_iff p q = ground arith

pub same_key_iff : (j k : CacheKey) → (same_key j k ≡ true) ↔ (j ≡ k)
same_key_iff j k = ground (
  arith,
  eq_iff j.normalized_query k.normalized_query,
  eq_iff j.source_scope k.source_scope,
  same_strategy_iff j.policy k.policy,
  eq_iff j.context_fingerprint k.context_fingerprint,
  eq_iff j.corpus_version k.corpus_version,
)

instance abbrev pub key_eq : Eq CacheKey
key_eq = record { same = same_key; same_iff = same_key_iff }

pub record RunRetrievalCache : Type 0 where
  pub max_entries : ℕ
  pub entries : Dict CacheKey (List ContextChunk)
  pub hits : ℕ
  pub misses : ℕ

-- RunRetrievalCache()
abbrev pub new_cache : RunRetrievalCache
new_cache = record { max_entries = 16; entries = []; hits = 0; misses = 0 }

unfoldable pub lookup :
    RunRetrievalCache → CacheKey → RunRetrievalCache × Option (List ContextChunk)
lookup cache key = elim (get cache.entries key) [
  | none ↦ (record cache { misses = suc cache.misses }, none)
  | some entry ↦ (record cache { hits = suc cache.hits }, some entry)
]

-- del self._cache[next(iter(self._cache))]; with no entry, `next` raises.
unfoldable pub evict_oldest :
    Dict CacheKey (List ContextChunk) → Option (Dict CacheKey (List ContextChunk))
evict_oldest [] = none
evict_oldest ((k, v) ∷ entries) = some entries

-- The room that `put` makes.
unfoldable pub make_room : RunRetrievalCache → CacheKey → Option (Dict CacheKey (List ContextChunk))
make_room cache key =
    if lacks cache.entries key && leb cache.max_entries (length cache.entries)
    then evict_oldest cache.entries
    else some cache.entries

unfoldable pub store : RunRetrievalCache → CacheKey → List ContextChunk → Option RunRetrievalCache
store cache key chunks = elim (make_room cache key) [
  | none ↦ none
  | some room ↦ some (record cache { entries = put room key chunks })
]

module _ (lower : String → String) where
  -- _make_cache_key
  unfoldable pub make_cache_key : String → String → Strategy → String → String → CacheKey
  make_cache_key query scope policy fingerprint version = record {
    normalized_query = squeeze (lower query);
    source_scope = scope;
    policy = policy;
    context_fingerprint = fingerprint;
    corpus_version = version;
  }
