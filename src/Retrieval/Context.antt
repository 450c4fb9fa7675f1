-- ===== src/Retrieval/Context.antt =====
-- nodes/retrieval.py: which chunks stand in the retrieved context, and in what order.
use allcallall_agent_runtime.Common.{Bool-cases, List, [], ap, inl, inr, refl, ◌++◌, ◌∙◌, ◌∷◌, ◌≡◌}
use allcallall_agent_runtime.Common.Eq.{contains, string_eq}
use allcallall_agent_runtime.Common.Distinct.{Distinct, Listed, Unlisted, Unlisted-snoc}
use allcallall_agent_runtime.Retrieval.State.{ContextChunk, Request}
use allcallall_agent_runtime.Retrieval.Helpers.{chunk_key}
use allcallall_agent_runtime.Retrieval.Loop.{gather}
use allcallall_agent_runtime.Retrieval.Nodes.{retrieve_context}
use allcallall_agent_runtime.Retrieval.Gathering.{gather-Listed, keys}

-- `out` is `given` and behind it what `added` adds to it: each key once, none of them in `given`.
pub record IsCombined (given more out : List ContextChunk) : Type 0 where
  pub added : List ContextChunk
  pub whole : out ≡ given ++ added
  pub once : Distinct (keys added)
  pub fresh : Unlisted (keys given) (keys added)
  pub listed : Listed (keys out) (keys more)

append_assoc :
    (xs : List ContextChunk) (y : ContextChunk) (zs : List ContextChunk)
    → (xs ++ y ∷ []) ++ zs ≡ xs ++ y ∷ zs
append_assoc [] y zs = refl
append_assoc (x ∷ xs) y zs = ap (◌∷◌ x) (append_assoc xs y zs)

append_nil : (xs : List ContextChunk) → xs ≡ xs ++ []
append_nil [] = refl
append_nil (x ∷ xs) = ap (◌∷◌ x) (append_nil xs)

keys_snoc :
    (xs : List ContextChunk) (y : ContextChunk) → keys (xs ++ y ∷ []) ≡ keys xs ++ chunk_key y ∷ []
keys_snoc [] y = refl
keys_snoc (x ∷ xs) y = ap (◌∷◌ (chunk_key x)) (keys_snoc xs y)

added_to :
    (given more : List ContextChunk)
    → (added : List ContextChunk) × ((gather given more ≡ given ++ added)
        × (Distinct (keys added) × Unlisted (keys given) (keys added)))
unfolding gather
added_to given [] = ([], (append_nil given, (tt, tt)))
added_to given (chunk ∷ more) = elim (Bool-cases (contains (keys given) (chunk_key chunk))) [
  | inl e ↦ rw e (added_to given more)
  | inr e ↦
      let (added, (whole, (once, fresh))) = added_to (given ++ chunk ∷ []) more in
      let (out, apart) =
        Unlisted-snoc (keys given) (chunk_key chunk) (keys added)
          (rw (keys_snoc given chunk) at fresh) in
      rw e (chunk ∷ added, (whole ∙ append_assoc given chunk added, ((apart, once), (e, out))))
]

-- The retrieved context is the preloaded chunks, in their order, and behind them chunks under new
-- keys, each key once; every chunk that the loop gathered is there by its key.
pub retrieve_context-IsCombined :
    (request : Request) (agentic : List ContextChunk)
    → IsCombined request.context_chunks agentic (retrieve_context request agentic)
unfolding retrieve_context
retrieve_context-IsCombined request agentic =
    let (added, (whole, (once, fresh))) = added_to request.context_chunks agentic in
    record {
      added = added;
      whole = whole;
      once = once;
      fresh = fresh;
      listed = gather-Listed request.context_chunks agentic;
    }
