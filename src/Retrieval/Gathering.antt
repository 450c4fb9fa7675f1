-- ===== src/Retrieval/Gathering.antt =====
-- nodes/retrieval.py: what the loop gathers, and why it can end early.
use allcallall_agent_runtime.Common.{
  All, Bool, Bool-cases, List, String, [], ap, arith, eq_iff, false, if◌then◌else◌, inl, inr, map,
  or_left, refl, true, ◌++◌, ◌||◌, ◌∷◌, ◌≡◌,
}
use allcallall_agent_runtime.Common.Eq.{contains, contains-append, string_eq, ◌==◌}
use allcallall_agent_runtime.Common.Distinct.{Distinct, Distinct-snoc, Listed}
use allcallall_agent_runtime.Retrieval.State.{ContextChunk, RetrievalAttempt}
use allcallall_agent_runtime.Retrieval.Helpers.{chunk_key}
use allcallall_agent_runtime.Retrieval.Loop.{LoopState, gather}
use allcallall_agent_runtime.Retrieval.Remembering.{IsBounded}

abbrev pub keys : List ContextChunk → List String
keys chunks = map chunk_key chunks

keys-append : (xs ys : List ContextChunk) → keys (xs ++ ys) ≡ keys xs ++ keys ys
keys-append [] ys = refl
keys-append (x ∷ xs) ys = ap (◌∷◌ (chunk_key x)) (keys-append xs ys)

-- `gather` of one chunk.
abbrev seen_or_added : List ContextChunk → ContextChunk → List ContextChunk
seen_or_added gathered chunk =
    if contains (keys gathered) (chunk_key chunk) then gathered else gathered ++ chunk ∷ []

added-Distinct :
    (gathered : List ContextChunk) (chunk : ContextChunk)
    → Distinct (keys gathered)
    → Distinct (keys (seen_or_added gathered chunk))
added-Distinct gathered chunk d = elim (Bool-cases (contains (keys gathered) (chunk_key chunk))) [
  | inl e ↦ rw e d
  | inr e ↦
      rw (e, keys-append gathered (chunk ∷ []))
        (Distinct-snoc (keys gathered) (chunk_key chunk) d e)
]

added-keeps :
    (gathered : List ContextChunk) (chunk : ContextChunk) (k : String)
    → contains (keys gathered) k ≡ true
    → contains (keys (seen_or_added gathered chunk)) k ≡ true
added-keeps gathered chunk k h = elim (Bool-cases (contains (keys gathered) (chunk_key chunk))) [
  | inl e ↦ rw e h
  | inr e ↦
      rw
        (
          e,
          keys-append gathered (chunk ∷ []),
          contains-append (keys gathered) (chunk_key chunk ∷ []) k,
        )
        (or_left _ _ h)
]

or_self : (a : Bool) (k : String) → (a || (k == k || false)) ≡ true
or_self a k = ground (arith, eq_iff k k)

added-has :
    (gathered : List ContextChunk) (chunk : ContextChunk)
    → contains (keys (seen_or_added gathered chunk)) (chunk_key chunk) ≡ true
unfolding contains
added-has gathered chunk = elim (Bool-cases (contains (keys gathered) (chunk_key chunk))) [
  | inl e ↦ rw e e
  | inr e ↦
      rw
        (
          e,
          keys-append gathered (chunk ∷ []),
          contains-append (keys gathered) (chunk_key chunk ∷ []) (chunk_key chunk),
        )
        (or_self _ (chunk_key chunk))
]

pub gather-Distinct :
    (gathered chunks : List ContextChunk)
    → Distinct (keys gathered)
    → Distinct (keys (gather gathered chunks))
unfolding gather
gather-Distinct gathered [] d = d
gather-Distinct gathered (chunk ∷ chunks) d =
    gather-Distinct (seen_or_added gathered chunk) chunks (added-Distinct gathered chunk d)

pub gather-keeps :
    (gathered chunks : List ContextChunk) (k : String)
    → contains (keys gathered) k ≡ true
    → contains (keys (gather gathered chunks)) k ≡ true
unfolding gather
gather-keeps gathered [] k h = h
gather-keeps gathered (chunk ∷ chunks) k h =
    gather-keeps (seen_or_added gathered chunk) chunks k (added-keeps gathered chunk k h)

pub gather-Listed :
    (gathered chunks : List ContextChunk) → Listed (keys (gather gathered chunks)) (keys chunks)
unfolding gather
gather-Listed gathered [] = tt
gather-Listed gathered (chunk ∷ chunks) = (
  gather-keeps (seen_or_added gathered chunk) chunks (chunk_key chunk) (added-has gathered chunk),
  gather-Listed (seen_or_added gathered chunk) chunks,
)

gather-Listed_before :
    (gathered chunks : List ContextChunk) (ids : List String)
    → Listed (keys gathered) ids
    → Listed (keys (gather gathered chunks)) ids
gather-Listed_before gathered chunks [] h = tt
gather-Listed_before gathered chunks (i ∷ ids) (h, hs) =
    (gather-keeps gathered chunks i h, gather-Listed_before gathered chunks ids hs)

abbrev AttemptsListed : List String → List RetrievalAttempt → Type 0
AttemptsListed ks attempts = All (λ a. Listed ks a.selected_chunk_ids) attempts

pub attempts_kept :
    (gathered chunks : List ContextChunk) (attempts : List RetrievalAttempt)
    → AttemptsListed (keys gathered) attempts
    → AttemptsListed (keys (gather gathered chunks)) attempts
attempts_kept gathered chunks [] h = tt
attempts_kept gathered chunks (a ∷ attempts) (h, hs) = (
  gather-Listed_before gathered chunks a.selected_chunk_ids h,
  attempts_kept gathered chunks attempts hs,
)

-- Of the loop's variables: no two gathered chunks share a key; every attempt's chunks are among the
-- gathered ones, by key; the cache keeps its bound.
pub record IsGathered (st : LoopState) : Type 0 where
  pub distinct : Distinct (keys st.gathered)
  pub listed : AttemptsListed (keys st.gathered) st.attempts
  pub cached : IsBounded st.cache
