-- ===== src/Retrieval/Remembering.antt =====
-- What the retrieval cache answers after a call of `put`.
use allcallall_agent_runtime.Common.{
  Bool, Bool-cases, List, [], ap, arith, clash_none, false, if◌then◌else◌, inl, inr, leb, leb-false,
  leb→le, length, refl, some, some-injective, suc, sym, true, ℕ, ◌&&◌, ◌∙◌, ◌∷◌, ◌≡◌, ◌≤◌, ◌⊎◌,
}
use allcallall_agent_runtime.Common.Eq.{==_refl, ◌==◌, string_eq}
use allcallall_agent_runtime.Common.Dict.{Dict, get, get-put, lacks, length-put, put}
use allcallall_agent_runtime.Retrieval.State.{ContextChunk}
use allcallall_agent_runtime.Retrieval.Cache.{
  CacheKey, RunRetrievalCache, evict_oldest, key_eq, lookup, make_room, store,
}

abbrev Entries : Type 0
Entries = Dict CacheKey (List ContextChunk)

and_right : (a b : Bool) → (a && b) ≡ true → b ≡ true
and_right a b h = ground arith

and_false_right : (a b : Bool) → a ≡ true → (a && b) ≡ false → b ≡ false
and_false_right a b h k = ground arith

-- `key` is the first key of `d`.
abbrev pub is_oldest : Entries → CacheKey → Bool
is_oldest [] key = false
is_oldest ((k, v) ∷ d) key = k == key

-- `put` of this key drops the first entry.
abbrev pub evicts : RunRetrievalCache → CacheKey → Bool
evicts cache key = lacks cache.entries key && leb cache.max_entries (length cache.entries)

-- The entries are at most max_entries, which is positive.
pub record IsBounded (cache : RunRetrievalCache) : Type 0 where
  pub positive : 1 ≤ cache.max_entries
  pub bounded : length cache.entries ≤ cache.max_entries

-- What a cache `after` a `put` of `chunks` under `key` answers.
pub record Remembers (cache after : RunRetrievalCache) (key : CacheKey) (chunks : List ContextChunk)
    : Type 0 where
  pub found : lookup after key ≡ (record after { hits = suc after.hits }, some chunks)
  pub others :
      (q : CacheKey)
      → (get after.entries q ≡ (if key == q then some chunks else get cache.entries q))
        ⊎ ((evicts cache key && is_oldest cache.entries q) ≡ true)
  pub still : IsBounded after

evict-get :
    (d room : Entries) (q : CacheKey)
    → evict_oldest d ≡ some room
    → is_oldest d q ≡ false
    → get room q ≡ get d q
unfolding evict_oldest get
evict-get [] room q e h = clash_none e
evict-get ((k, v) ∷ d) room q e h = rw h (ap (λ r. get r q) (sym (some-injective e)))

evict-length : (d room : Entries) → evict_oldest d ≡ some room → suc (length room) ≡ length d
unfolding evict_oldest
evict-length [] room e = clash_none e
evict-length ((k, v) ∷ d) room e = ap (λ r. suc (length r)) (sym (some-injective e))

length-positive : (d : Entries) → 1 ≤ length d → (room : Entries) × (evict_oldest d ≡ some room)
unfolding evict_oldest
length-positive [] h = absurd (omega arith)
length-positive (x ∷ d) h = (d, refl)

-- The room that `make_room` makes.
record HasRoom (cache : RunRetrievalCache) (key : CacheKey) (room : Entries) : Type 0 where
  made : make_room cache key ≡ some room
  fits :
      suc (length room) ≤ cache.max_entries
      ⊎ ((lacks room key ≡ false) × (length room ≤ cache.max_entries))
  kept :
      (q : CacheKey)
      → (key == q) ≡ false
      → (evicts cache key && is_oldest cache.entries q) ≡ false
      → get room q ≡ get cache.entries q

make_room-some :
    (cache : RunRetrievalCache) (key : CacheKey)
    → IsBounded cache
    → (room : Entries) × HasRoom cache key room
unfolding make_room
make_room-some cache key b = elim (Bool-cases (evicts cache key)) [
  | inl e ↦
      let full : 1 ≤ length cache.entries =
        omega
          (arith, b.positive, leb→le cache.max_entries (length cache.entries) (and_right _ _ e)) in
      let (room, gone) = length-positive cache.entries full in
      (
        room,
        record {
          made = rw e gone;
          fits = inl (omega (arith, evict-length cache.entries room gone, b.bounded));
          kept = λ q other old. evict-get cache.entries room q gone (and_false_right _ _ e old);
        },
      )
  | inr e ↦ (
    cache.entries,
    record {
      made = rw e refl;
      fits = elim (Bool-cases (lacks cache.entries key)) [
        | inl f ↦ inl (
            omega (
              arith,
              b.bounded,
              leb-false cache.max_entries (length cache.entries) (and_false_right _ _ f e),
            ))
        | inr f ↦ inr (f, b.bounded)
      ];
      kept = λ q other old. refl;
    },
  )
]

put_same : (d : Entries) (k : CacheKey) (v : List ContextChunk) → get (put d k v) k ≡ some v
put_same d k v = get-put d k k v ∙ rw (==_refl k) refl

room_fits :
    (room : Entries) (key : CacheKey) (chunks : List ContextChunk) (n : ℕ)
    → suc (length room) ≤ n ⊎ ((lacks room key ≡ false) × (length room ≤ n))
    → length (put room key chunks) ≤ n
room_fits room key chunks n (inl h) = elim (Bool-cases (lacks room key)) [
  | inl e ↦ rw (length-put room key chunks, e) h
  | inr e ↦ rw (length-put room key chunks, e) (omega (arith, h))
]
room_fits room key chunks n (inr (e, h)) = rw (length-put room key chunks, e) h

others_kept :
    (cache : RunRetrievalCache) (key : CacheKey) (room : Entries) (chunks : List ContextChunk)
    → HasRoom cache key room
    → (q : CacheKey)
    → (get (put room key chunks) q ≡ (if key == q then some chunks else get cache.entries q))
      ⊎ ((evicts cache key && is_oldest cache.entries q) ≡ true)
others_kept cache key room chunks h q =
    elim (Bool-cases (evicts cache key && is_oldest cache.entries q)) [
      | inl old ↦ inr old
      | inr young ↦ inl (
          rw (get-put room key q chunks)
            (elim (Bool-cases (key == q)) [ inl e ↦ rw e refl | inr e ↦ rw e (h.kept q e young) ]))
    ]

-- Into a cache that allows at least one entry and holds no more than it allows, a `put` under any
-- key goes through; the key is then found, with the chunks given; every other key answers as
-- before, but for the oldest where the cache was full and the key new; and the cache still holds
-- no more than it allows.
pub store-Remembers :
    (cache : RunRetrievalCache) (key : CacheKey) (chunks : List ContextChunk)
    → IsBounded cache
    → (after : RunRetrievalCache) × ((store cache key chunks ≡ some after)
        × Remembers cache after key chunks)
unfolding store lookup
store-Remembers cache key chunks b =
    let (room, h) = make_room-some cache key b in
    let after = record cache { entries = put room key chunks } in
    (
      after,
      (
        rw (h.made, store) refl,
        record {
          found = rw (put_same room key chunks, lookup) refl;
          others = others_kept cache key room chunks h;
          still = record {
            positive = b.positive;
            bounded = room_fits room key chunks cache.max_entries h.fits;
          };
        },
      ),
    )
