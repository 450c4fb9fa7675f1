-- ===== src/ToolQueue/Repeated.antt =====
-- orchestration/harness.py: the hand-over of the same proposals once more.
use allcallall_agent_runtime.Common.{
  All, List, String, [], ap, false, refl, some, subst, sym, ℕ, ◌+◌, ◌∷◌, ◌≡◌,
}
use allcallall_agent_runtime.Common.Eq.{string_eq}
use allcallall_agent_runtime.Common.Dict.{Dict}
use allcallall_agent_runtime.Common.Text.{is_blank}
use allcallall_agent_runtime.ToolQueue.Queue.{Queue, enqueue}
use allcallall_agent_runtime.ToolQueue.Steps.{Call, play}
use allcallall_agent_runtime.ToolQueue.Keyed.{IsKeyed, step-IsKeyed}
use allcallall_agent_runtime.ToolQueue.Keys.{IsKnown, enqueue-IsKnown, enqueue-known, play-IsKnown}
use allcallall_agent_runtime.ToolQueue.Handover.{
  Caller, Proposal, enqueue_each, enqueue_proposals, key_of, task_of,
}

module _ {V : Type 0} where
  -- Each proposal has a key of its own.
  abbrev pub HaveKeys : List (Proposal V) → Type 0
  HaveKeys proposals = All (λ p. is_blank p.idempotency_key ≡ false) proposals

  -- The queue has a task for each proposal.
  abbrev AllKnown : List (Proposal V) → Queue (Dict String V) → Type 0
  AllKnown proposals q = All (λ p. (id : String) × IsKnown p.idempotency_key id q) proposals

  key_of-given :
      (uuid : ℕ → String) (n : ℕ) (p : Proposal V)
      → is_blank p.idempotency_key ≡ false
      → key_of uuid n p ≡ p.idempotency_key
  key_of-given uuid n p h = rw h refl

  play-AllKnown :
      (proposals : List (Proposal V)) (cs : List (Call (Dict String V))) (q : Queue (Dict String V))
      → AllKnown proposals q
      → AllKnown proposals (play cs q)
  play-AllKnown [] cs q k = tt
  play-AllKnown (p ∷ ps) cs q ((id, known), ks) =
      ((id, play-IsKnown p.idempotency_key id cs q known), play-AllKnown ps cs q ks)

  -- Proposals that are known are not queued again.
  enqueue_each-known :
      (uuid : ℕ → String) (caller : Caller V) (n : ℕ) (proposals : List (Proposal V))
      (q : Queue (Dict String V))
      → HaveKeys proposals
      → AllKnown proposals q
      → enqueue_each uuid caller n proposals q ≡ q
  unfolding enqueue_each
  enqueue_each-known uuid caller n [] q h k = refl
  enqueue_each-known uuid caller n (p ∷ ps) q (h, hs) ((id, known), ks) =
      rw
        (enqueue-known (uuid (n + 1)) p.idempotency_key id (task_of uuid caller n p) q known
          (key_of-given uuid n p h))
        (enqueue_each-known uuid caller (n + 2) ps q hs ks)

  module _ (uuid : ℕ → String) (caller : Caller V) where
    -- The calls that the hand-over makes.
    handed : ℕ → List (Proposal V) → List (Call (Dict String V))
    handed n [] = []
    handed n (p ∷ ps) = Call.enqueue (uuid (n + 1)) (task_of uuid caller n p) ∷ handed (n + 2) ps

    enqueue_each-play :
        (n : ℕ) (proposals : List (Proposal V)) (q : Queue (Dict String V))
        → enqueue_each uuid caller n proposals q ≡ play (handed n proposals) q
    unfolding enqueue_each handed
    enqueue_each-play n [] q = refl
    enqueue_each-play n (p ∷ ps) q =
        enqueue_each-play (n + 2) ps (enqueue (uuid (n + 1)) (task_of uuid caller n p) q).1

    enqueue_each-AllKnown :
        (n : ℕ) (proposals : List (Proposal V)) (q : Queue (Dict String V))
        → HaveKeys proposals
        → IsKeyed q.store.tasks
        → AllKnown proposals (enqueue_each uuid caller n proposals q)
    unfolding enqueue_each
    enqueue_each-AllKnown n [] q h keyed = tt
    enqueue_each-AllKnown n (p ∷ ps) q (h, hs) keyed =
        let t = task_of uuid caller n p in
        let q' = (enqueue (uuid (n + 1)) t q).1 in
        let id = (enqueue (uuid (n + 1)) t q).0 in
        let known : IsKnown p.idempotency_key id q' =
          subst (λ k. IsKnown k id q') (key_of-given uuid n p h)
            (enqueue-IsKnown (uuid (n + 1)) t q keyed) in
        (
          (
            id,
            subst (λ r. IsKnown p.idempotency_key id r) (sym (enqueue_each-play (n + 2) ps q'))
                (play-IsKnown p.idempotency_key id (handed (n + 2) ps) q' known),
          ),
          enqueue_each-AllKnown (n + 2) ps q' hs
              (step-IsKeyed (Call.enqueue (uuid (n + 1)) t) q keyed),
        )

  -- In a store that holds each task once, under its id: proposals that have idempotency keys are
  -- queued once. Handed over again, after any run of calls, whoever asks and whatever uuids are drawn,
  -- they change nothing.
  pub enqueue_proposals-again :
      (uuid uuid' : ℕ → String) (caller caller' : Caller V) (n m : ℕ)
      (proposals : List (Proposal V)) (cs : List (Call (Dict String V))) (q : Queue (Dict String V))
      → HaveKeys proposals
      → IsKeyed q.store.tasks
      → enqueue_proposals uuid' caller' m proposals
          (some (play cs (enqueue_each uuid caller n proposals q)))
        ≡ some (play cs (enqueue_each uuid caller n proposals q))
  unfolding enqueue_proposals
  enqueue_proposals-again uuid uuid' caller caller' n m proposals cs q h keyed = ap some (
      enqueue_each-known uuid' caller' m proposals _ h
        (play-AllKnown proposals cs _ (enqueue_each-AllKnown uuid caller n proposals q h keyed)))
