-- ===== src/Deadline/Delays.antt =====
-- deadline.py: calls of `next_delay`, one and any number.
use allcallall_agent_runtime.Common.{
  ℕ, ◌+◌, ◌≤◌, ◌<◌, ◌≡◌, ap, ◌⊎◌, inl, inr, min, max, none, some, List, [], ◌∷◌, arith, length,
  Option-cases,
}
use allcallall_agent_runtime.Deadline.State.{Deadline, remaining_seconds}
use allcallall_agent_runtime.Deadline.Budget.{Budget, create, raw_delay, next_delay}

raw_delay_le : (b : Budget) (base maximum : ℕ) → raw_delay b base maximum ≤ maximum
unfolding raw_delay
raw_delay_le b base maximum = omega arith

module _ (jitter : ℕ → ℕ) (base maximum now : ℕ) (b b' : Budget) where
  -- A delay that is granted respects the cap and the backoff, ends before the deadline, and costs
  -- one attempt, of which there was one left.
  pub next_delay-some :
      (delay : ℕ)
      → next_delay jitter base maximum now b ≡ (some delay, b')
      → (raw_delay b base maximum ≤ delay)
        × (delay ≤ maximum)
        × (delay < remaining_seconds b.deadline now)
        × (b'.attempts_used ≡ b.attempts_used + 1)
        × (b'.attempts_used ≤ b.max_attempts)
        × (b'.max_attempts ≡ b.max_attempts)
        × (b'.deadline ≡ b.deadline)
  unfolding next_delay
  next_delay-some delay h = (
    ground (arith, raw_delay_le b base maximum),
    ground arith,
    ground arith,
    ground arith,
    ground arith,
    ground arith,
    ground arith,
  )

  -- A refusal costs nothing, and has one of three causes.
  pub next_delay-none :
      next_delay jitter base maximum now b ≡ (none, b')
      → (b' ≡ b)
        × ((b.max_attempts ≤ b.attempts_used)
            ⊎ (remaining_seconds b.deadline now
                ≤ min (raw_delay b base maximum + jitter (raw_delay b base maximum)) maximum))
  unfolding next_delay
  next_delay-none h = (ground arith, ground arith)

-- One request for a delay: its base and cap, the clock, and the jitter drawn for it.
pub record Request : Type 0 where
  pub jitter : ℕ → ℕ
  pub base : ℕ
  pub maximum : ℕ
  pub now : ℕ

-- The delays that a budget grants to any series of requests, by any callers.
unfoldable pub granted : List Request → Budget → List ℕ
granted [] b = []
granted (q ∷ qs) b = elim (next_delay q.jitter q.base q.maximum q.now b).0 [
  | none ↦ granted qs (next_delay q.jitter q.base q.maximum q.now b).1
  | some delay ↦ delay ∷ granted qs (next_delay q.jitter q.base q.maximum q.now b).1
]

granted-le :
    (qs : List Request) (b : Budget)
    → b.attempts_used ≤ b.max_attempts
    → b.attempts_used + length (granted qs b) ≤ b.max_attempts
unfolding granted
granted-le [] b h = omega arith
granted-le (q ∷ qs) b h =
    let r = next_delay q.jitter q.base q.maximum q.now b in
    elim (Option-cases r.0) [
      | inl refused ↦
          let (same, _) =
            next_delay-none q.jitter q.base q.maximum q.now b r.1 (ap (λ o. (o, r.1)) refused) in
          rw (refused, granted) (rw same (granted-le qs b h))
      | inr (delay, found) ↦
          let facts =
            next_delay-some q.jitter q.base q.maximum q.now b r.1 delay
              (ap (λ o. (o, r.1)) found) in
          rw (found, granted)
            (omega (arith, granted-le qs r.1 (omega (arith, facts.4, facts.5)), facts.3, facts.5))
    ]

-- A new budget is shared by all its callers: to any series of requests it grants at most
-- `max_attempts` delays, and at most one where that number is zero.
pub granted-create-le :
    (qs : List Request) (max_attempts : ℕ) (d : Deadline)
    → length (granted qs (create max_attempts d)) ≤ max 1 max_attempts
unfolding create
granted-create-le qs max_attempts d =
    omega (arith, granted-le qs (create max_attempts d) (omega arith))
