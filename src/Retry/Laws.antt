-- ===== src/Retry/Laws.antt =====
-- retry.py: which attempts are made, and how a run ends.
use allcallall_agent_runtime.Common.{
  ℕ, zero, suc, ◌+◌, ◌≤◌, ◌<◌, ◌≡◌, ap, ◌⊎◌, inl, inr, Bool, true, false, not, ◌||◌, Option, none,
  some, [], ◌∷◌, arith, length, leb, Bool-cases, Option-cases,
}
use allcallall_agent_runtime.Common.Result.{Result, ok, err, Result-cases}
use allcallall_agent_runtime.Deadline.Budget.{Budget, next_delay}
use allcallall_agent_runtime.Deadline.Delays.{next_delay-none}
use allcallall_agent_runtime.Retry.{
  Outcome, returned, raised, asserted, Run, delay_after, at_least_one, retry_loop, with_retry,
}

module _ {E T : Type 0} (call : ℕ → Result E T) (should_retry : E → Bool) (base maximum : ℕ)
    (clock : ℕ → ℕ) (jitter : ℕ → ℕ → ℕ) where
  -- The budget, as the run leaves it, has no delay to give after the attempt `n`.
  abbrev pub Refuses : ℕ → Option Budget → Type 0
  Refuses n none = ⊥
  Refuses n (some b) = (next_delay (jitter n) base maximum (clock n) b).0 ≡ none

  -- Why a run ends after the attempt `n` of at most `limit`.
  abbrev pub Explained : ℕ → ℕ → Option Budget → Outcome E T → Type 0
  Explained limit n budget (returned t) = call n ≡ ok t
  Explained limit n budget (raised e) =
      (call n ≡ err e) × ((n ≡ limit) ⊎ ((should_retry e ≡ false) ⊎ Refuses n budget))
  Explained limit n budget asserted = ⊥

  -- What holds of the run `r` that has made `before` attempts when it starts.
  pub record Follows (limit before : ℕ) (r : Run E T) : Type 0 where
    pub more : before < r.calls
    pub within : r.calls ≤ limit
    pub retried :
        (i : ℕ) → before < i → i < r.calls → (e : E) × (call i ≡ err e) × (should_retry e ≡ true)
    pub ended : Explained limit r.calls r.budget r.outcome
    pub sleeps : before + suc (length r.slept) ≡ r.calls

  stopped-Follows :
      (limit attempt : ℕ) (outcome : Outcome E T) (budget : Option Budget)
      → attempt < limit
      → Explained limit (attempt + 1) budget outcome
      → Follows limit attempt
          (record { outcome = outcome; calls = attempt + 1; slept = []; budget = budget })
  stopped-Follows limit attempt outcome budget room why = record {
    more = omega arith;
    within = omega arith;
    retried = λ i p q. absurd (omega arith);
    ended = why;
    sleeps = omega arith;
  }

  first_or_later : (i a : ℕ) → a < i → (i ≡ a + 1) ⊎ (a + 1 < i)
  first_or_later i a h = grind arith

  noted-Follows :
      (limit attempt delay : ℕ) (e : E) (rest : Run E T)
      → call (attempt + 1) ≡ err e
      → should_retry e ≡ true
      → Follows limit (attempt + 1) rest
      → Follows limit attempt (record rest { slept = (attempt + 1, delay) ∷ rest.slept })
  noted-Follows limit attempt delay e rest failed worth f = record {
    more = omega (arith, f.more);
    within = f.within;
    retried = λ i p q. elim (first_or_later i attempt p) [
      | inl here ↦ (e, rw here failed, worth)
      | inr later ↦ f.retried i later q
    ];
    ended = f.ended;
    sleeps = omega (arith, f.sleeps);
  }

  delay_after_refused :
      (n : ℕ) (budget : Option Budget)
      → (delay_after (jitter n) n base maximum (clock n) budget).0 ≡ none
      → Refuses n (delay_after (jitter n) n base maximum (clock n) budget).1
  unfolding delay_after
  delay_after_refused n none h = cc
  delay_after_refused n (some b) h =
      rw
        (next_delay-none (jitter n) base maximum (clock n) b _
          (ap (λ o. (o, (next_delay (jitter n) base maximum (clock n) b).1)) h)).0
        h

  final_cause :
      (limit n : ℕ) (e : E) (budget : Option Budget)
      → n ≤ limit
      → (leb limit n || not (should_retry e)) ≡ true
      → (n ≡ limit) ⊎ ((should_retry e ≡ false) ⊎ Refuses n budget)
  final_cause limit n e budget h final = elim (Bool-cases (should_retry e)) [
    | inl worth ↦ inl (ground arith)
    | inr not_worth ↦ inr (inl not_worth)
  ]

  goes_on :
      (limit n : ℕ) (e : E)
      → (leb limit n || not (should_retry e)) ≡ false
      → (n < limit) × (should_retry e ≡ true)
  goes_on limit n e h = ground arith

  retry_loop-Follows :
      (limit left attempt : ℕ) (budget : Option Budget) (last : Option E)
      → attempt + left ≡ limit
      → 0 < left
      → Follows limit attempt
          (retry_loop call should_retry base maximum clock jitter limit left attempt budget last)
  unfolding retry_loop
  retry_loop-Follows limit zero attempt budget last h p = absurd (omega arith)
  retry_loop-Follows limit (suc left) attempt budget last h p =
      let n = attempt + 1 in
      elim (Result-cases (call n)) [
        | inl (t, fine) ↦
            rw (fine, retry_loop)
              (stopped-Follows limit attempt (returned t) budget (omega arith) fine)
        | inr (e, failed) ↦ elim (Bool-cases (leb limit n || not (should_retry e))) [
          | inl final ↦
              rw (failed, retry_loop)
                (rw (final, retry_loop)
                  (stopped-Follows limit attempt (raised e) budget (omega arith)
                    (failed, final_cause limit n e budget (omega arith) final)))
          | inr again ↦
              let (room, worth) = goes_on limit n e again in
              let asked = delay_after (jitter n) n base maximum (clock n) budget in
              elim (Option-cases asked.0) [
                | inl refused ↦
                    rw (failed, retry_loop)
                      (rw (again, retry_loop)
                        (rw (refused, retry_loop)
                          (stopped-Follows limit attempt (raised e) asked.1 (omega arith)
                            (failed, inr (inr (delay_after_refused n budget refused))))))
                | inr (delay, granted) ↦
                    rw (failed, retry_loop)
                      (rw (again, retry_loop)
                        (rw (granted, retry_loop)
                          (noted-Follows limit attempt delay e _ failed worth (
                            retry_loop-Follows limit left n asked.1 (some e) (omega arith)
                              (omega arith)))))
              ]
        ]
      ]

  -- With at least one attempt allowed (a limit below 1 counts as 1), the wrapped call is made at
  -- least once and at most that often; every attempt but the last one failed with an error that is
  -- worth a retry, and was followed by one sleep; the run returns what the last attempt returned,
  -- or raises what it raised, in the latter case because it was the last one allowed, or the error
  -- is not worth a retry, or the budget has no delay to give. The assertion never fails.
  pub with_retry-Follows :
      (max_attempts : ℕ) (budget : Option Budget)
      → Follows
          (at_least_one max_attempts)
          0
          (with_retry call should_retry base maximum clock jitter max_attempts budget)
  unfolding with_retry
  with_retry-Follows max_attempts budget =
      retry_loop-Follows (at_least_one max_attempts) (at_least_one max_attempts) 0 budget none
        (omega arith) (ground arith)
