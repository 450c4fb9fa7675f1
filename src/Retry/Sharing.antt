-- ===== src/Retry/Sharing.antt =====
-- retry.py: the async twin, and what a run takes from a budget that it shares with others.
use allcallall_agent_runtime.Common.{
  ℕ, zero, suc, ◌+◌, ◌≤◌, ◌≡◌, refl, ◌∙◌, ap, inl, inr, Bool, not, ◌||◌, Option, none, some, [],
  ◌∷◌, arith, length, leb, Bool-cases, Option-cases, All,
}
use allcallall_agent_runtime.Common.Result.{Result, Result-cases}
use allcallall_agent_runtime.Deadline.Budget.{Budget, next_delay}
use allcallall_agent_runtime.Deadline.Delays.{next_delay-none, next_delay-some}
use allcallall_agent_runtime.Retry.{
  Outcome, Run, delay_after, at_least_one, retry_loop, with_retry, retry_loop_async,
  with_retry_async,
}

module _ {E T : Type 0} (call : ℕ → Result E T) (should_retry : E → Bool) (base maximum : ℕ)
    (clock : ℕ → ℕ) (jitter : ℕ → ℕ → ℕ) where
  retry_loop_async-eq :
      (limit left attempt : ℕ) (budget : Option Budget) (last : Option E)
      → retry_loop_async call should_retry base maximum clock jitter limit left attempt budget last
        ≡ retry_loop call should_retry base maximum clock jitter limit left attempt budget last
  unfolding retry_loop_async retry_loop
  retry_loop_async-eq limit zero attempt budget last = refl
  retry_loop_async-eq limit (suc left) attempt budget last =
      let n = attempt + 1 in
      elim (Result-cases (call n)) [
        | inl (t, fine) ↦ rw (fine, retry_loop, retry_loop_async)
        | inr (e, failed) ↦ elim (Bool-cases (leb limit n || not (should_retry e))) [
          | inl final ↦
              rw (failed, retry_loop, retry_loop_async) (rw (final, retry_loop, retry_loop_async))
          | inr again ↦
              let asked = delay_after (jitter n) n base maximum (clock n) budget in
              elim (Option-cases asked.0) [
                | inl refused ↦
                    rw (failed, retry_loop, retry_loop_async)
                      (rw (again, retry_loop, retry_loop_async)
                        (rw (refused, retry_loop, retry_loop_async)))
                | inr (delay, granted) ↦
                    rw (failed, retry_loop, retry_loop_async)
                      (rw (again, retry_loop, retry_loop_async)
                        (rw (granted, retry_loop, retry_loop_async)
                          (rw (retry_loop_async-eq limit left n asked.1 (some e)))))
              ]
        ]
      ]

  -- The two primitives make the same attempts, sleep the same delays and end alike.
  pub with_retry_async-eq-with_retry :
      (max_attempts : ℕ) (budget : Option Budget)
      → with_retry_async call should_retry base maximum clock jitter max_attempts budget
        ≡ with_retry call should_retry base maximum clock jitter max_attempts budget
  unfolding with_retry with_retry_async
  with_retry_async-eq-with_retry max_attempts budget =
      retry_loop_async-eq (at_least_one max_attempts) (at_least_one max_attempts) 0 budget none

  -- `b` is the budget at the start of a run, `slept` the delays that the run took.
  pub record Charged (b : Budget) (r : Run E T) : Type 0 where
    pub after : Budget
    pub left : r.budget ≡ some after
    pub used : after.attempts_used ≡ b.attempts_used + length r.slept
    pub limit : after.max_attempts ≡ b.max_attempts
    pub capped : All (λ (s : ℕ × ℕ). s.1 ≤ maximum) r.slept

  unspent :
      (b : Budget) (outcome : Outcome E T) (n : ℕ)
      → Charged b (record { outcome = outcome; calls = n; slept = []; budget = some b })
  unspent b outcome n = record {
    after = b;
    left = refl;
    used = omega arith;
    limit = refl;
    capped = tt;
  }

  refused_unspent :
      (n : ℕ) (b : Budget) (outcome : Outcome E T)
      → (next_delay (jitter n) base maximum (clock n) b).0 ≡ none
      → Charged b (record {
        outcome = outcome;
        calls = n;
        slept = [];
        budget = some (next_delay (jitter n) base maximum (clock n) b).1;
      })
  refused_unspent n b outcome h =
      let asked = next_delay (jitter n) base maximum (clock n) b in
      let same =
        (next_delay-none (jitter n) base maximum (clock n) b asked.1
          (ap (λ o. (o, asked.1)) h)).0 in
      rw same (unspent b outcome n)

  granted-Charged :
      (n : ℕ) (b : Budget) (delay : ℕ) (rest : Run E T)
      → (next_delay (jitter n) base maximum (clock n) b).0 ≡ some delay
      → Charged (next_delay (jitter n) base maximum (clock n) b).1 rest
      → Charged b (record rest { slept = (n, delay) ∷ rest.slept })
  granted-Charged n b delay rest h c =
      let asked = next_delay (jitter n) base maximum (clock n) b in
      let facts =
        next_delay-some (jitter n) base maximum (clock n) b asked.1 delay
          (ap (λ o. (o, asked.1)) h) in
      record {
        after = c.after;
        left = c.left;
        used = omega (arith, c.used, facts.3);
        limit = c.limit ∙ facts.5;
        capped = (facts.1, c.capped);
      }

  retry_loop-Charged :
      (limit left attempt : ℕ) (b : Budget) (last : Option E)
      → Charged b
          (retry_loop call should_retry base maximum clock jitter limit left attempt (some b) last)
  unfolding retry_loop delay_after
  retry_loop-Charged limit zero attempt b none = unspent b _ attempt
  retry_loop-Charged limit zero attempt b (some e) = unspent b _ attempt
  retry_loop-Charged limit (suc left) attempt b last =
      let n = attempt + 1 in
      elim (Result-cases (call n)) [
        | inl (t, fine) ↦ rw (fine, retry_loop) (unspent b _ n)
        | inr (e, failed) ↦ elim (Bool-cases (leb limit n || not (should_retry e))) [
          | inl final ↦ rw (failed, retry_loop) (rw (final, retry_loop) (unspent b _ n))
          | inr again ↦
              let asked = next_delay (jitter n) base maximum (clock n) b in
              elim (Option-cases asked.0) [
                | inl refused ↦
                    rw (failed, retry_loop)
                      (rw (again, retry_loop)
                        (rw (refused, retry_loop) (refused_unspent n b _ refused)))
                | inr (delay, granted) ↦
                    rw (failed, retry_loop)
                      (rw (again, retry_loop)
                        (rw (granted, retry_loop)
                          (granted-Charged n b delay _ granted
                            (retry_loop-Charged limit left n asked.1 (some e)))))
              ]
        ]
      ]

  -- A run with a shared budget leaves it with one attempt fewer for each sleep, and with its limit;
  -- no sleep is longer than the cap.
  pub with_retry-Charged :
      (max_attempts : ℕ) (b : Budget)
      → Charged b (with_retry call should_retry base maximum clock jitter max_attempts (some b))
  unfolding with_retry
  with_retry-Charged max_attempts b =
      retry_loop-Charged (at_least_one max_attempts) (at_least_one max_attempts) 0 b none
