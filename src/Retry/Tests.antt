-- ===== src/Retry/Tests.antt =====
-- retry.py on concrete inputs.
use allcallall_agent_runtime.Common.{
  ℕ, ◌≡◌, refl, false, Bool, none, some, String, [], ◌∷◌, if◌then◌else◌,
}
use allcallall_agent_runtime.Common.Eq.{◌==◌, nat_eq, string_eq}
use allcallall_agent_runtime.Common.Int.{pos}
use allcallall_agent_runtime.Common.Result.{Result, ok, err}
use allcallall_agent_runtime.Deadline.State.{remaining_seconds}
use allcallall_agent_runtime.Deadline.Budget.{Budget, raw_delay, next_delay}
use allcallall_agent_runtime.Retry.{
  returned, raised, backoff_delay, delay_after, at_least_one, retry_loop, with_retry,
}
use allcallall_agent_runtime.Retry.Laws.{Follows, with_retry-Follows}
use allcallall_agent_runtime.Retry.Sharing.{Charged, with_retry-Charged}

-- The third attempt succeeds.
abbrev flaky : ℕ → Result String ℕ
flaky n = if n == 3 then ok 7 else err "timeout"

abbrev transient : String → Bool
transient e = e == "timeout"

abbrev still : ℕ → ℕ
still n = 0

abbrev no_jitter : ℕ → ℕ → ℕ
no_jitter n upper = 0

abbrev budget : Budget
budget = record {
  max_attempts = 3;
  deadline = record { monotonic_deadline = pos 50; cancelled = false; cancel_reason = none };
  attempts_used = 0;
}

program : Unit {0}
unfolding backoff_delay delay_after retry_loop with_retry remaining_seconds raw_delay next_delay
program = tt

third_time :
    with_retry flaky transient 4 20 still no_jitter 5 none
    ≡ record { outcome = returned 7; calls = 3; slept = (1, 4) ∷ (2, 8) ∷ []; budget = none }
unfolding program
third_time = refl

out_of_attempts :
    (with_retry flaky transient 4 20 still no_jitter 2 (some budget)).outcome ≡ raised "timeout"
unfolding program
out_of_attempts = refl

with_retry-Follows_example :
    Follows flaky transient 4 20 still no_jitter
      (at_least_one 5)
      0
      (with_retry flaky transient 4 20 still no_jitter 5 (some budget))
with_retry-Follows_example = with_retry-Follows flaky transient 4 20 still no_jitter 5 (some budget)

with_retry-Charged_example :
    Charged flaky transient 4 20 still no_jitter budget
      (with_retry flaky transient 4 20 still no_jitter 5 (some budget))
with_retry-Charged_example = with_retry-Charged flaky transient 4 20 still no_jitter 5 budget
