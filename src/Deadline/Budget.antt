-- ===== src/Deadline/Budget.antt =====
-- deadline.py: `RetryBudget` and `current_retry_budget`.
use allcallall_agent_runtime.Common.{
  ℕ, ◌+◌, ◌*◌, ◌^◌, min, max, Option, none, some, leb, if◌then◌else◌,
}
use allcallall_agent_runtime.Common.Eq.{◌==◌, nat_eq}
use allcallall_agent_runtime.Deadline.State.{
  Deadline, Current, get_current_deadline, remaining_seconds,
}

pub record Budget : Type 0 where
  pub max_attempts : ℕ
  pub deadline : Deadline
  pub attempts_used : ℕ

unfoldable pub create : ℕ → Deadline → Budget
create max_attempts deadline = record {
  max_attempts = max 1 max_attempts;
  deadline = deadline;
  attempts_used = 0;
}

-- min(maximum, base * 2 ** (attempt - 1)) for the attempt after those used
unfoldable pub raw_delay : Budget → ℕ → ℕ → ℕ
raw_delay b base maximum = min maximum (base * 2 ^ b.attempts_used)

-- `jitter` is the injected function from the raw delay to what is added to it; the random default
-- is one such function at each call.
unfoldable pub next_delay : (ℕ → ℕ) → ℕ → ℕ → ℕ → Budget → Option ℕ × Budget
next_delay jitter base maximum now b =
    if leb b.max_attempts b.attempts_used
    then (none, b)
    else let remaining = remaining_seconds b.deadline now in
      if remaining == 0
      then (none, b)
      else let raw = raw_delay b base maximum in
        let delay = min (raw + jitter raw) maximum in
        if leb remaining delay
        then (none, b)
        else (some delay, record b { attempts_used = b.attempts_used + 1 })

unfoldable pub current_retry_budget : ℕ → Current → Option Budget
current_retry_budget max_attempts current = elim (get_current_deadline current) [
  | none ↦ none
  | some d ↦ some (create max_attempts d)
]
