-- ===== src/Retry.antt =====
-- services/agent-runtime/allcallall_agent_runtime/retry.py: retries with exponential backoff. The
-- world outside is a parameter: what attempt n of the wrapped call does, the clock when the
-- budget is asked after it, and the random jitter that is drawn then. The `on_retry` hook is
-- called with the attempts of `slept`; what it raises is swallowed.
pub mod Laws
pub mod Sharing
pub mod Tests
use allcallall_agent_runtime.Common.{
  ℕ, zero, suc, ◌+◌, ◌-◌, ◌*◌, ◌/◌, ◌^◌, min, max, Bool, true, false, not, ◌||◌, Option, none, some,
  List, [], ◌∷◌, ltb, leb, if◌then◌else◌,
}
use allcallall_agent_runtime.Common.Result.{Result, ok, err}
use allcallall_agent_runtime.Deadline.Budget.{Budget, next_delay}

-- How a call ends; `asserted` is the failed assertion behind the loop.
pub data Outcome {ℓ κ} (E : Type κ) (T : Type ℓ) : Type (ℓ ⊔ κ) where
  returned : T → Outcome E T
  raised : E → Outcome E T
  asserted : Outcome E T

pub record Run {ℓ κ} (E : Type κ) (T : Type ℓ) : Type (ℓ ⊔ κ) where
  pub outcome : Outcome E T
  pub calls : ℕ
  -- the attempts that were followed by a retry, each with its delay
  pub slept : List (ℕ × ℕ)
  pub budget : Option Budget

-- `uniform` draws the jitter: it is given the upper end of its range.
unfoldable pub backoff_delay : (ℕ → ℕ) → ℕ → ℕ → ℕ → ℕ
backoff_delay uniform attempt base maximum =
    let delay = min maximum (base * 2 ^ (attempt - 1)) in
    delay + uniform (max (delay / 4) (base / 10))

-- The shared budget where there is one, the fixed backoff where there is none.
unfoldable pub delay_after : (ℕ → ℕ) → ℕ → ℕ → ℕ → ℕ → Option Budget → Option ℕ × Option Budget
delay_after jitter attempt base maximum now none =
    (some (backoff_delay jitter attempt base maximum), none)
delay_after jitter attempt base maximum now (some b) =
    let (delay, b') = next_delay jitter base maximum now b in (delay, some b')

abbrev pub at_least_one : ℕ → ℕ
at_least_one n = if ltb n 1 then 1 else n

module _ {ℓ κ} {E : Type κ} {T : Type ℓ} (call : ℕ → Result E T) (should_retry : E → Bool)
    (base maximum : ℕ) (clock : ℕ → ℕ) (jitter : ℕ → ℕ → ℕ) where
  abbrev pub stopped : Outcome E T → ℕ → Option Budget → Run E T
  stopped outcome calls budget = record {
    outcome = outcome;
    calls = calls;
    slept = [];
    budget = budget;
  }

  abbrev pub after_loop : Option E → ℕ → Option Budget → Run E T
  after_loop none attempt budget = stopped asserted attempt budget
  after_loop (some e) attempt budget = stopped (raised e) attempt budget

  abbrev pub noted : ℕ → ℕ → Run E T → Run E T
  noted attempt delay rest = record rest { slept = (attempt, delay) ∷ rest.slept }

  -- `while attempt < max_attempts`, on the rounds that are left.
  unfoldable pub retry_loop : ℕ → ℕ → ℕ → Option Budget → Option E → Run E T
  retry_loop max_attempts zero attempt budget last = after_loop last attempt budget
  retry_loop max_attempts (suc left) attempt budget last = elim (call (attempt + 1)) [
    | ok t ↦ stopped (returned t) (attempt + 1) budget
    | err e ↦ elim (leb max_attempts (attempt + 1) || not (should_retry e)) [
      | true ↦ stopped (raised e) (attempt + 1) budget
      | false ↦
          let (granted, budget') =
            delay_after (jitter (attempt + 1)) (attempt + 1) base maximum (clock (attempt + 1))
              budget in
          elim granted [
            | none ↦ stopped (raised e) (attempt + 1) budget'
            | some delay ↦
                noted (attempt + 1) delay
                  (retry_loop max_attempts left (attempt + 1) budget' (some e))
          ]
    ]
  ]

  unfoldable pub with_retry : ℕ → Option Budget → Run E T
  with_retry max_attempts budget =
      let attempts = at_least_one max_attempts in retry_loop attempts attempts 0 budget none

  -- The async twin, line by line; awaiting the call, the hook and the sleep changes no value.
  unfoldable pub retry_loop_async : ℕ → ℕ → ℕ → Option Budget → Option E → Run E T
  retry_loop_async max_attempts zero attempt budget last = after_loop last attempt budget
  retry_loop_async max_attempts (suc left) attempt budget last = elim (call (attempt + 1)) [
    | ok t ↦ stopped (returned t) (attempt + 1) budget
    | err e ↦ elim (leb max_attempts (attempt + 1) || not (should_retry e)) [
      | true ↦ stopped (raised e) (attempt + 1) budget
      | false ↦
          let (granted, budget') =
            delay_after (jitter (attempt + 1)) (attempt + 1) base maximum (clock (attempt + 1))
              budget in
          elim granted [
            | none ↦ stopped (raised e) (attempt + 1) budget'
            | some delay ↦
                noted (attempt + 1) delay
                  (retry_loop_async max_attempts left (attempt + 1) budget' (some e))
          ]
    ]
  ]

  unfoldable pub with_retry_async : ℕ → Option Budget → Run E T
  with_retry_async max_attempts budget =
      let attempts = at_least_one max_attempts in retry_loop_async attempts attempts 0 budget none
