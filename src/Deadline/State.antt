-- ===== src/Deadline/State.antt =====
-- deadline.py: `ExecutionCancelled`, `ExecutionDeadline`, and the deadline bound to a request.
use allcallall_agent_runtime.Common.{
  ℕ, ◌-◌, Bool, true, false, Option, none, some, String, List, [], ◌∷◌, if◌then◌else◌,
}
use allcallall_agent_runtime.Common.Eq.{◌==◌, nat_eq, string_eq, contains}
use allcallall_agent_runtime.Common.Int.{ℤ, pos_part}
use allcallall_agent_runtime.Common.Result.{Result, ok, err}

abbrev pub valid_cancel_reasons : List String
valid_cancel_reasons = "client_cancelled" ∷ "deadline_exceeded" ∷ "shutdown" ∷ "lease_lost" ∷ []

pub data Error : Type 0 where
  -- ValueError, for a reason outside the set
  invalid_reason : String → Error
  -- ExecutionCancelled
  execution_cancelled : String → Error
  -- RuntimeError of require_current_deadline
  no_deadline_bound : Error

-- ExecutionCancelled(reason): the constructor checks its reason.
unfoldable pub cancellation : String → Error
cancellation reason =
    if contains valid_cancel_reasons reason
    then execution_cancelled reason
    else invalid_reason reason

pub record Deadline : Type 0 where
  pub monotonic_deadline : ℤ
  pub cancelled : Bool
  pub cancel_reason : Option String

unfoldable pub create : ℤ → Deadline
create at = record { monotonic_deadline = at; cancelled = false; cancel_reason = none }

-- max(0.0, self._monotonic_deadline - self._clock())
unfoldable pub remaining_seconds : Deadline → ℕ → ℕ
remaining_seconds d now = pos_part d.monotonic_deadline - now

unfoldable pub expired : Deadline → ℕ → Bool
expired d now = remaining_seconds d now == 0

unfoldable pub cancel : String → Deadline → Result Error Deadline
cancel reason d =
    if contains valid_cancel_reasons reason
    then ok (record d { cancelled = true; cancel_reason = some reason })
    else err (invalid_reason reason)

-- `self._cancel_reason or "client_cancelled"`: none and the empty text both fall back.
unfoldable pub reason_or_default : Option String → String
reason_or_default none = "client_cancelled"
reason_or_default (some reason) = if reason == "" then "client_cancelled" else reason

unfoldable pub raise_if_cancelled : Deadline → ℕ → Result Error (Unit {0})
raise_if_cancelled d now =
    if d.cancelled
    then err (cancellation (reason_or_default d.cancel_reason))
    else if expired d now
    then err (cancellation "deadline_exceeded")
    else ok tt

-- The context variable of a request.
abbrev pub Current : Type 0
Current = Option Deadline

unfoldable pub get_current_deadline : Current → Option Deadline
get_current_deadline current = current

-- An expired deadline is bound all the same (the source only logs it).
unfoldable pub set_current_deadline : Option Deadline → Current → Current
set_current_deadline deadline current = deadline

unfoldable pub require_current_deadline : Current → Result Error Deadline
require_current_deadline none = err no_deadline_bound
require_current_deadline (some d) = ok d

-- The `_check_cancelled` that every node of the graph calls first.
unfoldable pub check_cancelled : Current → ℕ → Result Error (Unit {0})
check_cancelled none now = ok tt
check_cancelled (some d) now = raise_if_cancelled d now
