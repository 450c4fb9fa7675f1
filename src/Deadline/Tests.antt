-- ===== src/Deadline/Tests.antt =====
-- deadline.py on concrete inputs.
use allcallall_agent_runtime.Common.{
  ℕ, ◌+◌, ◌≤◌, ◌<◌, ◌≡◌, refl, ◌⊎◌, max, Option, none, some, String, List, [], ◌∷◌, length, Bool,
}
use allcallall_agent_runtime.Common.Eq.{string_eq, contains}
use allcallall_agent_runtime.Common.Int.{pos}
use allcallall_agent_runtime.Common.Result.{ok, err}
use allcallall_agent_runtime.Deadline.State.{
  Deadline, create, cancel, raise_if_cancelled, execution_cancelled, remaining_seconds, expired,
  reason_or_default, cancellation,
}
use allcallall_agent_runtime.Deadline.Header.{
  Stamp, aware, parse_rfc3339, normalize_zone, rstrip, is_space, caller_deadline, from_header,
}
use allcallall_agent_runtime.Deadline.Budget
use allcallall_agent_runtime.Deadline.Budget.{Budget, raw_delay, next_delay}
use allcallall_agent_runtime.Deadline.Cancelling.{IsKnown, cancel_each, raise_if_cancelled_bounded}
use allcallall_agent_runtime.Deadline.Delays.{Request, granted, next_delay-some, granted-create-le}

program : Unit {0}
unfolding create cancel raise_if_cancelled remaining_seconds expired reason_or_default cancellation
    contains parse_rfc3339 normalize_zone rstrip is_space caller_deadline from_header Budget.create
    raw_delay next_delay granted
program = tt

abbrev soon : Deadline
soon = record { monotonic_deadline = pos 50; cancelled = Bool.false; cancel_reason = none }

abbrev stopped : Deadline
stopped = record soon { cancelled = Bool.true; cancel_reason = some "shutdown" }

cancel-soon : cancel "shutdown" soon ≡ ok stopped
unfolding program
cancel-soon = refl

raise_if_cancelled_bounded_example :
    (raise_if_cancelled (cancel_each ("oops" ∷ "lease_lost" ∷ []) (create (pos 50))) 10 ≡ ok tt)
      × (0 < remaining_seconds (cancel_each ("oops" ∷ "lease_lost" ∷ []) (create (pos 50))) 10)
    ⊎ ((r : String) × (raise_if_cancelled
            (cancel_each ("oops" ∷ "lease_lost" ∷ []) (create (pos 50)))
            10
          ≡ err (execution_cancelled r))
        × IsKnown r)
raise_if_cancelled_bounded_example =
    raise_if_cancelled_bounded (pos 50) ("oops" ∷ "lease_lost" ∷ []) 10

-- A reader of deadlines that takes any text for the instant 100.
abbrev at_100 : List ℕ → Option Stamp
at_100 value = some (aware 100)

remaining_25 : remaining_seconds (from_header at_100 (some (b'Z' ∷ [])) 60 10 70) 15 ≡ 25
unfolding program
remaining_25 = refl

zone_of_z : normalize_zone (rstrip (b'1' ∷ b'Z' ∷ b' ' ∷ [])) ≡ normalize_zone (b'1' ∷ b'Z' ∷ [])
unfolding program
zone_of_z = refl

abbrev one_used : Budget
one_used = record { max_attempts = 3; deadline = soon; attempts_used = 1 }

abbrev two_used : Budget
two_used = record { max_attempts = 3; deadline = soon; attempts_used = 2 }

one_more : next_delay (λ raw. 1) 4 20 10 one_used ≡ (some 9, two_used)
unfolding program
one_more = refl

too_late : next_delay (λ raw. 1) 4 20 45 one_used ≡ (none, one_used)
unfolding program
too_late = refl

next_delay-some_example :
    (raw_delay one_used 4 20 ≤ 9)
    × (9 ≤ 20)
    × (9 < remaining_seconds one_used.deadline 10)
    × (two_used.attempts_used ≡ one_used.attempts_used + 1)
    × (two_used.attempts_used ≤ one_used.max_attempts)
    × (two_used.max_attempts ≡ one_used.max_attempts)
    × (two_used.deadline ≡ one_used.deadline)
next_delay-some_example = next_delay-some (λ raw. 1) 4 20 10 one_used two_used 9 one_more

abbrev asked : List Request
asked =
    record { jitter = λ raw. 0; base = 4; maximum = 20; now = 0 }
    ∷ record { jitter = λ raw. 0; base = 4; maximum = 20; now = 5 }
    ∷ record { jitter = λ raw. 0; base = 4; maximum = 20; now = 9 }
    ∷ []

granted-create-le_example : length (granted asked (Budget.create 2 soon)) ≤ max 1 2
granted-create-le_example = granted-create-le asked 2 soon

granted_two : granted asked (Budget.create 2 soon) ≡ 4 ∷ 8 ∷ []
unfolding program
granted_two = refl
