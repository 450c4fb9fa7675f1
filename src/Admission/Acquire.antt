-- ===== src/Admission/Acquire.antt =====
-- admission.py: `acquire`, cut at the places where the lock is taken and given back.
use allcallall_agent_runtime.Common.{
  ℕ, ◌+◌, max, false, Option, none, some, List, [], ◌∷◌, ◌++◌, leb, if◌then◌else◌, length,
}
use allcallall_agent_runtime.Common.Eq.{◌==◌, nat_eq}
use allcallall_agent_runtime.Common.Time.{second}
use allcallall_agent_runtime.Admission.State.{
  Reason, queue_full, timeout, cancelled, Rejection, Lease, Waiter, Metrics, Controller, can_grant,
  grant, set_queue,
}

abbrev pub new_waiter : ℕ → ℕ → ℕ → Waiter
new_waiter id org now = record {
  id = id;
  event = false;
  acquired = false;
  lease = none;
  cancelled = false;
  org_id = org;
  enqueued_at = now;
}

pub data Entry : Type 0 where
  granted : Lease → Entry
  rejected : Rejection → Entry
  queued : Waiter → Entry

-- The critical section of `acquire`, entered at time `now` by the request `id`.
unfoldable pub acquire_enter : ℕ → ℕ → ℕ → Controller → Entry × Controller
acquire_enter id org now c =
    if can_grant c org
    then (let (l, c') = grant org c in (granted l, c'))
    else if leb c.max_queued (length c.waiters)
    then (
      rejected (record {
        reason = queue_full;
        retry_after_seconds = max second c.max_queue_wait_seconds;
      }),
      record c { metrics = record c.metrics { rejected_full = c.metrics.rejected_full + 1 } },
    )
    else let w = new_waiter id org now in (queued w, set_queue (c.waiters ++ w ∷ []) c)

-- deque.remove(waiter): the first entry that is this object
unfoldable pub remove_first : ℕ → List Waiter → List Waiter
remove_first id [] = []
remove_first id (w ∷ ws) = if w.id == id then ws else w ∷ remove_first id ws

-- _remove_waiter
unfoldable pub remove_waiter : ℕ → Controller → Controller
remove_waiter id c = set_queue (remove_first id c.waiters) c

unfoldable pub count_rejection : Reason → Metrics → Metrics
count_rejection queue_full m = record m { rejected_full = m.rejected_full + 1 }
count_rejection timeout m = record m { rejected_timeout = m.rejected_timeout + 1 }
count_rejection cancelled m = record m { rejected_cancelled = m.rejected_cancelled + 1 }

-- The three places where a queued caller gives up: leave the queue, count, raise.
unfoldable pub abandon : Reason → ℕ → Controller → Rejection × Controller
abandon reason id c =
    let c' = remove_waiter id c in
    (
      record { reason = reason; retry_after_seconds = second },
      record c' { metrics = count_rejection reason c'.metrics },
    )

pub data Decision : Type 0 where
  take_lease : Lease → Decision
  give_up : Reason → Decision

-- What a queued caller reads of its waiter when `event.wait` returns, without the lock.
unfoldable pub read_flags : Waiter → Decision
read_flags w =
    if w.cancelled
    then give_up cancelled
    else if w.acquired
    then elim w.lease [ some l ↦ take_lease l | none ↦ give_up timeout ]
    else give_up timeout

-- The wait of `acquire` starts at `now`: with no time left the caller gives up at once.
unfoldable pub before_wait : ℕ → ℕ → Option Reason
before_wait deadline now = if leb deadline now then some timeout else none
