-- ===== src/Admission/State.antt =====
-- admission.py: the objects, `__init__`, `_can_grant` and `_grant`.
use allcallall_agent_runtime.Common.{
  ℕ, zero, suc, ◌+◌, ◌/◌, max, Bool, true, false, Option, none, some, List, [], leb, if◌then◌else◌,
  length,
}
use allcallall_agent_runtime.Common.Eq.{nat_eq}
use allcallall_agent_runtime.Common.Dict
use allcallall_agent_runtime.Common.Dict.{Dict}

pub data Reason : Type 0 where
  queue_full timeout cancelled : Reason

-- AdmissionRejected
pub record Rejection : Type 0 where
  pub reason : Reason
  pub retry_after_seconds : ℕ

-- AdmissionLease
pub record Lease : Type 0 where
  pub org_id : ℕ
  pub closed : Bool

-- _Waiter; `id` is the object's identity.
pub record Waiter : Type 0 where
  pub id : ℕ
  pub event : Bool
  pub acquired : Bool
  pub lease : Option Lease
  pub cancelled : Bool
  pub org_id : ℕ
  pub enqueued_at : ℕ

-- The metrics that the controller writes: two gauges, and the counters by rejection reason.
pub record Metrics : Type 0 where
  pub active_runs : ℕ
  pub queued_runs : ℕ
  pub accepted_total : ℕ
  pub rejected_full : ℕ
  pub rejected_timeout : ℕ
  pub rejected_cancelled : ℕ

pub record Controller : Type 0 where
  pub max_active : ℕ
  pub max_queued : ℕ
  pub max_queue_wait_seconds : ℕ
  pub max_active_per_org : ℕ
  pub active : ℕ
  pub org_active : Dict ℕ ℕ
  pub waiters : List Waiter
  pub metrics : Metrics

-- `max_active_per_org or max((max_active + 1) // 2, 1)`: none and 0 both fall back.
unfoldable pub org_quota : ℕ → Option ℕ → ℕ
org_quota max_active none = max ((max_active + 1) / 2) 1
org_quota max_active (some zero) = max ((max_active + 1) / 2) 1
org_quota max_active (some (suc n)) = suc n

-- __init__; the counters keep what they had.
unfoldable pub create : ℕ → ℕ → ℕ → Option ℕ → Metrics → Controller
create max_active max_queued max_wait per_org metrics = record {
  max_active = max_active;
  max_queued = max_queued;
  max_queue_wait_seconds = max_wait;
  max_active_per_org = org_quota max_active per_org;
  active = 0;
  org_active = [];
  waiters = [];
  metrics = record metrics { active_runs = 0; queued_runs = 0 };
}

abbrev pub or_zero : Option ℕ → ℕ
or_zero none = 0
or_zero (some n) = n

-- self._org_active.get(organization_id, 0)
unfoldable pub org_count : Controller → ℕ → ℕ
org_count c org = or_zero (Dict.get c.org_active org)

unfoldable pub can_grant : Controller → ℕ → Bool
can_grant c org =
    if leb c.max_active c.active
    then false
    else if leb c.max_active_per_org (org_count c org)
    then false
    else true

abbrev pub new_lease : ℕ → Lease
new_lease org = record { org_id = org; closed = false }

-- What `_grant` and the loop of `_try_grant_waiters` do to the counts.
unfoldable pub occupy : ℕ → Controller → Controller
occupy org c = record c {
  active = c.active + 1;
  org_active = Dict.put c.org_active org (org_count c org + 1);
  metrics = record c.metrics {
    active_runs = c.active + 1;
    accepted_total = c.metrics.accepted_total + 1;
  };
}

-- _grant
unfoldable pub grant : ℕ → Controller → Lease × Controller
grant org c = (new_lease org, occupy org c)

abbrev pub set_queue : List Waiter → Controller → Controller
set_queue ws c = record c { waiters = ws; metrics = record c.metrics { queued_runs = length ws } }
