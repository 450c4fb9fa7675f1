-- ===== src/Admission/Tests.antt =====
-- admission.py on concrete inputs.
use allcallall_agent_runtime.Common.{ℕ, ◌≡◌, false, none, some, [], ◌∷◌}
use allcallall_agent_runtime.Admission.State.{
  Controller, Metrics, create, can_grant, occupy, set_queue,
}
use allcallall_agent_runtime.Admission.Acquire.{new_waiter}
use allcallall_agent_runtime.Admission.Release.{release, vacate, drop_cancelled}
use allcallall_agent_runtime.Admission.System.{System, Reach, IsAccounted}
use allcallall_agent_runtime.Admission.Accounting.{start, create-IsAccounted}
use allcallall_agent_runtime.Admission.Fifo.{Fifo, release-Fifo}
use allcallall_agent_runtime.Admission.Race.{leaked, Reach-leaked, slot_leaks}

abbrev zeros : Metrics
zeros = record {
  active_runs = 0;
  queued_runs = 0;
  accepted_total = 0;
  rejected_full = 0;
  rejected_timeout = 0;
  rejected_cancelled = 0;
}

abbrev after_leak : System
after_leak = leaked 7 5 0 zeros

-- One slot, held by organization 7, and two callers that wait.
abbrev busy : Controller
busy = set_queue (new_waiter 2 7 0 ∷ new_waiter 3 8 0 ∷ []) (occupy 7 (create 1 4 5 none zeros))

create-IsAccounted_example : IsAccounted after_leak
create-IsAccounted_example =
    create-IsAccounted 1 1 5 (some 1) zeros after_leak (Reach-leaked 7 5 0 zeros)

slot_leaks_example :
    (s : System) × Reach (start (create 1 1 5 (some 1) zeros)) s
    × (s.held ≡ [])
    × (s.woken ≡ [])
    × (s.leaving ≡ [])
    × (s.ctl.waiters ≡ [])
    × ((t : System) (o : ℕ) → Reach s t → can_grant t.ctl o ≡ false)
slot_leaks_example = slot_leaks 7 5 0 zeros

release-Fifo_example :
    (d : Controller) × Fifo (vacate 7 busy) d (release 7 busy).1
    × ((release 7 busy).0 ≡ set_queue (drop_cancelled d.waiters) d)
release-Fifo_example = release-Fifo 7 busy
