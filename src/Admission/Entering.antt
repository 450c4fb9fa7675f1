-- ===== src/Admission/Entering.antt =====
-- admission.py: the invariants across `acquire` and across a caller that gives up.
use allcallall_agent_runtime.Common.{
  ℕ, ◌≡◌, refl, ◌∙◌, List, [], ◌∷◌, ◌++◌, arith, length, leb, leb-false, All-append, length-append,
  Bool-cases, inl, inr,
}
use allcallall_agent_runtime.Common.Eq.{nat_eq}
use allcallall_agent_runtime.Admission.State.{
  Metrics, Controller, Lease, Reason, queue_full, timeout, cancelled, can_grant, grant, org_count,
  occupy,
}
use allcallall_agent_runtime.Admission.Acquire.{
  Entry, granted, acquire_enter, new_waiter, abandon, count_rejection,
}
use allcallall_agent_runtime.Admission.Scan.{IsSettled}
use allcallall_agent_runtime.Admission.Invariant.{
  IsSound, set_queue-IsSound, occupy-IsSettled, occupy-IsSound, remove_waiter-IsSound,
  remove_waiter-IsSettled,
}

set_metrics-IsSound :
    {c : Controller} {xs : List Lease} (m : Metrics)
    → m.active_runs ≡ c.metrics.active_runs
    → m.queued_runs ≡ c.metrics.queued_runs
    → IsSound c xs
    → IsSound (record c { metrics = m }) xs
set_metrics-IsSound m p q s = record {
  active_eq = s.active_eq;
  org_eq = unfold org_count in s.org_eq;
  active_le = s.active_le;
  org_le = unfold org_count in s.org_le;
  queue_le = s.queue_le;
  active_gauge = p ∙ s.active_gauge;
  queued_gauge = q ∙ s.queued_gauge;
  fresh = s.fresh;
}

abbrev pub entry_leases : Entry → List Lease
entry_leases (granted l) = l ∷ []
entry_leases _ = []

module _ (c : Controller) (xs : List Lease) where
  pub acquire_enter-IsSound :
      (id org now : ℕ)
      → IsSound c xs
      → IsSound (acquire_enter id org now c).1 (entry_leases (acquire_enter id org now c).0 ++ xs)
  unfolding acquire_enter grant
  acquire_enter-IsSound id org now s = elim (Bool-cases (can_grant c org)) [
    | inl room ↦ rw room (occupy-IsSound c org xs room s)
    | inr full ↦ elim (Bool-cases (leb c.max_queued (length c.waiters))) [
      | inl long ↦ rw (full, long) (set_metrics-IsSound _ refl refl s)
      | inr short ↦
          rw (full, short)
            (set_queue-IsSound (c.waiters ++ new_waiter id org now ∷ [])
              (omega (
                arith,
                length-append c.waiters (new_waiter id org now ∷ []),
                leb-false c.max_queued (length c.waiters) short,
              ))
              (All-append _ c.waiters (new_waiter id org now ∷ []) s.fresh ((refl, refl), tt)) s)
    ]
  ]

  pub abandon-IsSound :
      (reason : Reason) (id : ℕ) → IsSound c xs → IsSound (abandon reason id c).1 xs
  unfolding abandon count_rejection
  abandon-IsSound queue_full id s =
      set_metrics-IsSound _ refl refl (remove_waiter-IsSound c id xs s)
  abandon-IsSound timeout id s = set_metrics-IsSound _ refl refl (remove_waiter-IsSound c id xs s)
  abandon-IsSound cancelled id s = set_metrics-IsSound _ refl refl (remove_waiter-IsSound c id xs s)

module _ (c : Controller) where
  pub acquire_enter-IsSettled :
      (id org now : ℕ)
      → IsSettled c c.waiters
      → IsSettled (acquire_enter id org now c).1 (acquire_enter id org now c).1.waiters
  unfolding acquire_enter grant
  acquire_enter-IsSettled id org now h = elim (Bool-cases (can_grant c org)) [
    | inl room ↦ rw room (unfold occupy in occupy-IsSettled c org c.waiters h)
    | inr full ↦ elim (Bool-cases (leb c.max_queued (length c.waiters))) [
      | inl long ↦ rw (full, long) (unfold can_grant org_count in h)
      | inr short ↦
          rw (full, short)
            (unfold can_grant org_count in
              All-append _ c.waiters (new_waiter id org now ∷ []) h ((λ _. full), tt))
    ]
  ]

  pub abandon-IsSettled :
      (reason : Reason) (id : ℕ)
      → IsSettled c c.waiters
      → IsSettled (abandon reason id c).1 (abandon reason id c).1.waiters
  unfolding abandon can_grant org_count
  abandon-IsSettled reason id h = remove_waiter-IsSettled c id h
