-- ===== src/Admission/Race.antt =====
-- admission.py: the window between a waiter's timeout and its leaving the queue.
use allcallall_agent_runtime.Common.{
  ℕ, ◌≤◌, ◌≡◌, refl, sym, ◌∙◌, false, Option, some, List, [], ◌∷◌, ◌++◌, arith, length,
  length-append,
}
use mathlib.Core.List.{append_assoc}
use allcallall_agent_runtime.Common.Eq.{nat_eq, ==_refl}
use allcallall_agent_runtime.Common.Dict.{get, put, pop}
use allcallall_agent_runtime.Admission.State.{
  Controller, Lease, Reason, timeout, Metrics, can_grant, create, org_quota, org_count, occupy,
  grant, new_lease,
}
use allcallall_agent_runtime.Admission.Release.{
  release, vacate, try_grant_waiters, grant_loop, first_eligible, eligible, award, drop_cancelled,
}
use allcallall_agent_runtime.Admission.Scan.{grant_loop_ind}
use allcallall_agent_runtime.Admission.Acquire.{
  acquire_enter, new_waiter, read_flags, remove_first, remove_waiter, abandon, count_rejection,
}
use allcallall_agent_runtime.Admission.System.{
  System, enter, lease_of, leave, hand_back, Step, entering, waking, deciding, departing, closing,
  Reach, here, next,
}
use allcallall_agent_runtime.Admission.Accounting.{start, create-IsAccounted}

max_active-acquire_enter :
    (id org now : ℕ) (c : Controller) → (acquire_enter id org now c).1.max_active ≡ c.max_active
unfolding acquire_enter grant occupy
max_active-acquire_enter id org now c = ground arith

max_active-abandon :
    (reason : Reason) (id : ℕ) (c : Controller) → (abandon reason id c).1.max_active ≡ c.max_active
unfolding abandon remove_waiter
max_active-abandon reason id c = refl

max_active-release : (org : ℕ) (c : Controller) → (release org c).0.max_active ≡ c.max_active
unfolding release try_grant_waiters vacate
max_active-release org c =
    grant_loop_ind (λ c' r. r.0.max_active ≡ c'.max_active) (λ c' h. refl)
      (λ c' w rest r p room ih. ih ∙ (unfold award occupy in refl)) _ _ (omega arith)

-- What a step keeps: the limit, and every lease that is lost already.
record Keeps (s t : System) : Type 0 where
  limit : t.ctl.max_active ≡ s.ctl.max_active
  more : List Lease
  lost_grows : t.lost ≡ more ++ s.lost

Step-Keeps : {s t : System} → Step s t → Keeps s t
Step-Keeps {s} (entering id org now e) = rw e (record {
  limit = unfold enter in max_active-acquire_enter id org now s.ctl;
  more = [];
  lost_grows = unfold enter in refl;
})
Step-Keeps {s} (waking xs ys w l e read moved) =
    rw moved (record { limit = refl; more = []; lost_grows = refl })
Step-Keeps {s} (deciding xs ys w reason e read moved) =
    rw moved (record { limit = refl; more = []; lost_grows = refl })
Step-Keeps {s} (departing xs ys id reason e left) = rw left (record {
  limit = unfold leave in max_active-abandon reason id s.ctl;
  more = lease_of id s.woken;
  lost_grows = unfold leave in refl;
})
Step-Keeps {s} (closing xs ys l e closed) = rw closed (record {
  limit = unfold hand_back in max_active-release l.org_id s.ctl;
  more = [];
  lost_grows = unfold hand_back in refl;
})

Reach-Keeps : {s t : System} → Reach s t → Keeps s t
Reach-Keeps here = record { limit = refl; more = []; lost_grows = refl }
Reach-Keeps {s} (next r st) =
    let old = Reach-Keeps r in
    let new = Step-Keeps st in
    record {
      limit = new.limit ∙ old.limit;
      more = new.more ++ old.more;
      lost_grows = new.lost_grows ∙ rw old.lost_grows (sym (append_assoc new.more old.more s.lost));
    }

Reach-trans : {s t u : System} → Reach s t → Reach t u → Reach s u
Reach-trans r here = r
Reach-trans r (next q st) = next (Reach-trans r q) st

-- A lease that no caller owns occupies its slot for ever: whatever happens later, `active` is at
-- least the number of the leases that are lost now.
pub lost-le-active :
    (max_active max_queued max_wait : ℕ) (per_org : Option ℕ) (m : Metrics) (s t : System)
    → Reach (start (create max_active max_queued max_wait per_org m)) s
    → Reach s t
    → length s.lost ≤ t.ctl.active
lost-le-active max_active max_queued max_wait per_org m s t r later =
    let sound =
      (create-IsAccounted max_active max_queued max_wait per_org m t (Reach-trans r later)).sound in
    let kept = Reach-Keeps later in
    rw (sound.active_eq, kept.lost_grows) (simp length-append (omega arith))

module _ (org wait now : ℕ) (m : Metrics) where
  abbrev pub one_slot : System
  one_slot = start (create 1 1 wait (some 1) m)

  -- One caller runs, a second one queues.
  abbrev pub contended : System
  contended = enter 2 org now (enter 1 org now one_slot)

  -- The second one's wait times out; it has read its flags.
  abbrev pub timed_out : System
  timed_out = record contended { leaving = (2, timeout) ∷ [] }

  -- The first one closes its lease, and the slot goes to the second one's waiter.
  abbrev pub passed_on : System
  passed_on = hand_back (new_lease org) [] timed_out

  -- The second one takes the lock, and raises.
  abbrev pub leaked : System
  leaked = leave 2 timeout [] passed_on

  unfolding_all : Unit {0}
  unfolding create org_quota org_count can_grant get put pop occupy grant acquire_enter enter
      hand_back release vacate try_grant_waiters grant_loop first_eligible eligible award
      drop_cancelled leave abandon remove_waiter remove_first lease_of count_rejection read_flags
  unfolding_all = tt

  queued_second : contended.ctl.waiters ≡ new_waiter 2 org now ∷ []
  unfolding unfolding_all
  queued_second = refl

  held_first : timed_out.held ≡ [] ++ new_lease org ∷ []
  unfolding unfolding_all
  held_first = refl

  leaving_second : passed_on.leaving ≡ [] ++ (2, timeout) ∷ []
  unfolding unfolding_all
  leaving_second = refl

  lost_one : leaked.lost ≡ new_lease org ∷ []
  unfolding unfolding_all
  lost_one = simp (==_refl org)

  nobody_left : (leaked.woken ≡ []) × (leaked.ctl.waiters ≡ [])
  unfolding unfolding_all
  nobody_left = (simp (==_refl org), simp (==_refl org))

  pub Reach-leaked : Reach one_slot leaked
  unfolding enter
  Reach-leaked =
      next
        (next
          (next (next (next here (entering 1 org now refl)) (entering 2 org now refl)) (
            deciding [] [] (new_waiter 2 org now) timeout queued_second (unfold read_flags in refl)
              refl))
          (closing [] [] (new_lease org) held_first refl))
        (departing [] [] 2 timeout leaving_second refl)

  full_for_ever : (t : System) (o : ℕ) → Reach leaked t → can_grant t.ctl o ≡ false
  full_for_ever t o r =
      let occupied = lost-le-active 1 1 wait (some 1) m leaked t Reach-leaked r in
      let one : 1 ≤ t.ctl.active = rw lost_one at occupied in
      let limit : t.ctl.max_active ≡ 1 =
        (Reach-Keeps (Reach-trans Reach-leaked r)).limit ∙ (unfold create in refl) in
      unfold can_grant in ground arith

-- With one slot and one place in the queue, for any organization: some interleaving of two callers
-- that both behave leads to a state where nobody holds, awaits or queues for a lease, and from
-- then on no request of any organization is ever granted.
pub slot_leaks :
    (org wait now : ℕ) (m : Metrics)
    → (s : System) × Reach (start (create 1 1 wait (some 1) m)) s
      × (s.held ≡ [])
      × (s.woken ≡ [])
      × (s.leaving ≡ [])
      × (s.ctl.waiters ≡ [])
      × ((t : System) (o : ℕ) → Reach s t → can_grant t.ctl o ≡ false)
slot_leaks org wait now m = (
  leaked org wait now m,
  Reach-leaked org wait now m,
  unfold leave hand_back in refl,
  (nobody_left org wait now m).0,
  unfold leave in refl,
  (nobody_left org wait now m).1,
  full_for_ever org wait now m,
)
