-- ===== src/Admission/Accounting.antt =====
-- admission.py: the slots and their owners, over the reachable states.
use allcallall_agent_runtime.Common.{
  ℕ, ◌+◌, ◌≡◌, refl, Option, List, [], ◌∷◌, ◌++◌, arith, length, length-append, Bool-cases, inl,
  inr,
}
use mathlib.Core.List.{append_assoc}
use allcallall_agent_runtime.Common.Dict.{get}
use allcallall_agent_runtime.Common.Eq.{◌==◌, nat_eq}
use allcallall_agent_runtime.Admission.State.{
  Controller, Waiter, Lease, Reason, Metrics, create, org_count,
}
use allcallall_agent_runtime.Admission.Acquire.{take_lease, read_flags, remove_first}
use allcallall_agent_runtime.Admission.Invariant.{
  IsSound, IsSound-of_counts, count_org, tally, leases, leases-cons, own, release-IsSound,
  release-IsSettled,
}
use allcallall_agent_runtime.Admission.Entering.{
  acquire_enter-IsSound, acquire_enter-IsSettled, abandon-IsSound, abandon-IsSettled,
}
use allcallall_agent_runtime.Admission.System.{
  System, enter, lease_of, leave, hand_back, Step, entering, waking, deciding, departing, closing,
  Reach, here, next, IsAccounted,
}

-- Two lists hold leases of the same organizations, as often.
record SameLeases (xs ys : List Lease) : Type 0 where
  total : length xs ≡ length ys
  by_org : (o : ℕ) → count_org o xs ≡ count_org o ys

move-SameLeases :
    (c : Controller) (xs ys : List Lease) → SameLeases xs ys → IsSound c xs → IsSound c ys
move-SameLeases c xs ys e = IsSound-of_counts e.total e.by_org

leases-append : (xs ys : List Waiter) → leases (xs ++ ys) ≡ leases xs ++ leases ys
unfolding leases
leases-append [] ys = refl
leases-append (w ∷ ws) ys = simp (leases-append ws ys, append_assoc)

-- A waiter that reads a lease has it.
take_lease-own : (w : Waiter) (l : Lease) → read_flags w ≡ take_lease l → own w.lease ≡ l ∷ []
unfolding read_flags
take_lease-own w l h = ground arith

enter-IsAccounted : (id org now : ℕ) (s : System) → IsAccounted s → IsAccounted (enter id org now s)
unfolding enter
enter-IsAccounted id org now s a = record {
  sound =
      move-SameLeases _ _ _
        (record { total = simp tally (omega arith); by_org = λ o. simp tally (omega arith) })
        (acquire_enter-IsSound s.ctl _ id org now a.sound);
  settled = acquire_enter-IsSettled s.ctl id org now a.settled;
}

remove_first-total :
    (id : ℕ) (ws : List Waiter)
    → length (leases ws) ≡ length (leases (remove_first id ws)) + length (lease_of id ws)
unfolding remove_first lease_of leases count_org
remove_first-total id [] = omega arith
remove_first-total id (w ∷ ws) = elim (Bool-cases (w.id == id)) [
  | inl found ↦ simp (found, length-append) (omega arith)
  | inr other ↦ simp (other, length-append) (omega (arith, remove_first-total id ws))
]

remove_first-by_org :
    (o id : ℕ) (ws : List Waiter)
    → count_org o (leases ws)
      ≡ count_org o (leases (remove_first id ws)) + count_org o (lease_of id ws)
unfolding remove_first lease_of leases count_org
remove_first-by_org o id [] = omega arith
remove_first-by_org o id (w ∷ ws) = elim (Bool-cases (w.id == id)) [
  | inl found ↦ simp (found, tally) (omega arith)
  | inr other ↦ simp (other, tally) (omega (arith, remove_first-by_org o id ws))
]

leave-IsAccounted :
    (id : ℕ) (reason : Reason) (others : List (ℕ × Reason)) (s : System)
    → IsAccounted s
    → IsAccounted (leave id reason others s)
unfolding leave
leave-IsAccounted id reason others s a = record {
  sound =
      move-SameLeases _ _ _
        (record {
          total = simp tally (omega (arith, remove_first-total id s.woken));
          by_org = λ o. simp tally (omega (arith, remove_first-by_org o id s.woken));
        })
        (abandon-IsSound s.ctl _ reason id a.sound);
  settled = abandon-IsSettled s.ctl reason id a.settled;
}

waking-IsAccounted :
    (xs ys : List Waiter) (w : Waiter) (l : Lease) (s : System)
    → s.woken ≡ xs ++ w ∷ ys
    → own w.lease ≡ l ∷ []
    → IsAccounted s
    → IsAccounted (record s { held = l ∷ s.held; woken = xs ++ ys })
waking-IsAccounted xs ys w l s e has a = record {
  sound =
      move-SameLeases _ _ _
        (record {
          total = rw e (simp (leases-append, leases-cons, has, tally) (omega arith));
          by_org = λ o. rw e (simp (leases-append, leases-cons, has, tally) (omega arith));
        })
        a.sound;
  settled = a.settled;
}

hand_back-IsAccounted :
    (xs ys : List Lease) (l : Lease) (s : System)
    → s.held ≡ xs ++ l ∷ ys
    → IsAccounted s
    → IsAccounted (hand_back l (xs ++ ys) s)
unfolding hand_back
hand_back-IsAccounted xs ys l s e a =
    let rest = ((xs ++ ys) ++ leases s.woken) ++ s.lost in
    let sound : IsSound s.ctl (l ∷ rest) =
      move-SameLeases _ _ _
        (record {
          total = rw e (simp tally (omega arith));
          by_org = λ o. rw e (simp tally (omega arith));
        })
        a.sound in
    record {
      sound =
          move-SameLeases _ _ _
            (record {
              total = simp (leases-append, tally) (omega arith);
              by_org = λ o. simp (leases-append, tally) (omega arith);
            })
            (release-IsSound s.ctl l rest sound);
      settled = release-IsSettled s.ctl l.org_id;
    }

Step-IsAccounted : {s t : System} → Step s t → IsAccounted s → IsAccounted t
Step-IsAccounted {s} (entering id org now e) a = rw e (enter-IsAccounted id org now s a)
Step-IsAccounted {s} (waking xs ys w l e read moved) a =
    rw moved (waking-IsAccounted xs ys w l s e (take_lease-own w l read) a)
Step-IsAccounted {s} (deciding xs ys w reason e read moved) a =
    rw moved (record { sound = a.sound; settled = a.settled })
Step-IsAccounted {s} (departing xs ys id reason e left) a =
    rw left (leave-IsAccounted id reason (xs ++ ys) s a)
Step-IsAccounted {s} (closing xs ys l e closed) a = rw closed (hand_back-IsAccounted xs ys l s e a)

abbrev pub start : Controller → System
start c = record { ctl = c; held = []; woken = []; leaving = []; lost = [] }

start-IsAccounted :
    (max_active max_queued max_wait : ℕ) (per_org : Option ℕ) (m : Metrics)
    → IsAccounted (start (create max_active max_queued max_wait per_org m))
unfolding create org_count get count_org leases
start-IsAccounted max_active max_queued max_wait per_org m = record {
  sound = record {
    active_eq = refl;
    org_eq = λ o. refl;
    active_le = omega arith;
    org_le = λ o. omega arith;
    queue_le = omega arith;
    active_gauge = refl;
    queued_gauge = refl;
    fresh = tt;
  };
  settled = tt;
}

Reach-IsAccounted : {s t : System} → IsAccounted s → Reach s t → IsAccounted t
Reach-IsAccounted a here = a
Reach-IsAccounted a (next r st) = Step-IsAccounted st (Reach-IsAccounted a r)

-- From a new controller with any limits, after any interleaving of callers: `active` and the
-- counts by organization are those of the leases that are open, neither passes its limit, the
-- queue keeps its bound, the gauges agree, and no queued caller that is still interested could be
-- granted a slot.
pub create-IsAccounted :
    (max_active max_queued max_wait : ℕ) (per_org : Option ℕ) (m : Metrics) (s : System)
    → Reach (start (create max_active max_queued max_wait per_org m)) s
    → IsAccounted s
create-IsAccounted max_active max_queued max_wait per_org m s r =
    Reach-IsAccounted (start-IsAccounted max_active max_queued max_wait per_org m) r
