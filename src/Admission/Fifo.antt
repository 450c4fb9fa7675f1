-- ===== src/Admission/Fifo.antt =====
-- admission.py: the order in which `_release` serves the queue, as a relation.
use allcallall_agent_runtime.Common.{
  ℕ, ◌≤◌, ◌≡◌, refl, true, false, List, [], ◌∷◌, ◌++◌, arith, All, ◌⊎◌, length, Bool-cases, inl,
  inr,
}
use allcallall_agent_runtime.Admission.State.{
  Controller, Waiter, can_grant, org_count, occupy, set_queue, Lease,
}
use allcallall_agent_runtime.Admission.Release.{
  eligible, award, awarded, grant_loop, drop_cancelled, try_grant_waiters, release, vacate, close,
}
use allcallall_agent_runtime.Admission.Scan.{IsSettled, eligible→can_grant, grant_loop_ind}

-- Grants one after another: each goes to the first waiter that is neither cancelled nor of an
-- organization at its quota, and they end when nobody in the queue could be granted.
pub data Fifo : Controller → Controller → List Waiter → Type 0 where
  stop : {c : Controller} → IsSettled c c.waiters → Fifo c c []
  pick :
      {c : Controller} (before after : List Waiter) (w : Waiter) {d : Controller} {ws : List Waiter}
      → c.waiters ≡ before ++ w ∷ after
      → All (λ x. (x.cancelled ≡ true) ⊎ (c.max_active_per_org ≤ org_count c x.org_id)) before
      → w.cancelled ≡ false
      → can_grant c w.org_id ≡ true
      → Fifo (set_queue (before ++ after) (occupy w.org_id c)) d ws
      → Fifo c d (awarded w ∷ ws)

passed_over :
    (c : Controller) (ws : List Waiter)
    → All (λ x. eligible c x ≡ false) ws
    → All (λ x. (x.cancelled ≡ true) ⊎ (c.max_active_per_org ≤ org_count c x.org_id)) ws
passed_over c [] h = tt
passed_over c (w ∷ ws) h = (unfold eligible in ground arith, passed_over c ws h.1)

not_cancelled : (c : Controller) (w : Waiter) → eligible c w ≡ true → w.cancelled ≡ false
unfolding eligible
not_cancelled c w h = ground arith

grant_loop-Fifo :
    (c : Controller)
    → Fifo c (grant_loop (length c.waiters) c).0 (grant_loop (length c.waiters) c).1
grant_loop-Fifo c =
    grant_loop_ind (λ c' r. Fifo c' r.0 r.1) (λ c' settled. stop settled)
      (λ c' w rest r p room ih.
        pick p.before p.after w p.split (passed_over c' p.before p.passed)
          (not_cancelled c' w p.fits) (eligible→can_grant c' w room p.fits)
          (rw (← p.left) (unfold award in ih)))
      (length c.waiters) c (omega arith)

-- `_release` frees the slot, then serves the queue first in, first out among those that are
-- neither cancelled nor of an organization at its quota, until nobody can be granted; of the rest
-- it only takes cancelled waiters off the front.
pub release-Fifo :
    (org : ℕ) (c : Controller)
    → (d : Controller) × Fifo (vacate org c) d (release org c).1
      × ((release org c).0 ≡ set_queue (drop_cancelled d.waiters) d)
release-Fifo org c = (
  (grant_loop (length (vacate org c).waiters) (vacate org c)).0,
  unfold release try_grant_waiters in grant_loop-Fifo (vacate org c),
  unfold release try_grant_waiters in refl,
)

-- Closing a lease twice is closing it once: the second call returns the same lease and
-- controller, and wakes nobody.
pub close-close :
    (l : Lease) (c : Controller)
    → close (close l c).0 (close l c).1 ≡ ((close l c).0, (close l c).1, [])
unfolding close
close-close l c = elim (Bool-cases l.closed) [ inl done ↦ simp done | inr live ↦ simp live ]
