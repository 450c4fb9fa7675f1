-- ===== src/Admission/Invariant.antt =====
-- What holds of the controller between two critical sections.
use allcallall_agent_runtime.Common.{
  ℕ, suc, ◌+◌, ◌≤◌, ◌<◌, ◌≡◌, refl, ◌∙◌, subst, true, false, none, some, List, [], ◌∷◌, ◌++◌, arith,
  length, All, length-append, Bool-cases, inl, inr, if◌then◌else◌, Option,
}
use allcallall_agent_runtime.Common.Eq.{◌==◌, nat_eq}
use allcallall_agent_runtime.Admission.State.{
  Controller, Waiter, Lease, can_grant, org_count, occupy, set_queue, new_lease,
}
use allcallall_agent_runtime.Admission.Release.{
  award, grant_loop, drop_cancelled, try_grant_waiters, release, vacate,
}
use allcallall_agent_runtime.Admission.Acquire.{remove_first, remove_waiter}
use allcallall_agent_runtime.Admission.Counts.{org_count-occupy, org_count-vacate, can_grant-occupy}
use allcallall_agent_runtime.Admission.Scan.{
  Picked, IsSettled, eligible→can_grant, Picked-length, grant_loop_ind,
}

unfoldable pub count_one : ℕ → Lease → ℕ
count_one o l = if l.org_id == o then 1 else 0

unfoldable pub count_org : ℕ → List Lease → ℕ
count_org o [] = 0
count_org o (l ∷ ls) = count_one o l + count_org o ls

pub count_org-cons :
    (o : ℕ) (l : Lease) (ls : List Lease) → count_org o (l ∷ ls) ≡ count_one o l + count_org o ls
unfolding count_org
count_org-cons o l ls = refl

pub count_org-append :
    (o : ℕ) (xs ys : List Lease) → count_org o (xs ++ ys) ≡ count_org o xs + count_org o ys
unfolding count_org
count_org-append o [] ys = omega arith
count_org-append o (x ∷ xs) ys = omega (arith, count_org-append o xs ys)

pub count_org-nil : (o : ℕ) → count_org o [] ≡ 0
unfolding count_org
count_org-nil o = refl

pub ruleset tally = (length-append, count_org-append, count_org-cons, count_org-nil)

abbrev pub own : Option Lease → List Lease
own none = []
own (some l) = l ∷ []

-- The leases that the waiters hold.
unfoldable pub leases : List Waiter → List Lease
leases [] = []
leases (w ∷ ws) = own w.lease ++ leases ws

pub leases-cons : (w : Waiter) (ws : List Waiter) → leases (w ∷ ws) ≡ own w.lease ++ leases ws
unfolding leases
leases-cons w ws = refl

-- `open` lists the leases that are given out and not released.
pub record IsSound (c : Controller) (open_leases : List Lease) : Type 0 where
  pub active_eq : c.active ≡ length open_leases
  pub org_eq : (o : ℕ) → org_count c o ≡ count_org o open_leases
  pub active_le : c.active ≤ c.max_active
  pub org_le : (o : ℕ) → org_count c o ≤ c.max_active_per_org
  pub queue_le : length c.waiters ≤ c.max_queued
  pub active_gauge : c.metrics.active_runs ≡ c.active
  pub queued_gauge : c.metrics.queued_runs ≡ length c.waiters
  pub fresh : All (λ w. (w.acquired ≡ false) × (w.lease ≡ none)) c.waiters

-- Only the numbers of open leases matter, not their order.
pub IsSound-of_counts :
    {c : Controller} {xs ys : List Lease}
    → length xs ≡ length ys
    → ((o : ℕ) → count_org o xs ≡ count_org o ys)
    → IsSound c xs
    → IsSound c ys
IsSound-of_counts n k s = record {
  active_eq = s.active_eq ∙ n;
  org_eq = λ o. s.org_eq o ∙ k o;
  active_le = s.active_le;
  org_le = s.org_le;
  queue_le = s.queue_le;
  active_gauge = s.active_gauge;
  queued_gauge = s.queued_gauge;
  fresh = s.fresh;
}

pub occupy-IsSound :
    (c : Controller) (org : ℕ) (xs : List Lease)
    → can_grant c org ≡ true
    → IsSound c xs
    → IsSound (occupy org c) (new_lease org ∷ xs)
occupy-IsSound c org xs h s = record {
  active_eq = unfold occupy in omega (arith, s.active_eq);
  org_eq = λ o.
      unfold count_org count_one in
      ground (arith, org_count-occupy c org o, s.org_eq o, s.org_eq org);
  active_le = unfold occupy can_grant in ground arith;
  org_le = λ o.
      unfold occupy can_grant in ground (arith, org_count-occupy c org o, s.org_le o, s.org_le org);
  queue_le = unfold occupy in s.queue_le;
  active_gauge = unfold occupy in refl;
  queued_gauge = unfold occupy in s.queued_gauge;
  fresh = unfold occupy in s.fresh;
}

pub vacate-IsSound :
    (c : Controller) (l : Lease) (xs : List Lease)
    → IsSound c (l ∷ xs)
    → IsSound (vacate l.org_id c) xs
vacate-IsSound c l xs s = record {
  active_eq = unfold vacate in omega (arith, s.active_eq);
  org_eq = λ o.
      unfold count_org count_one in
      ground (arith, org_count-vacate c l.org_id o, s.org_eq o, s.org_eq l.org_id);
  active_le = unfold vacate in omega (arith, s.active_le);
  org_le = λ o.
      unfold vacate in ground (arith, org_count-vacate c l.org_id o, s.org_le o, s.org_le l.org_id);
  queue_le = unfold vacate in s.queue_le;
  active_gauge = unfold vacate in refl;
  queued_gauge = unfold vacate in s.queued_gauge;
  fresh = unfold vacate in s.fresh;
}

pub set_queue-IsSound :
    {c : Controller} {xs : List Lease} (ws : List Waiter)
    → length ws ≤ c.max_queued
    → All (λ w. (w.acquired ≡ false) × (w.lease ≡ none)) ws
    → IsSound c xs
    → IsSound (set_queue ws c) xs
set_queue-IsSound ws n f s = record {
  active_eq = s.active_eq;
  org_eq = unfold org_count in s.org_eq;
  active_le = s.active_le;
  org_le = unfold org_count in s.org_le;
  queue_le = n;
  active_gauge = s.active_gauge;
  queued_gauge = refl;
  fresh = f;
}

All-split {ℓ κ} :
    {A : Type ℓ} (P : A → Type κ) (xs : List A) (y : A) (ys : List A)
    → All P (xs ++ y ∷ ys)
    → All P (xs ++ ys) × P y
All-split P [] y ys h = (h.1, h.0)
All-split P (x ∷ xs) y ys h = let (rest, here) = All-split P xs y ys h.1 in ((h.0, rest), here)

-- One round of the grant loop gives the picked waiter the slot.
award-IsSound :
    (c : Controller) (xs : List Lease) (w : Waiter) (rest : List Waiter)
    → Picked c c.waiters w rest
    → c.active < c.max_active
    → IsSound c xs
    → IsSound (award w rest c) (new_lease w.org_id ∷ xs)
award-IsSound c xs w rest p room s =
    unfold award in
    set_queue-IsSound rest (unfold occupy in omega (arith, s.queue_le, Picked-length p))
      (rw p.left
        (All-split _ p.before w p.after
          (subst (All (λ v. (v.acquired ≡ false) × (v.lease ≡ none))) p.split s.fresh)).0)
      (occupy-IsSound c w.org_id xs (eligible→can_grant c w room p.fits) s)

-- The grant loop keeps the counts exact.
grant_loop-IsSound :
    (fuel : ℕ) (c : Controller)
    → length c.waiters ≤ fuel
    → (xs : List Lease) → IsSound c xs
    → IsSound (grant_loop fuel c).0 (leases (grant_loop fuel c).1 ++ xs)
grant_loop-IsSound =
    grant_loop_ind (λ c r. (xs : List Lease) → IsSound c xs → IsSound r.0 (leases r.1 ++ xs))
      (λ c settled xs s. unfold leases in s)
      λ c w rest r p room ih xs s.
        IsSound-of_counts (simp (leases-cons, tally) (omega arith))
          (λ o. simp (leases-cons, tally) (omega arith))
          (ih (new_lease w.org_id ∷ xs) (award-IsSound c xs w rest p room s))

drop_cancelled-All :
    (P : Waiter → Type 0) (ws : List Waiter)
    → All P ws
    → All P (drop_cancelled ws) × (length (drop_cancelled ws) ≤ length ws)
unfolding drop_cancelled
drop_cancelled-All P [] h = (tt, omega arith)
drop_cancelled-All P (w ∷ ws) h =
    let (kept, shorter) = drop_cancelled-All P ws h.1 in
    elim (Bool-cases w.cancelled) [
      | inl gone ↦ simp gone (kept, omega (arith, shorter))
      | inr stays ↦ simp stays (h, omega arith)
    ]

remove_first-All :
    (P : Waiter → Type 0) (id : ℕ) (ws : List Waiter)
    → All P ws
    → All P (remove_first id ws) × (length (remove_first id ws) ≤ length ws)
unfolding remove_first
remove_first-All P id [] h = (tt, omega arith)
remove_first-All P id (w ∷ ws) h =
    let (kept, shorter) = remove_first-All P id ws h.1 in
    elim (Bool-cases (w.id == id)) [
      | inl found ↦ simp found (h.1, omega arith)
      | inr other ↦ simp other ((h.0, kept), omega (arith, shorter))
    ]

-- `_release` of an open lease gives its slot back and passes it on: the counts are exact for the
-- leases that are left and those of the woken waiters.
pub release-IsSound :
    (c : Controller) (l : Lease) (xs : List Lease)
    → IsSound c (l ∷ xs)
    → IsSound (release l.org_id c).0 (leases (release l.org_id c).1 ++ xs)
release-IsSound c l xs s =
    let freed = vacate l.org_id c in
    let sound =
      grant_loop-IsSound (length freed.waiters) freed (omega arith) xs (vacate-IsSound c l xs s) in
    unfold release try_grant_waiters in
    let (kept, shorter) =
      drop_cancelled-All _ (grant_loop (length freed.waiters) freed).0.waiters sound.fresh in
    set_queue-IsSound _ (omega (arith, shorter, sound.queue_le)) kept sound

-- After `_release` nobody in the queue could be granted, whatever the state before.
pub release-IsSettled :
    (c : Controller) (org : ℕ) → IsSettled (release org c).0 (release org c).0.waiters
release-IsSettled c org =
    let freed = vacate org c in
    unfold release try_grant_waiters org_count can_grant in
    (drop_cancelled-All _ _ (
      grant_loop_ind (λ c' r. IsSettled r.0 r.0.waiters) (λ c' h. h) (λ c' w rest r p room ih. ih)
        (length freed.waiters) freed (omega arith))).0

pub remove_waiter-IsSound :
    (c : Controller) (id : ℕ) (xs : List Lease) → IsSound c xs → IsSound (remove_waiter id c) xs
remove_waiter-IsSound c id xs s =
    let (kept, shorter) = remove_first-All _ id c.waiters s.fresh in
    unfold remove_waiter in set_queue-IsSound _ (omega (arith, shorter, s.queue_le)) kept s

pub remove_waiter-IsSettled :
    (c : Controller) (id : ℕ)
    → IsSettled c c.waiters
    → IsSettled (remove_waiter id c) (remove_waiter id c).waiters
remove_waiter-IsSettled c id h =
    unfold remove_waiter can_grant org_count in (remove_first-All _ id c.waiters h).0

pub occupy-IsSettled :
    (c : Controller) (org : ℕ) (ws : List Waiter) → IsSettled c ws → IsSettled (occupy org c) ws
occupy-IsSettled c org [] h = tt
occupy-IsSettled c org (w ∷ ws) h =
    (λ waits. can_grant-occupy c org w.org_id (h.0 waits), occupy-IsSettled c org ws h.1)
