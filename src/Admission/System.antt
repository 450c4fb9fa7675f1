-- ===== src/Admission/System.antt =====
-- admission.py under concurrency: the controller with its callers, as a step relation. Each step
-- is one critical section, or the unlocked read of a waiter's flags.
use allcallall_agent_runtime.Common.{ℕ, ◌≡◌, List, [], ◌∷◌, ◌++◌, if◌then◌else◌}
use allcallall_agent_runtime.Common.Eq.{◌==◌, nat_eq}
use allcallall_agent_runtime.Admission.State.{Controller, Waiter, Lease, Reason}
use allcallall_agent_runtime.Admission.Release.{release}
use allcallall_agent_runtime.Admission.Acquire.{
  acquire_enter, take_lease, give_up, read_flags, remove_first, abandon,
}
use allcallall_agent_runtime.Admission.Entering.{entry_leases}
use allcallall_agent_runtime.Admission.Scan.{IsSettled}
use allcallall_agent_runtime.Admission.Invariant.{own, IsSound, leases}

pub record System : Type 0 where
  pub ctl : Controller
  -- leases that callers hold
  pub held : List Lease
  -- waiters that were granted and whose callers have not read the flags
  pub woken : List Waiter
  -- callers that read unset flags and are about to leave the queue
  pub leaving : List (ℕ × Reason)
  -- leases of waiters whose callers had gone by then
  pub lost : List Lease

unfoldable pub enter : ℕ → ℕ → ℕ → System → System
enter id org now s =
    let (e, c) = acquire_enter id org now s.ctl in
    record s { ctl = c; held = entry_leases e ++ s.held }

-- The lease of the first waiter with this identity.
unfoldable pub lease_of : ℕ → List Waiter → List Lease
lease_of id [] = []
lease_of id (w ∷ ws) = if w.id == id then own w.lease else lease_of id ws

-- The caller raises: a lease that its waiter was given meanwhile has no owner any more.
unfoldable pub leave : ℕ → Reason → List (ℕ × Reason) → System → System
leave id reason others s = record s {
  ctl = (abandon reason id s.ctl).1;
  woken = remove_first id s.woken;
  leaving = others;
  lost = lease_of id s.woken ++ s.lost;
}

unfoldable pub hand_back : Lease → List Lease → System → System
hand_back l others s =
    let (c, ws) = release l.org_id s.ctl in
    record s { ctl = c; held = others; woken = ws ++ s.woken }

pub data Step (s t : System) : Type 0 where
  entering : (id org now : ℕ) → t ≡ enter id org now s → Step s t
  waking :
      (xs ys : List Waiter) (w : Waiter) (l : Lease)
      → s.woken ≡ xs ++ w ∷ ys
      → read_flags w ≡ take_lease l
      → t ≡ record s { held = l ∷ s.held; woken = xs ++ ys }
      → Step s t
  deciding :
      (xs ys : List Waiter) (w : Waiter) (reason : Reason)
      → s.ctl.waiters ≡ xs ++ w ∷ ys
      → read_flags w ≡ give_up reason
      → t ≡ record s { leaving = (w.id, reason) ∷ s.leaving }
      → Step s t
  departing :
      (xs ys : List (ℕ × Reason)) (id : ℕ) (reason : Reason)
      → s.leaving ≡ xs ++ (id, reason) ∷ ys
      → t ≡ leave id reason (xs ++ ys) s
      → Step s t
  closing :
      (xs ys : List Lease) (l : Lease)
      → s.held ≡ xs ++ l ∷ ys
      → t ≡ hand_back l (xs ++ ys) s
      → Step s t

pub data Reach (s : System) : System → Type 0 where
  here : Reach s s
  next : {t u : System} → Reach s t → Step t u → Reach s u

-- Every slot in use belongs to a caller, to a caller that is waking up, or is lost.
pub record IsAccounted (s : System) : Type 0 where
  pub sound : IsSound s.ctl (s.held ++ leases s.woken ++ s.lost)
  pub settled : IsSettled s.ctl s.ctl.waiters
