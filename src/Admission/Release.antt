-- ===== src/Admission/Release.antt =====
-- admission.py: `close`, `_release` and `_try_grant_waiters`.
use allcallall_agent_runtime.Common.{
  ℕ, zero, suc, ◌-◌, Bool, true, false, not, ◌&&◌, Option, none, some, List, [], ◌∷◌, ltb, leb,
  if◌then◌else◌, length,
}
use allcallall_agent_runtime.Common.Eq.{nat_eq}
use allcallall_agent_runtime.Common.Dict
use allcallall_agent_runtime.Common.Dict.{Dict}
use allcallall_agent_runtime.Admission.State.{
  Lease, Waiter, Controller, org_count, new_lease, occupy, set_queue,
}

-- A waiter that the scan of `_try_grant_waiters` may grant.
unfoldable pub eligible : Controller → Waiter → Bool
eligible c w = not w.cancelled && ltb (org_count c w.org_id) c.max_active_per_org

-- The `for` loop: the first eligible waiter, and the deque without it.
unfoldable pub first_eligible : Controller → List Waiter → Option (Waiter × List Waiter)
first_eligible c [] = none
first_eligible c (w ∷ ws) =
    let later = first_eligible c ws in
    if eligible c w
    then some (w, ws)
    else elim later [ none ↦ none | some (x, rest) ↦ some (x, w ∷ rest) ]

abbrev pub awarded : Waiter → Waiter
awarded w = record w { event = true; acquired = true; lease = some (new_lease w.org_id) }

unfoldable pub award : Waiter → List Waiter → Controller → Controller
award w rest c = set_queue rest (occupy w.org_id c)

abbrev pub some_waiting : List Waiter → Bool
some_waiting [] = false
some_waiting (w ∷ ws) = true

-- The outer `while`, on fuel; the waiters that were granted come back in their order.
unfoldable pub grant_loop : ℕ → Controller → Controller × List Waiter
grant_loop zero c = (c, [])
grant_loop (suc fuel) c = elim (some_waiting c.waiters && ltb c.active c.max_active) [
  | false ↦ (c, [])
  | true ↦ elim (first_eligible c c.waiters) [
    | none ↦ (c, [])
    | some (w, rest) ↦ let (c', woken) = grant_loop fuel (award w rest c) in (c', awarded w ∷ woken)
  ]
]

unfoldable pub drop_cancelled : List Waiter → List Waiter
drop_cancelled [] = []
drop_cancelled (w ∷ ws) = let rest = drop_cancelled ws in if w.cancelled then rest else w ∷ ws

-- _try_grant_waiters: each round takes one waiter off the deque, so its length is enough fuel.
unfoldable pub try_grant_waiters : Controller → Controller × List Waiter
try_grant_waiters c =
    let (c', woken) = grant_loop (length c.waiters) c in
    (set_queue (drop_cancelled c'.waiters) c', woken)

-- The counts of `_release`. A lease is released once, so `_active` is positive there.
unfoldable pub vacate : ℕ → Controller → Controller
vacate org c = record c {
  active = c.active - 1;
  org_active =
      if leb (org_count c org) 1
      then Dict.pop c.org_active org
      else Dict.put c.org_active org (org_count c org - 1);
  metrics = record c.metrics { active_runs = c.active - 1 };
}

-- _release
unfoldable pub release : ℕ → Controller → Controller × List Waiter
release org c = try_grant_waiters (vacate org c)

-- AdmissionLease.close: the second call changes nothing.
unfoldable pub close : Lease → Controller → Lease × Controller × List Waiter
close l c =
    if l.closed
    then (l, c, [])
    else let (c', woken) = release l.org_id c in (record l { closed = true }, c', woken)
