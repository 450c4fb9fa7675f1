-- ===== src/ToolQueue/Leases.antt =====
-- async_tool_queue.py: a task under a lease, over a run of calls.
use allcallall_agent_runtime.Common.{
  ℕ, ◌+◌, ◌<◌, ◌≤◌, ◌≡◌, ◌≢◌, refl, sym, subst, ap, ◌∙◌, Bool, true, false, ◌&&◌, ◌||◌, some,
  String, List, [], ◌∷◌, inl, inr, arith, if◌then◌else◌, leb, leb→le, clash, some-injective,
}
use allcallall_agent_runtime.Common.Eq.{◌==◌, string_eq, ==_refl}
use allcallall_agent_runtime.Common.Dict
use allcallall_agent_runtime.Common.Dict.{Dict, get-put}
use allcallall_agent_runtime.ToolQueue.Store
use allcallall_agent_runtime.ToolQueue.Store.{Task, Store}
use allcallall_agent_runtime.ToolQueue.Queue.{Queue, candidate, claim, is_eligible, is_open}
use allcallall_agent_runtime.ToolQueue.Steps.{Call, step, play}
use allcallall_agent_runtime.ToolQueue.Keyed.{
  IsKeyed, put-IsKeyed, Stands-get, get-IsKeyed, step-IsKeyed,
}
use allcallall_agent_runtime.ToolQueue.Claims.{candidate-Stands, claimed, ==_differ}
use allcallall_agent_runtime.ToolQueue.Writes.{step-Writes, Origin}

expired : (a b c d : Bool) → (a && (b && (c || d))) ≡ true → d ≡ false → c ≡ true
expired false b c d h k = clash h refl
expired true false c d h k = clash h refl
expired true true true d h k = refl
expired true true false d h k = clash h k

module _ {P : Type 0} where
  -- The task `id` is under a lease of some owner until then.
  abbrev pub IsHeld : String → ℕ → Dict String (Task P) → Type 0
  IsHeld id until d =
      (t : Task P) × (Dict.get d id ≡ some t) × (t.lease_until ≡ until) × (t.lease_owner ≢ "")

  -- Before `until`, a call that neither reports on the task nor draws its id as a new uuid.
  abbrev pub Spares : String → ℕ → Call P → Type 0
  Spares id until (Call.enqueue other t) = other ≢ id
  Spares id until (Call.claim owner now timeout) = now < until
  Spares id until (Call.complete other) = other ≢ id
  Spares id until (Call.fail other error now) = other ≢ id

  abbrev pub AllSpare : String → ℕ → List (Call P) → Type 0
  AllSpare id until [] = Unit
  AllSpare id until (c ∷ cs) = Spares id until c × AllSpare id until cs

  put-IsHeld :
      (id : String) (until : ℕ) (d : Dict String (Task P)) (v : Task P)
      → v.task_id ≢ id
      → IsHeld id until d
      → IsHeld id until (Dict.put d v.task_id v)
  put-IsHeld id until d v other (t, e, ends, owned) =
      (t, rw (get-put d v.task_id id v, ==_differ v.task_id id other) e, ends, owned)

  is_eligible-held :
      (now : ℕ) (t : Task P) → is_eligible now t ≡ true → t.lease_owner ≢ "" → t.lease_until ≤ now
  unfolding is_eligible
  is_eligible-held now t h owned = leb→le t.lease_until now (
      expired (is_open t.status) (leb t.scheduled_at now) (leb t.lease_until now)
        (t.lease_owner == "") h (==_differ t.lease_owner "" owned))

  candidate-Spares :
      (id : String) (until now : ℕ) (q : Queue P) (t : Task P)
      → IsKeyed q.store.tasks
      → IsHeld id until q.store.tasks
      → now < until
      → candidate now q ≡ some t
      → t.task_id ≢ id
  unfolding Store.all
  candidate-Spares id until now q t keyed (u, found, ends, owned) early e same =
      let (stands, eligible, _) = candidate-Stands now q t e in
      let t_is = some-injective (
        sym (Stands-get q.store.tasks t keyed stands)
        ∙ ap (λ k. Dict.get q.store.tasks k) same
        ∙ found) in
      let late =
        is_eligible-held now t eligible (subst (λ w. w.lease_owner ≢ "") (sym t_is) owned) in
      let ends' = ap (λ w. w.lease_until) t_is ∙ ends in omega (arith, late, ends', early)

  Origin-Spares :
      (id : String) (until : ℕ) (c : Call P) (q : Queue P) (v : Task P)
      → IsKeyed q.store.tasks
      → IsHeld id until q.store.tasks
      → Spares id until c
      → Origin c q v
      → v.task_id ≢ id
  unfolding Store.get
  Origin-Spares id until (Call.enqueue other t) q v keyed held spares e same =
      spares (sym (ap (λ w. w.task_id) e) ∙ same)
  Origin-Spares id until (Call.claim owner now timeout) q v keyed held spares (t, e, is) same =
      candidate-Spares id until now q t keyed held spares e (sym (ap (λ w. w.task_id) is) ∙ same)
  Origin-Spares id until (Call.complete other) q v keyed held spares (t, e, is) same =
      spares (sym (get-IsKeyed q.store.tasks other t keyed e) ∙ sym (ap (λ w. w.task_id) is) ∙ same)
  Origin-Spares id until (Call.fail other error now) q v keyed held spares (t, e, inl is) same =
      spares (sym (get-IsKeyed q.store.tasks other t keyed e) ∙ sym (ap (λ w. w.task_id) is) ∙ same)
  Origin-Spares id until (Call.fail other error now) q v keyed held spares (t, e, inr (_, is))
        same =
      spares (sym (get-IsKeyed q.store.tasks other t keyed e) ∙ sym (ap (λ w. w.task_id) is) ∙ same)

  play-IsHeld :
      (id : String) (until : ℕ) (cs : List (Call P)) (q : Queue P)
      → AllSpare id until cs
      → IsKeyed q.store.tasks
      → IsHeld id until q.store.tasks
      → IsKeyed (play cs q).store.tasks × IsHeld id until (play cs q).store.tasks
  play-IsHeld id until [] q spares keyed held = (keyed, held)
  play-IsHeld id until (c ∷ cs) q spares keyed held =
      play-IsHeld id until cs (step c q) spares.1 (step-IsKeyed c q keyed) (elim (step-Writes c q) [
        | inl same ↦ subst (IsHeld id until) (sym same) held
        | inr (v, e, o) ↦ subst (IsHeld id until) (sym e) (
            put-IsHeld id until q.store.tasks v (Origin-Spares id until c q v keyed held spares.0 o)
              held)
      ])

  -- A task that a named owner claims from a store that holds each task once, under its id, is not
  -- claimed again before the lease ends, whatever calls come between, if each claim among them is
  -- before that end and none of them reports on the task or draws its id as a new uuid.
  pub claim-exclusive :
      (owner other : String) (now timeout now' timeout' : ℕ) (q q' q'' : Queue P) (t u : Task P)
      (cs : List (Call P))
      → IsKeyed q.store.tasks
      → owner ≢ ""
      → claim owner now timeout q ≡ (some t, q')
      → AllSpare t.task_id (now + timeout) cs
      → now' < now + timeout
      → claim other now' timeout' (play cs q') ≡ (some u, q'')
      → u.task_id ≢ t.task_id
  unfolding Store.update
  claim-exclusive owner other now timeout now' timeout' q q' q'' t u cs keyed owned first spares
        early second same =
      let (t₀, _, t_is, q'_is) = claimed owner now timeout q q' t first in
      let (u₀, e, u_is, _) = claimed other now' timeout' (play cs q') q'' u second in
      let tasks = ap (λ r. r.store.tasks) q'_is in
      let keyed' = subst IsKeyed (sym tasks) (put-IsKeyed q.store.tasks t keyed) in
      let found =
        ap (λ d. Dict.get d t.task_id) tasks
        ∙ get-put q.store.tasks t.task_id t.task_id t
        ∙ ap (λ b. if b then some t else Dict.get q.store.tasks t.task_id) (==_refl t.task_id) in
      let held : IsHeld t.task_id (now + timeout) q'.store.tasks = (
        t,
        found,
        ap (λ w. w.lease_until) t_is,
        λ no. owned (sym (ap (λ w. w.lease_owner) t_is) ∙ no),
      ) in
      let (keyed'', held'') = play-IsHeld t.task_id (now + timeout) cs q' spares keyed' held in
      candidate-Spares t.task_id (now + timeout) now' (play cs q') u₀ keyed'' held'' early e
        (sym (ap (λ w. w.task_id) u_is) ∙ same)
